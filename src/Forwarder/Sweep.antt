-- ===== src/Forwarder/Sweep.antt =====
-- Unmapping all ports of a device: the loop of UnmapAllDevicePorts in forwarder.py.
use ftc_designosaurs.Base.{
  ap, inr, inl, Bool-cases, String, none, some, Bool, true, false, ◌≡◌, refl, ◌==◌, if◌then◌else◌,
  comparable_string, comparable_pair, [], ◌∷◌, ◌∙◌,
}
use ftc_designosaurs.Base.Dict.{IsDict, lookup, lookup-erase, Dict}
use ftc_designosaurs.Python.{Result, ok, Exec, ◌>>◌}
use ftc_designosaurs.Forwarder.Picked.{
  is_picked, Within, rest_in, rest_in_erased, first_in, picked_first, picked_other, picked_none,
  picked_none,
}
use ftc_designosaurs.Forwarder.Ports.{ℤ, comparable_int}
use ftc_designosaurs.Forwarder.Host.{Host}
use ftc_designosaurs.Forwarder.Instance.{Forwarder}
use ftc_designosaurs.Forwarder.Unmap.{delete_entries, delete_device, delete_host}
use ftc_designosaurs.Forwarder.Pairing.{IsPaired, without, without-IsPaired}

abbrev pub Entries : Type 0
Entries = Dict (String × ℤ) ℤ

abbrev pub is_of : String → String × ℤ → Bool
is_of serial key = key.0 == serial

module _ (host : Host) where
  open host use {State}

  -- What the loop leaves.
  abbrev pub Swept : String → Entries → Forwarder State → Result Unit × Forwarder State → Type 0
  Swept serial es f (r, g) =
      (r ≡ ok tt)
      × ((k : String × ℤ)
          → lookup k g.device_to_host_port_map
            ≡ (if is_picked (is_of serial) es k then none else lookup k f.device_to_host_port_map))
      × IsPaired g

  delete_both :
      (key back : String × ℤ) (port : ℤ) (rest : Exec (Forwarder State) Unit) (f : Forwarder State)
      → lookup key f.device_to_host_port_map ≡ some port
      → lookup port f.host_to_device_port_map ≡ some back
      → (delete_device host key >> (delete_host host port >> rest)) f
        ≡ rest (without host key port f)
  delete_both key back port rest f found known = rw found (rw known refl)

  sweep_first :
      (serial : String) (key : String × ℤ) (port : ℤ) (es : Entries) (f : Forwarder State)
      → (key.0 == serial) ≡ true
      → (out : Result Unit × Forwarder State) → Swept serial es (without host key port f) out
      → Swept serial ((key, port) ∷ es) f out
  sweep_first serial key port es f e (r, g) (returned, device, paired) = (
    returned,
    λ k.
        device k
        ∙ ap (λ o. if is_picked (is_of serial) es k then none else o)
            (lookup-erase key k f.device_to_host_port_map)
        ∙ picked_first (is_of serial) key k port es (lookup k f.device_to_host_port_map) e,
    paired,
  )

  sweep_other :
      (serial : String) (key : String × ℤ) (port : ℤ) (es : Entries) (f : Forwarder State)
      → (key.0 == serial) ≡ false
      → (out : Result Unit × Forwarder State) → Swept serial es f out
      → Swept serial ((key, port) ∷ es) f out
  sweep_other serial key port es f n (r, g) (returned, device, paired) = (
    returned,
    λ k.
        device k ∙ picked_other (is_of serial) key k port es (lookup k f.device_to_host_port_map) n,
    paired,
  )

  -- The loop
  pub delete_entries-Swept :
      (serial : String) (es : Entries) (f : Forwarder State)
      → IsDict es
      → Within (is_of serial) es f.device_to_host_port_map
      → IsPaired f
      → Swept serial es f (delete_entries host serial es f)
  unfolding delete_entries
  delete_entries-Swept serial [] f dict within paired =
      (refl, λ k. picked_none (is_of serial) k (lookup k f.device_to_host_port_map), paired)
  delete_entries-Swept serial ((key, port) ∷ es) f dict within paired =
      elim (Bool-cases (key.0 == serial)) [
        | inl e ↦ rw e (
            rw
              (delete_both key key port (delete_entries host serial es) f found
                (paired.1 key port found))
              (sweep_first serial key port es f e
                (delete_entries host serial es (without host key port f))
                (delete_entries-Swept serial es (without host key port f) dict.1
                  (rest_in_erased (is_of serial) key port es f.device_to_host_port_map dict.0
                    within)
                  (without-IsPaired host key port f paired found))))
        | inr n ↦ rw n (
            sweep_other serial key port es f n (delete_entries host serial es f) (
              delete_entries-Swept serial es f dict.1
                (rest_in (is_of serial) key port es f.device_to_host_port_map dict.0 within)
                paired))
      ]
    where
      found : lookup key f.device_to_host_port_map ≡ some port
      found = first_in (is_of serial) key port es f.device_to_host_port_map within
