-- ===== src/Forwarder/Pairing.antt =====
-- Unmapping one port: _UnmapDevicePortLocked of forwarder.py.
use ftc_designosaurs.Base.{
  inr, inl, subst, inl, Bool-cases, ◌∙◌, ap, String, Option, none, some, ◌≡◌, refl, ◌≢◌, ◌==◌,
  if◌then◌else◌, comparable_string, comparable_pair,
}
use ftc_designosaurs.Base.Dict.{IsDict, insert-IsDict, erase-IsDict, lookup, erase, lookup-erase}
use ftc_designosaurs.Python.{Result, ok, err, key_error}
use ftc_designosaurs.Forwarder.Ports.{ℤ, comparable_int}
use ftc_designosaurs.Forwarder.Inverse.{LeadsBack, insert-LeadsBack, erase-LeadsBack}
use ftc_designosaurs.Forwarder.Host.{Host, Run, exited, timed_out, not_found, os_failed, unmap_port}
use ftc_designosaurs.Forwarder.Instance.{Forwarder, store_ports}
use ftc_designosaurs.Forwarder.Unmap.{run_unmap, unmap_found, unmap_device_port_locked, after_unmap}

-- A device port has one entry, and its host port leads back to it.
abbrev pub IsPaired : {S : Type 0} → Forwarder S → Type 0
IsPaired f =
    IsDict f.device_to_host_port_map × LeadsBack f.device_to_host_port_map f.host_to_device_port_map

-- The assignments to the maps keep the maps paired, where no other device port has the host port.
pub store_ports-IsPaired :
    (host : Host) (serial : String) (device_port host_port : ℤ) (f : Forwarder host.State)
    → IsPaired f
    → ((k : String × ℤ)
        → lookup host_port f.host_to_device_port_map ≡ some k
        → k ≡ (serial, device_port))
    → IsPaired (store_ports host serial device_port host_port f).1
unfolding store_ports
store_ports-IsPaired host serial d h f paired free = (
  insert-IsDict (serial, d) h f.device_to_host_port_map paired.0,
  insert-LeadsBack (serial, d) h f.device_to_host_port_map f.host_to_device_port_map paired.1 free,
)

module _ (host : Host) where
  open host use {State, run}

  -- A call that leaves the maps as they were, and that raises no KeyError.
  abbrev pub Settled : Forwarder State → Result Unit × Forwarder State → Type 0
  Settled f (r, g) =
      (r ≢ err key_error)
      × (g.device_to_host_port_map ≡ f.device_to_host_port_map)
      × (g.host_to_device_port_map ≡ f.host_to_device_port_map)

  pub run_unmap-Settled :
      (serial : String) (port : ℤ) (f : Forwarder State) → Settled f (run_unmap host serial port f)
  unfolding run_unmap
  run_unmap-Settled serial port f =
      by_run (run (unmap_port f.host_forwarder_path serial port) f.world).0
        (run (unmap_port f.host_forwarder_path serial port) f.world).1
    where
      by_run : (ran : Run) (s : State) → Settled f (after_unmap host ran (record f { world = s }))
      by_run (exited code output) s = (λ h. cc, refl, refl)
      by_run timed_out s = (λ h. cc, refl, refl)
      by_run not_found s = (λ h. cc, refl, refl)
      by_run os_failed s = (λ h. cc, refl, refl)

  abbrev pub without : String × ℤ → ℤ → Forwarder State → Forwarder State
  without key host_port f = record f {
    device_to_host_port_map = erase key f.device_to_host_port_map;
    host_to_device_port_map = erase host_port f.host_to_device_port_map;
  }

  pub without-IsPaired :
      (key : String × ℤ) (host_port : ℤ) (f : Forwarder State)
      → IsPaired f
      → lookup key f.device_to_host_port_map ≡ some host_port
      → IsPaired (without key host_port f)
  without-IsPaired key host_port f (dict, back) found = (
    erase-IsDict key f.device_to_host_port_map dict,
    erase-LeadsBack key host_port f.device_to_host_port_map f.host_to_device_port_map back found,
  )

  -- Both entries are gone by the time that the command runs.
  pub unmap-without :
      (serial : String) (port host_port : ℤ) (back : String × ℤ) (f : Forwarder State)
      → lookup (serial, port) f.device_to_host_port_map ≡ some host_port
      → lookup host_port f.host_to_device_port_map ≡ some back
      → unmap_device_port_locked host serial port f
        ≡ run_unmap host serial port (without (serial, port) host_port f)
  unfolding unmap_device_port_locked unmap_found
  unmap-without serial port host_port back f found known = rw found (rw found (rw known refl))

  unmap-absent :
      (serial : String) (port : ℤ) (f : Forwarder State)
      → lookup (serial, port) f.device_to_host_port_map ≡ none
      → unmap_device_port_locked host serial port f ≡ (ok tt, f)
  unfolding unmap_device_port_locked unmap_found
  unmap-absent serial port f absent = rw absent refl

  absent_stays :
      (key k : String × ℤ) (f : Forwarder State)
      → lookup key f.device_to_host_port_map ≡ none
      → lookup k f.device_to_host_port_map
        ≡ (if key == k then none else lookup k f.device_to_host_port_map)
  absent_stays key k f absent = elim (Bool-cases (key == k)) [
    | inl e ↦ rw e (
        subst (λ x. lookup x f.device_to_host_port_map ≡ none)
          ((comparable_pair.equal_iff key k).0 e) absent)
    | inr n ↦ rw n refl
  ]

  abbrev pub Unmapped : String × ℤ → Forwarder State → Result Unit × Forwarder State → Type 0
  Unmapped key f (r, g) =
      (r ≢ err key_error)
      × ((k : String × ℤ)
          → lookup k g.device_to_host_port_map
            ≡ (if key == k then none else lookup k f.device_to_host_port_map))
      × IsPaired g

  after_run :
      (serial : String) (port host_port : ℤ) (f : Forwarder State)
      → IsPaired f
      → lookup (serial, port) f.device_to_host_port_map ≡ some host_port
      → (out : Result Unit × Forwarder State) → Settled (without (serial, port) host_port f) out
      → Unmapped (serial, port) f out
  after_run serial port host_port f paired found (r, g) (no_key_error, device, hosts) = (
    no_key_error,
    λ k. ap (lookup k) device ∙ lookup-erase (serial, port) k f.device_to_host_port_map,
    rw device (rw hosts (without-IsPaired (serial, port) host_port f paired found)),
  )

  -- Where the maps lead back, UnmapDevicePort raises no KeyError, and whatever the command does the
  -- device port is not in the map afterwards, the other device ports are as before, and the maps
  -- still lead back.
  pub unmap_device_port_locked_lem :
      (serial : String) (port : ℤ) (f : Forwarder State)
      → IsPaired f
      → Unmapped (serial, port) f (unmap_device_port_locked host serial port f)
  unmap_device_port_locked_lem serial port f paired =
      by_lookup (lookup (serial, port) f.device_to_host_port_map) refl
    where
      by_lookup :
          (o : Option ℤ)
          → lookup (serial, port) f.device_to_host_port_map ≡ o
          → Unmapped (serial, port) f (unmap_device_port_locked host serial port f)
      by_lookup none e =
          rw (unmap-absent serial port f e)
            (λ h. cc, λ k. absent_stays (serial, port) k f e, paired)
      by_lookup (some h) e =
          rw (unmap-without serial port h (serial, port) f e (paired.1 (serial, port) h e)) (
            after_run serial port h f paired e
              (run_unmap host serial port (without (serial, port) h f))
              (run_unmap-Settled serial port (without (serial, port) h f)))
