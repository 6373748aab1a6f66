-- ===== src/Forwarder/Devices.antt =====
-- The device_forwarder daemons: _KillDeviceLocked, _InitDeviceLocked and UnmapAllDevicePorts of
-- forwarder.py.
use ftc_designosaurs.Base.{
  String, none, Bool, true, false, not, ◌≡◌, refl, if◌then◌else◌, arith, contains, keep,
  comparable_string, comparable_pair, ap, ◌∙◌, List, [], ◌∷◌, ◌==◌, contains-keep, equal_self,
  Bool-cases, inl, inr,
}
use ftc_designosaurs.Base.Dict.{lookup}
use ftc_designosaurs.Python.{try_except, Result, ok, err, Ensures, Ensures-after, and_then, pure}
use ftc_designosaurs.Flags.Chars.{Text}
use ftc_designosaurs.Forwarder.Ports.{ℤ, pos, comparable_int}
use ftc_designosaurs.Forwarder.Host.{Host, exited, unmap_all_ports}
use ftc_designosaurs.Forwarder.Instance.{
  with_wrapper, push_forwarder, reboot_device, Forwarder, kill_device_locked, init_device_locked,
  start_device, run_kill, outside, device_forwarder_path, add_device,
}
use ftc_designosaurs.Forwarder.Unmap.{delete_entries, unmap_all_locked}
use ftc_designosaurs.Forwarder.Pairing.{IsPaired}
use ftc_designosaurs.Forwarder.Picked.{picked_all}
use ftc_designosaurs.Forwarder.Sweep.{Swept, delete_entries-Swept, is_of}

module _ (host : Host) where
  open host use {State, run, file_exists, fetch_device_path, run_shell_command}

  -- The device is not in the set any more, and the maps are the same.
  abbrev pub Killed : String → Forwarder State → Result Unit × Forwarder State → Type 0
  Killed serial f (r, g) =
      (contains g.initialized_devices serial ≡ false)
      × (g.device_to_host_port_map ≡ f.device_to_host_port_map)
      × (g.host_to_device_port_map ≡ f.host_to_device_port_map)

  discarded :
      (serial : String) (ds : List String)
      → contains (keep (λ d. not (d == serial)) ds) serial ≡ false
  discarded serial ds = simp (contains-keep, equal_self)

  pub kill_device_locked-Killed :
      (serial wrapper : String) (f : Forwarder State)
      → Killed serial f (kill_device_locked host serial wrapper f)
  unfolding kill_device_locked
  kill_device_locked-Killed serial wrapper f =
      by_result (file_exists serial device_forwarder_path f.world)
    where
      by_result :
          (found : Result Bool × State)
          → Killed serial f (
              and_then found.0
                (λ there. outside host (if there then run_kill host serial wrapper else pure tt))
                (record f {
                  world = found.1;
                  initialized_devices = keep (λ d. not (d == serial)) f.initialized_devices;
                }))
      by_result (ok there, s) = (discarded serial f.initialized_devices, refl, refl)
      by_result (err e, s) = (discarded serial f.initialized_devices, refl, refl)

  -- Of one device no port is left, those of the other devices are as before, the maps lead back, and
  -- the daemon has to be started again.
  abbrev pub Cleared : String → Forwarder State → Result Unit × Forwarder State → Type 0
  Cleared serial f (r, g) =
      ((k : String × ℤ)
        → lookup k g.device_to_host_port_map
          ≡ (if is_of serial k then none else lookup k f.device_to_host_port_map))
      × IsPaired g
      × (contains g.initialized_devices serial ≡ false)

  after_kill :
      (serial : String) (f g : Forwarder State) (out : Result Unit × Forwarder State)
      → Swept host serial f.device_to_host_port_map f (ok tt, g)
      → Killed serial g out
      → Cleared serial f out
  after_kill serial f g (r, h) (_, device, paired) (gone, same_device, same_host) = (
    λ k.
        ap (lookup k) same_device
        ∙ device k
        ∙ picked_all (is_of serial) k f.device_to_host_port_map,
    rw same_device (rw same_host paired),
    gone,
  )

  after_sweep :
      (serial : String) (f : Forwarder State) (out : Result Unit × Forwarder State)
      → Swept host serial f.device_to_host_port_map f out
      → Cleared serial f (and_then out.0 (λ u. kill_device_locked host serial "") out.1)
  after_sweep serial f (ok u, g) swept =
      after_kill serial f g (kill_device_locked host serial "" g) swept
        (kill_device_locked-Killed serial "" g)
  after_sweep serial f (err e, g) swept = absurd (cc)

  -- Where the maps lead back and host_forwarder exits with 0, UnmapAllDevicePorts leaves no port of
  -- the device in the map, every other entry as it was, and maps that lead back. The device does not
  -- count as initialized any more. This holds also where the device cannot be reached in the end.
  pub unmap_all_locked-Cleared :
      (serial : String) (f : Forwarder State) (output : Text) (s : State)
      → IsPaired f
      → run (unmap_all_ports f.host_forwarder_path serial) f.world ≡ (exited (pos 0) output, s)
      → Cleared serial f (unmap_all_locked host serial f)
  unfolding unmap_all_locked
  unmap_all_locked-Cleared serial f output s paired e = rw e (
      after_sweep serial (record f { world = s })
        (delete_entries host serial f.device_to_host_port_map (record f { world = s }))
        (delete_entries-Swept host serial f.device_to_host_port_map (record f { world = s })
          paired.0 (λ k p h. h) paired))

  add_device_lem :
      (serial : String) (f : Forwarder State)
      → Ensures (λ u g. contains g.initialized_devices serial ≡ true) (add_device host serial f)
  unfolding contains
  add_device_lem serial f = elim (Bool-cases (contains f.initialized_devices serial)) [
    | inl e ↦ rw e e
    | inr n ↦ rw n (ground (arith, equal_self serial))
  ]

  abbrev Added : String → Unit {0} → Forwarder State → Type 0
  Added serial u g = contains g.initialized_devices serial ≡ true

  start_device_lem :
      (serial wrapper : String) (f : Forwarder State)
      → Ensures (Added serial) (start_device host serial wrapper f)
  unfolding start_device
  start_device_lem serial wrapper f =
      Ensures-after (Added serial)
        (try_except (kill_device_locked host serial wrapper) (reboot_device host serial)) _ f
        λ a g. Ensures-after (Added serial) (outside host (fetch_device_path serial)) _ g λ path h.
          Ensures-after (Added serial) (outside host (push_forwarder host serial path)) _ h λ c i.
            Ensures-after (Added serial)
              (outside host
                (run_shell_command serial (with_wrapper wrapper (device_forwarder_path ∷ []))))
              _ i λ d j. add_device_lem serial j

  -- After a call of _InitDeviceLocked that returns, another one for the device returns at once and
  -- changes nothing, until _KillDeviceLocked takes the device out of the set, however that call ends.
  pub init_device_locked_lem :
      (serial wrapper : String) (f : Forwarder State)
      → Ensures
          (λ u g.
            ((other : String) → init_device_locked host serial other g ≡ (ok tt, g))
            × ((other : String)
                → contains (kill_device_locked host serial other g).1.initialized_devices serial
                  ≡ false))
          (init_device_locked host serial wrapper f)
  unfolding init_device_locked
  init_device_locked_lem serial wrapper f =
      elim (Bool-cases (contains f.initialized_devices serial)) [
        | inl e ↦ rw e (λ other. rw e refl, λ other. (kill_device_locked-Killed serial other f).0)
        | inr n ↦
            rw n
              (after_start (start_device host serial wrapper f) (start_device_lem serial wrapper f))
      ]
    where
      after_start :
          (out : Result Unit × Forwarder State)
          → Ensures (λ u g. contains g.initialized_devices serial ≡ true) out
          → Ensures
              (λ u g.
                ((other : String) → init_device_locked host serial other g ≡ (ok tt, g))
                × ((other : String)
                    → contains (kill_device_locked host serial other g).1.initialized_devices serial
                      ≡ false))
              out
      after_start (ok u, g) there =
          (λ other. rw there refl, λ other. (kill_device_locked-Killed serial other g).0)
      after_start (err e, g) there = tt
