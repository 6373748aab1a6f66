-- ===== src/Forwarder/Kept.antt =====
-- What the methods of the class Forwarder that start daemons or map ports leave of the maps.
use ftc_designosaurs.Base.{
  String, [], ◌∷◌, Bool, true, false, contains, comparable_string, comparable_pair, if◌then◌else◌,
  ◌==◌,
}
use ftc_designosaurs.Python.{
  Exec, Result, ok, Error, try_except, Leaves-bind, Leaves-try, command_failed_error,
  device_unreachable_error, pure, raise, host_forwarder_error, ◌>>◌,
}
use ftc_designosaurs.Forwarder.Ports.{pos, comparable_int}
use ftc_designosaurs.Forwarder.Host.{
  Host, exited, timed_out, not_found, os_failed, unmap_all_ports, Run,
}
use ftc_designosaurs.Forwarder.Instance.{
  Forwarder, kill_device_locked, init_device_locked, fail_map, start_device, outside, run_command,
  reboot_device, warn_kill_failure, log_map_failure_diagnostics, push_forwarder,
  device_forwarder_path, with_wrapper,
}
use ftc_designosaurs.Forwarder.Unmap.{unmap_all_locked, after_unmap_all, delete_all}
use ftc_designosaurs.Forwarder.Pairing.{IsPaired}
use ftc_designosaurs.Forwarder.Sweep.{delete_entries-Swept}
use ftc_designosaurs.Forwarder.Devices.{Killed, kill_device_locked-Killed}

module _ (host : Host) where
  open host use {State, run, fetch_device_path, run_shell_command}

  keeps_pairs :
      (serial : String) (f : Forwarder State) (out : Result Unit × Forwarder State)
      → Killed host serial f out
      → IsPaired f
      → IsPaired out.1
  keeps_pairs serial f (r, g) (_, device, hosts) paired = rw device (rw hosts paired)

  pub kill_device_locked-IsPaired :
      (serial wrapper : String) (f : Forwarder State)
      → IsPaired f
      → IsPaired (kill_device_locked host serial wrapper f).1
  kill_device_locked-IsPaired serial wrapper f paired =
      keeps_pairs serial f (kill_device_locked host serial wrapper f)
        (kill_device_locked-Killed host serial wrapper f) paired

  reboot_device-IsPaired :
      (serial : String) (e : Error) (f : Forwarder State)
      → IsPaired f
      → IsPaired (reboot_device host serial e f).1
  reboot_device-IsPaired serial command_failed_error f paired = paired
  reboot_device-IsPaired serial e f paired = paired

  warn_kill_failure-IsPaired :
      (e : Error) (f : Forwarder State) → IsPaired f → IsPaired (warn_kill_failure host e f).1
  warn_kill_failure-IsPaired command_failed_error f paired = paired
  warn_kill_failure-IsPaired device_unreachable_error f paired = paired
  warn_kill_failure-IsPaired e f paired = paired

  start_device-IsPaired :
      (serial wrapper : String) (f : Forwarder State)
      → IsPaired f
      → IsPaired (start_device host serial wrapper f).1
  unfolding start_device
  start_device-IsPaired serial wrapper f paired =
      Leaves-bind IsPaired
        (try_except (kill_device_locked host serial wrapper) (reboot_device host serial)) _ f
        (Leaves-try IsPaired (kill_device_locked host serial wrapper) (reboot_device host serial) f
          (kill_device_locked-IsPaired serial wrapper f paired) (reboot_device-IsPaired serial))
        λ a g p. Leaves-bind IsPaired (outside host (fetch_device_path serial)) _ g p λ path h q.
          Leaves-bind IsPaired (outside host (push_forwarder host serial path)) _ h q λ c i r.
            Leaves-bind IsPaired
              (outside host
                (run_shell_command serial (with_wrapper wrapper (device_forwarder_path ∷ []))))
              _ i r λ d j t. t

  pub init_device_locked-IsPaired :
      (serial wrapper : String) (f : Forwarder State)
      → IsPaired f
      → IsPaired (init_device_locked host serial wrapper f).1
  unfolding init_device_locked
  init_device_locked-IsPaired serial wrapper f paired =
      by_test (contains f.initialized_devices serial)
    where
      by_test :
          (b : Bool) → IsPaired ((if b then (ok tt, f) else start_device host serial wrapper f)).1
      by_test true = paired
      by_test false = start_device-IsPaired serial wrapper f paired

  pub fail_map-IsPaired :
      (serial wrapper : String) (f : Forwarder State)
      → IsPaired f
      → IsPaired (fail_map host serial wrapper f).1
  unfolding fail_map
  fail_map-IsPaired serial wrapper f paired =
      Leaves-bind IsPaired
        (try_except (kill_device_locked host serial wrapper) (warn_kill_failure host)) _ f
        (Leaves-try IsPaired (kill_device_locked host serial wrapper) (warn_kill_failure host) f
          (kill_device_locked-IsPaired serial wrapper f paired) warn_kill_failure-IsPaired)
        λ a g p.
          Leaves-bind IsPaired (outside host (log_map_failure_diagnostics host serial)) _ g p
            λ u h q. q

  after_unmap_all-IsPaired :
      (ran : Run) (f : Forwarder State) → IsPaired f → IsPaired (after_unmap_all host ran f).1
  after_unmap_all-IsPaired timed_out f paired = paired
  after_unmap_all-IsPaired not_found f paired = paired
  after_unmap_all-IsPaired os_failed f paired = paired
  after_unmap_all-IsPaired (exited code output) f paired = by_code (code == pos 0)
    where
      by_code : (b : Bool) → IsPaired ((if b then pure tt else raise host_forwarder_error) f).1
      by_code true = paired
      by_code false = paired

  delete_all-IsPaired :
      (serial : String) (f : Forwarder State) → IsPaired f → IsPaired (delete_all host serial f).1
  delete_all-IsPaired serial f paired =
      let (_, _, kept) =
        delete_entries-Swept host serial f.device_to_host_port_map f paired.0 (λ k p h. h) paired in
      kept

  pub unmap_all_locked-IsPaired :
      (serial : String) (f : Forwarder State)
      → IsPaired f
      → IsPaired (unmap_all_locked host serial f).1
  unfolding unmap_all_locked
  unmap_all_locked-IsPaired serial f paired =
      Leaves-bind IsPaired
        (outside host (run_command host (unmap_all_ports f.host_forwarder_path serial)))
        (λ ran. after_unmap_all host ran >> (delete_all host serial >> kill)) f paired
        λ ran g p.
          Leaves-bind IsPaired (after_unmap_all host ran) (λ u. delete_all host serial >> kill) g
            (after_unmap_all-IsPaired ran g p)
            λ u h q.
              Leaves-bind IsPaired (delete_all host serial) (λ v. kill) h
                (delete_all-IsPaired serial h q) λ v i r. kill_device_locked-IsPaired serial "" i r
    where
      kill : Exec (Forwarder State) Unit
      kill = kill_device_locked host serial ""
