-- ===== src/Forwarder/Instance.antt =====
-- The methods of the class Forwarder that work on its one instance.
use ftc_designosaurs.Base.{
  String, List, [], ◌∷◌, not, Option, some, is_empty, contains, keep, ◌==◌, if◌then◌else◌,
  comparable_string, comparable_pair,
}
use ftc_designosaurs.Base.Dict.{Dict, insert}
use ftc_designosaurs.Python.{
  Exec, Error, ok, pure, raise, try_except, ◌>>=◌, ◌>>◌, command_failed_error,
  device_unreachable_error, unbound_local_error, host_forwarder_error, value_error, os_error,
}
use ftc_designosaurs.Flags.Chars.{Text}
use ftc_designosaurs.Forwarder.Ports.{ℤ, pos, int, split_colon, comparable_int}
use ftc_designosaurs.Forwarder.Host.{
  Host, Command, map_port, Run, exited, timed_out, not_found, os_failed,
}

-- The instance, with the rest of the world that it acts on.
pub record Forwarder (S : Type 0) : Type 0 where
  pub world : S
  pub initialized_devices : List String
  pub device_to_host_port_map : Dict (String × ℤ) ℤ
  pub host_to_device_port_map : Dict ℤ (String × ℤ)
  pub host_forwarder_path : String

abbrev pub device_forwarder_folder : String
device_forwarder_folder = "/data/local/tmp/forwarder/"

abbrev pub device_forwarder_path : String
device_forwarder_path = "/data/local/tmp/forwarder/device_forwarder"

-- if wrapper: cmd.insert(0, wrapper)
abbrev pub with_wrapper : String → List String → List String
with_wrapper wrapper cmd = if is_empty wrapper then cmd else wrapper ∷ cmd

module _ (host : Host) where
  open host use {
    State, run, fetch_device_path, is_dir, file_exists, run_shell_command, reboot,
    push_changed_files, logcat,
  }

  -- A call that the maps and the set of the instance have no part in.
  abbrev pub outside : {A : Type 0} → Exec State A → Exec (Forwarder State) A
  outside call f = let (r, s) = call f.world in (r, record f { world = s })

  abbrev pub run_command : Command → Exec State Run
  run_command command s = let (ran, s') = run command s in (ok ran, s')

  abbrev pub discard_device : String → Exec (Forwarder State) Unit
  discard_device serial f = (
    ok tt,
    record f { initialized_devices = keep (λ d. not (d == serial)) f.initialized_devices },
  )

  abbrev pub add_device : String → Exec (Forwarder State) Unit
  add_device serial f = (
    ok tt,
    record f {
      initialized_devices =
          if contains f.initialized_devices serial
          then f.initialized_devices
          else serial ∷ f.initialized_devices;
    },
  )

  abbrev pub run_kill : String → String → Exec State Unit
  run_kill serial wrapper =
      run_shell_command serial (with_wrapper wrapper (device_forwarder_path ∷ "--kill-server" ∷ []))

  -- _KillDeviceLocked
  unfoldable pub kill_device_locked : String → String → Exec (Forwarder State) Unit
  kill_device_locked serial wrapper = do
    discard_device serial
    there ← outside (file_exists serial device_forwarder_path)
    outside (if there then run_kill serial wrapper else pure tt)

  -- except device_errors.CommandFailedError
  abbrev pub reboot_device : String → Error → Exec (Forwarder State) Unit
  reboot_device serial command_failed_error = outside (reboot serial)
  reboot_device serial e = raise e

  abbrev pub push_forwarder : String → String → Exec State Unit
  push_forwarder serial path s =
      push_changed_files serial path
        (if is_dir path s then device_forwarder_folder else device_forwarder_path) s

  unfoldable pub start_device : String → String → Exec (Forwarder State) Unit
  start_device serial wrapper = do
    try_except (kill_device_locked serial wrapper) (reboot_device serial)
    path ← outside (fetch_device_path serial)
    outside (push_forwarder serial path)
    outside (run_shell_command serial (with_wrapper wrapper (device_forwarder_path ∷ [])))
    add_device serial

  -- _InitDeviceLocked
  unfoldable pub init_device_locked : String → String → Exec (Forwarder State) Unit
  init_device_locked serial wrapper f =
      if contains f.initialized_devices serial then (ok tt, f) else start_device serial wrapper f

  -- The handlers of _LogMapFailureDiagnostics
  abbrev pub ignore_device_error : Error → Exec State Unit
  ignore_device_error command_failed_error = pure tt
  ignore_device_error device_unreachable_error = pure tt
  ignore_device_error e = raise e

  -- _LogMapFailureDiagnostics
  unfoldable pub log_map_failure_diagnostics : String → Exec State Unit
  log_map_failure_diagnostics serial = do
    try_except (logcat serial) ignore_device_error
    try_except (run_shell_command serial ("ps" ∷ [])) ignore_device_error

  -- The handler of a failed _KillDeviceLocked: it reads `e`, which has no value there.
  abbrev pub warn_kill_failure : Error → Exec (Forwarder State) Unit
  warn_kill_failure command_failed_error = raise unbound_local_error
  warn_kill_failure device_unreachable_error = raise unbound_local_error
  warn_kill_failure e = raise e

  unfoldable pub fail_map : String → String → Exec (Forwarder State) Unit
  fail_map serial wrapper = do
    try_except (kill_device_locked serial wrapper) warn_kill_failure
    outside (log_map_failure_diagnostics serial)
    raise host_forwarder_error

  -- The two assignments to the maps
  unfoldable pub store_ports : String → ℤ → ℤ → Exec (Forwarder State) Unit
  store_ports serial device_port host_port f = (
    ok tt,
    record f {
      device_to_host_port_map = insert (serial, device_port) host_port f.device_to_host_port_map;
      host_to_device_port_map = insert host_port (serial, device_port) f.host_to_device_port_map;
    },
  )

  abbrev pub store_ints : String → Option ℤ → Option ℤ → Exec (Forwarder State) Unit
  store_ints serial (some device_port) (some host_port) = store_ports serial device_port host_port
  store_ints serial _ _ = raise value_error

  abbrev pub store_tokens : String → List Text → Exec (Forwarder State) Unit
  store_tokens serial (d ∷ h ∷ []) = store_ints serial (int d) (int h)
  store_tokens serial _ = raise host_forwarder_error

  unfoldable pub after_map : String → String → Run → Exec (Forwarder State) Unit
  after_map serial wrapper (exited code output) =
      if code == pos 0 then store_tokens serial (split_colon output) else fail_map serial wrapper
  after_map serial wrapper timed_out = raise host_forwarder_error
  after_map serial wrapper not_found = raise host_forwarder_error
  after_map serial wrapper os_failed = raise os_error

  unfoldable pub map_pairs : String → String → List (ℤ × ℤ) → Exec (Forwarder State) Unit
  map_pairs serial wrapper [] f = (ok tt, f)
  map_pairs serial wrapper ((device_port, host_port) ∷ pairs) f =
      (do
        ran ← outside (run_command (map_port f.host_forwarder_path serial device_port host_port))
        after_map serial wrapper ran
        map_pairs serial wrapper pairs)
        f

  -- The body of Map
  unfoldable pub map_locked : String → String → List (ℤ × ℤ) → Exec (Forwarder State) Unit
  map_locked serial wrapper pairs = do
    init_device_locked serial wrapper
    map_pairs serial wrapper pairs
