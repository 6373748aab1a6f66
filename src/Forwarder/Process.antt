-- ===== src/Forwarder/Process.antt =====
-- The static methods of forwarder.py, with the one instance that they create when they need it.
use ftc_designosaurs.Base.{
  String, List, [], ◌∷◌, ◌++◌, Bool, false, Option, ◌==◌, if◌then◌else◌, comparable_nat,
  comparable_list,
}
use mathlib.Core.Option
use ftc_designosaurs.Base.Dict.{lookup}
use ftc_designosaurs.Python.{
  Exec, Result, ok, err, pure, raise, ◌>>=◌, ◌>>◌, host_forwarder_error, assertion_error,
  value_error, os_error,
}
use ftc_designosaurs.Flags.Chars.{Text, is_nil}
use ftc_designosaurs.Forwarder.Ports.{ℤ, pos, comparable_int, split_colon}
use ftc_designosaurs.Forwarder.Host.{
  Host, kill_server, pkill, Run, exited, timed_out, not_found, os_failed,
}
use ftc_designosaurs.Forwarder.Instance.{Forwarder, run_command, kill_device_locked, map_locked}
use ftc_designosaurs.Forwarder.Unmap.{unmap_device_port_locked, unmap_all_locked}

-- Forwarder._instance, with the world as it is while there is none.
pub data Process (S : Type 0) : Type 0 where
  not_created : S → Process S
  created : Forwarder S → Process S

module _ (host : Host) where
  open host use {
    State, fetch_host_path, exists, read_lock_line, write_lock, pid_text, start_time_text,
  }

  -- The second command of _KillHostLocked
  abbrev pub after_pkill : Run → Exec State Unit
  after_pkill (exited code output) = if code == pos 0 then pure tt else raise host_forwarder_error
  after_pkill timed_out = raise host_forwarder_error
  after_pkill not_found = raise os_error
  after_pkill os_failed = raise os_error

  abbrev pub run_pkill : Exec State Unit
  run_pkill = run_command host pkill >>= after_pkill

  abbrev pub after_kill_server : Run → Exec State Unit
  after_kill_server (exited code output) = if code == pos 0 then pure tt else run_pkill
  after_kill_server timed_out = raise host_forwarder_error
  after_kill_server not_found = raise os_error
  after_kill_server os_failed = raise os_error

  -- _KillHostLocked
  unfoldable pub kill_host_locked : String → Exec State Unit
  kill_host_locked path = run_command host (kill_server path) >>= after_kill_server

  abbrev pub same_start : Text → Exec State Bool
  same_start start = do now ← start_time_text; pure (start == now)

  -- Whether the two parts of the line name the running process.
  abbrev pub is_own_line : List Text → Exec State Bool
  is_own_line (pid ∷ start ∷ []) s = if pid == pid_text s then same_start start s else (ok false, s)
  is_own_line _ s = (err value_error, s)

  abbrev pub is_own_lock : Exec State Bool
  is_own_lock s =
      if is_nil (read_lock_line s)
      then (ok false, s)
      else is_own_line (split_colon (read_lock_line s)) s

  abbrev pub write_own_lock : Text → Exec State Unit
  write_own_lock now s = (ok tt, write_lock (pid_text s ++ (58 ∷ now)) s)

  abbrev pub take_lock : String → Exec State Unit
  take_lock path = do kill_host_locked path; now ← start_time_text; write_own_lock now

  -- _InitHostLocked
  unfoldable pub init_host_locked : String → Exec State Unit
  init_host_locked path = do own ← is_own_lock; if own then pure tt else take_lock path

  abbrev pub assert_exists : String → Exec State Unit
  assert_exists path s = if exists path s then (ok tt, s) else (err assertion_error, s)

  -- __init__, which gives the path of host_forwarder
  unfoldable pub init_forwarder : Exec State String
  init_forwarder = do path ← fetch_host_path; assert_exists path; init_host_locked path; pure path

  abbrev pub new_forwarder : String → State → Forwarder State
  new_forwarder path s = record {
    world = s;
    initialized_devices = [];
    device_to_host_port_map = [];
    host_to_device_port_map = [];
    host_forwarder_path = path;
  }

  module _ {A : Type 0} where
    abbrev pub keep_instance : Result A × Forwarder State → Result A × Process State
    keep_instance (r, f) = (r, created f)

    abbrev pub on_new : Exec (Forwarder State) A → Result String × State → Result A × Process State
    on_new call (ok path, s) = keep_instance (call (new_forwarder path s))
    on_new call (err e, s) = (err e, not_created s)

    -- A call on what _GetInstanceLocked returns
    unfoldable pub with_instance : Exec (Forwarder State) A → Exec (Process State) A
    with_instance call (created f) = keep_instance (call f)
    with_instance call (not_created s) = on_new call (init_forwarder s)

  -- Map
  unfoldable pub map_ports : List (ℤ × ℤ) → String → String → Exec (Process State) Unit
  map_ports port_pairs serial wrapper = with_instance (map_locked host serial wrapper port_pairs)

  -- UnmapDevicePort
  unfoldable pub unmap_device_port : ℤ → String → Exec (Process State) Unit
  unmap_device_port port serial = with_instance (unmap_device_port_locked host serial port)

  -- UnmapAllDevicePorts
  unfoldable pub unmap_all_device_ports : String → Exec (Process State) Unit
  unmap_all_device_ports serial = with_instance (unmap_all_locked host serial)

  abbrev pub port_of_host : ℤ → Exec (Forwarder State) (Option ℤ)
  port_of_host host_port f =
      (ok (Option.map (λ key. key.1) (lookup host_port f.host_to_device_port_map)), f)

  -- DevicePortForHostPort
  unfoldable pub device_port_for_host_port : ℤ → Exec (Process State) (Option ℤ)
  device_port_for_host_port host_port = with_instance (port_of_host host_port)

  abbrev pub kill_host_of : Exec (Forwarder State) Unit
  kill_host_of f =
      let (r, s) = kill_host_locked f.host_forwarder_path f.world in (r, record f { world = s })

  -- KillHost
  unfoldable pub kill_host : Exec (Process State) Unit
  kill_host = with_instance kill_host_of

  -- KillDevice
  unfoldable pub kill_device : String → String → Exec (Process State) Unit
  kill_device serial wrapper = with_instance (kill_device_locked host serial wrapper)
