-- ===== src/Forwarder/Host.antt =====
-- What forwarder.py asks of the host, of the device and of the host_forwarder program.
use ftc_designosaurs.Base.{String, Bool, List}
use ftc_designosaurs.Python.{Exec}
use ftc_designosaurs.Flags.Chars.{Text}
use ftc_designosaurs.Forwarder.Ports.{ℤ}

-- The commands that run on the host, the path of host_forwarder first.
pub data Command : Type 0 where
  kill_server : String → Command
  pkill : Command
  map_port : String → String → ℤ → ℤ → Command
  unmap_port : String → String → ℤ → Command
  unmap_all_ports : String → String → Command

-- How cmd_helper.GetCmdStatusAndOutputWithTimeout ends: with an exit code and the output, with its
-- TimeoutError, or with an OSError, whose errno is 2 where the program is missing.
pub data Run : Type 0 where
  exited : ℤ → Text → Run
  timed_out not_found os_failed : Run

pub record Host : Type 1 where
  pub State : Type 0
  pub run : Command → State → Run × State
  -- devil_env.config.FetchPath('forwarder_host') and FetchPath('forwarder_device', device=device)
  pub fetch_host_path : Exec State String
  pub fetch_device_path : String → Exec State String
  -- os.path.exists and os.path.isdir
  pub exists : String → State → Bool
  pub is_dir : String → State → Bool
  -- The first line of the lock file, and its replacement by a text
  pub read_lock_line : State → Text
  pub write_lock : Text → State → State
  -- str(os.getpgrp()) and str(_GetProcessStartTime(os.getpgrp()))
  pub pid_text : State → Text
  pub start_time_text : Exec State Text
  -- The methods of the device with a serial number
  pub file_exists : String → String → Exec State Bool
  pub run_shell_command : String → List String → Exec State Unit
  pub reboot : String → Exec State Unit
  pub push_changed_files : String → String → String → Exec State Unit
  pub logcat : String → Exec State Unit
