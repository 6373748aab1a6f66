-- ===== src/TraceLog/Log.antt =====
-- The functions of log.py, on the variables of the module.
use ftc_designosaurs.Base.{
  ℕ, String, List, [], ◌∷◌, ◌++◌, Option, none, some, Bool, true, false, not, comparable_string,
  comparable_nat, if◌then◌else◌, is_empty,
}
use Prim.Native.String.{◌++◌ as concat}
use ftc_designosaurs.Base.Dict.{Dict, lookup, insert}
use ftc_designosaurs.Python.{
  Exec, ok, err, pure, raise, ◌>>=◌, ◌>>◌, trace_exception, name_error, attribute_error, os_error,
}
use ftc_designosaurs.TraceLog.Events.{
  Format, json, protobuf, Event, Metadata, Chunk, header, written_events, footer,
}

-- The variables of the module for one thread, and what has been written to the files.
pub record Log : Type 0 where
  pub enabled : Bool
  pub format : Option Format
  pub log_file : Option String
  pub files : Dict String (List Chunk)
  pub cur_events : List Event
  pub benchmark_metadata : Option Metadata
  pub tls_pid : Option ℕ
  pub tls_tid : ℕ
  pub atexit_registered_for_pid : Option ℕ
  pub control_allowed : Bool
  pub process_is_shim : Bool

-- The argument log_file: None, a name, an open file, or an object without a fileno().
pub data LogFile : Type 0 where
  no_file not_a_file : LogFile
  named file_object : String → LogFile

abbrev pub or_nothing : Option (List Chunk) → List Chunk
or_nothing none = []
or_nothing (some chunks) = chunks

abbrev pub contents : String → Log → List Chunk
contents name log = or_nothing (lookup name log.files)

-- _log_file.write
unfoldable pub write_to : String → List Chunk → Log → Log
write_to name chunks log = record log {
  files = insert name (contents name log ++ chunks) log.files;
}

-- A block under `with lock.FileLock(_log_file, ...)`, which needs a file.
abbrev pub on_file : Option String → (String → Exec Log Unit) → Exec Log Unit
on_file none block = raise attribute_error
on_file (some name) block = block name

-- A write of what the format stands for, or a TraceException
abbrev pub write_known : Option (List Chunk) → String → Exec Log Unit
write_known none name log = (err trace_exception, log)
write_known (some chunks) name log = (ok tt, write_to name chunks log)

abbrev pub no_events : Exec Log Unit
no_events log = (ok tt, record log { cur_events = [] })

-- A function of _format, a name that nothing defines before the first trace_enable.
abbrev pub of_format : Option Format → (Format → Exec Log Unit) → Exec Log Unit
of_format none call = raise name_error
of_format (some f) call = call f

-- _disallow_tracing_control
abbrev pub disallow_tracing_control : Log → Log
disallow_tracing_control log = record log { control_allowed = false }

-- _write_header
abbrev pub write_header : Format → String → Exec Log Unit
write_header f name = write_known (header f) name

-- _write_cur_events
unfoldable pub write_cur_events : String → Format → Exec Log Unit
write_cur_events name f log = (do write_known (written_events f log.cur_events) name; no_events) log

-- _write_footer
unfoldable pub write_footer : String → Format → Exec Log Unit
write_footer name f log = write_known (footer f log.benchmark_metadata) name log

-- if len(_cur_events)
abbrev pub write_events : List Event → String → Exec Log Unit
write_events [] name log = (ok tt, log)
write_events (e ∷ es) name log = of_format log.format (write_cur_events name) log

abbrev pub write_pending : String → Exec Log Unit
write_pending name log = write_events log.cur_events name log

abbrev pub write_end : Bool → String → Exec Log Unit
write_end false name log = (ok tt, log)
write_end true name log = of_format log.format (write_footer name) log

abbrev pub close_if : Bool → Exec Log Unit
close_if false log = (ok tt, log)
close_if true log = (ok tt, record log { log_file = none })

abbrev pub flush_file : Bool → String → Exec Log Unit
flush_file close name = do write_pending name; write_end close name; close_if close

-- _flush
unfoldable pub flush : Bool → Exec Log Unit
flush close log = on_file log.log_file (flush_file close) log

-- trace_flush
unfoldable pub trace_flush : Exec Log Unit
trace_flush log = if log.enabled then flush false log else (ok tt, log)

abbrev pub restore_process : Exec Log Unit
restore_process log = (ok tt, record log { process_is_shim = false })

-- trace_disable
unfoldable pub trace_disable : Exec Log Unit
trace_disable log =
    if not log.control_allowed
    then (err trace_exception, log)
    else if not log.enabled
    then (ok tt, log)
    else (do flush true; restore_process) (record log { enabled = false })

-- sys.argv[0], and the names for which open(name, "ab", False) does not raise
module _ (argv0 : String) (can_open : String → Bool) where
  abbrev pub program_name : String
  program_name = if is_empty argv0 then "trace_event" else argv0

  abbrev pub default_name : Format → String
  default_name protobuf = concat program_name ".pb"
  default_name f = concat program_name ".json"

  abbrev pub open_named : String → Exec Log String
  open_named name log = if can_open name then (ok name, log) else (err os_error, log)

  abbrev pub open_log_file : Format → LogFile → Exec Log String
  open_log_file f no_file = open_named (default_name f)
  open_log_file f (named name) = open_named name
  open_log_file f (file_object name) = pure name
  open_log_file f not_a_file = raise trace_exception

  abbrev pub set_log_file : String → Exec Log Unit
  set_log_file name log = (ok tt, record log { log_file = some name })

  -- A file at whose end the position is 0 gets a header.
  abbrev pub header_if_new : List Chunk → Format → String → Exec Log Unit
  header_if_new [] f name = write_header f name
  header_if_new (c ∷ cs) f name = pure tt

  abbrev pub begin_file : Format → String → Exec Log Unit
  begin_file f name log = header_if_new (contents name log) f name log

  abbrev pub shim_process : Exec Log Unit
  shim_process log = (ok tt, record log { process_is_shim = true })

  abbrev pub start_log : Format → LogFile → Exec Log Unit
  start_log f log_file = do
    name ← open_log_file f log_file
    set_log_file name
    begin_file f name
    shim_process

  -- _trace_enable
  unfoldable pub trace_enable_locked : LogFile → Format → Exec Log Unit
  trace_enable_locked log_file f log =
      if log.enabled
      then (err trace_exception, record log { format = some f })
      else if not log.control_allowed
      then (err trace_exception, record log { format = some f })
      else start_log f log_file (record log { format = some f; enabled = true })

  abbrev pub or_json : Option Format → Format
  or_json none = json
  or_json (some f) = f

  -- trace_enable
  unfoldable pub trace_enable : LogFile → Option Format → Exec Log Unit
  trace_enable log_file f = trace_enable_locked log_file (or_json f)
