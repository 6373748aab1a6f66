-- ===== src/TraceLog/Adding.antt =====
-- add_trace_event and trace_add_benchmark_metadata of log.py.
use ftc_designosaurs.Base.{
  ℕ, String, [], ◌∷◌, ◌++◌, Option, none, some, not, ◌==◌, comparable_nat, if◌then◌else◌,
}
use ftc_designosaurs.Base.Dict.{Dict}
use ftc_designosaurs.Python.{Exec, ok, err, trace_exception}
use ftc_designosaurs.TraceLog.Events.{
  Format, json, json_with_metadata, protobuf, unknown, Metadata, metadata_proto,
}
use ftc_designosaurs.TraceLog.Log.{Log, of_format, on_file, write_to}

-- atexit.register, once for each process; the events of a parent process are dropped then.
abbrev pub register_process : ℕ → Log → Log
register_process pid log = record log { atexit_registered_for_pid = some pid; cur_events = [] }

abbrev pub register_once : ℕ → Option ℕ → Log → Log
register_once pid none log = register_process pid log
register_once pid (some before) log = if before == pid then log else register_process pid log

-- threading.current_thread().ident, or os.getpid() where it is None or 0
abbrev pub thread_id : ℕ → Option ℕ → ℕ
thread_id pid none = pid
thread_id pid (some tid) = if tid == 0 then pid else tid

abbrev pub set_thread : ℕ → Option ℕ → Log → Log
set_thread pid tid log = record log { tls_pid = some pid; tls_tid = thread_id pid tid }

abbrev pub enter_process : ℕ → Option ℕ → Log → Log
enter_process pid tid log = set_thread pid tid (register_once pid log.atexit_registered_for_pid log)

-- if not hasattr(_tls, 'pid') or _tls.pid != os.getpid()
abbrev pub check_process : ℕ → Option ℕ → Option ℕ → Log → Log
check_process pid tid none log = enter_process pid tid log
check_process pid tid (some before) log = if before == pid then log else enter_process pid tid log

abbrev pub or_empty : Option (Dict String String) → Dict String String
or_empty none = []
or_empty (some args) = args

abbrev pub append_event : String → ℕ → String → String → Option (Dict String String) → ℕ → Log → Log
append_event ph ts category name args pid log = record log {
  cur_events =
      log.cur_events
      ++ (record {
        ph = ph;
        category = category;
        pid = pid;
        tid = log.tls_tid;
        ts = ts;
        name = name;
        args = or_empty args;
      })
        ∷ [];
}

-- add_trace_event, in the process and the thread with the last two numbers
unfoldable pub add_trace_event :
    String → ℕ → String → String → Option (Dict String String) → ℕ → Option ℕ → Log → Log
add_trace_event ph ts category name args pid tid log =
    if not log.enabled
    then log
    else append_event ph ts category name args pid (check_process pid tid log.tls_pid log)

-- trace_begin and trace_end, at the time that trace_time.Now() gives
unfoldable pub trace_begin : String → Option (Dict String String) → ℕ → ℕ → Option ℕ → Log → Log
trace_begin name args now = add_trace_event "B" now "python" name args

unfoldable pub trace_end : String → Option (Dict String String) → ℕ → ℕ → Option ℕ → Log → Log
trace_end name args now = add_trace_event "E" now "python" name args

-- trace_set_thread_name
unfoldable pub trace_set_thread_name : String → ℕ → ℕ → Option ℕ → Log → Log
trace_set_thread_name thread_name now =
    add_trace_event "M" now "__metadata" "thread_name" (some (("name", thread_name) ∷ []))

abbrev pub write_metadata : Metadata → String → Exec Log Unit
write_metadata m name log = (ok tt, write_to name (metadata_proto m ∷ []) log)

abbrev pub add_metadata : Metadata → Format → Exec Log Unit
add_metadata m protobuf log = on_file log.log_file (write_metadata m) log
add_metadata m json_with_metadata log = (ok tt, record log { benchmark_metadata = some m })
add_metadata m json log = (err trace_exception, log)
add_metadata m (unknown f) log = (err trace_exception, log)

-- trace_add_benchmark_metadata
unfoldable pub trace_add_benchmark_metadata : Metadata → Exec Log Unit
trace_add_benchmark_metadata m log = of_format log.format (add_metadata m) log
