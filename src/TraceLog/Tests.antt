-- ===== src/TraceLog/Tests.antt =====
-- Small inputs for the theorems about the trace log.
use ftc_designosaurs.Base.{
  String, List, [], ◌∷◌, ◌++◌, none, some, Bool, true, false, ◌≡◌, refl, comparable_string,
}
use ftc_designosaurs.Base.Dict.{lookup}
use ftc_designosaurs.Python.{err, trace_exception}
use ftc_designosaurs.TraceLog.Events.{
  json, json_with_metadata, Chunk, text, argv_object, empty_object, footer, json_events,
}
use ftc_designosaurs.TraceLog.Adding.{add_trace_event}
use ftc_designosaurs.TraceLog.Log.{
  flush, write_cur_events, Log, named, no_file, contents, trace_enable, trace_enable_locked,
  trace_flush, trace_disable, write_to,
}
use ftc_designosaurs.TraceLog.Session.{rendered}
use ftc_designosaurs.TraceLog.Written.{IsOpen}
use ftc_designosaurs.TraceLog.Closed.{Call, add_call, event_of, IsClosed}
use ftc_designosaurs.TraceLog.Whole.{
  Session, enabled_on, added, flushed, Session-IsClosed, trace_disable-trace_enable,
}

abbrev any_name : String → Bool
any_name name = true

abbrev off : Log
off = record {
  enabled = false;
  format = none;
  log_file = none;
  files = [];
  cur_events = [];
  benchmark_metadata = none;
  tls_pid = none;
  tls_tid = 0;
  atexit_registered_for_pid = none;
  control_allowed = true;
  process_is_shim = false;
}

abbrev begin_call : Call
begin_call = record {
  ph = "B";
  ts = 5;
  category = "python";
  name = "load";
  args = none;
  tid = none;
}

abbrev opened : Log
opened = (trace_enable "run" any_name (named "trace") (some json_with_metadata) off).1

abbrev one_event : Log
one_event = (trace_flush (add_call 7 begin_call opened)).1

abbrev opening : List Chunk
opening = text "{\"traceEvents\": [\n" ∷ argv_object ∷ text "\n" ∷ []

abbrev closing : List Chunk
closing = text "],\n\"metadata\": " ∷ empty_object ∷ text "}" ∷ []

one_event-Session :
    Session "run" any_name json_with_metadata "trace" 7
      ([] ++ event_of 7 begin_call opened ∷ [])
      one_event
unfolding lookup
one_event-Session =
    flushed ([] ++ event_of 7 begin_call opened ∷ []) (add_call 7 begin_call opened)
      (added [] opened begin_call (enabled_on off (refl, refl, refl, refl, refl)))

no_metadata : footer json_with_metadata one_event.benchmark_metadata ≡ some closing
unfolding trace_flush trace_enable trace_enable_locked write_to add_trace_event lookup flush
    write_cur_events
no_metadata = refl

Session-IsClosed_example :
    IsClosed "trace"
      ((opening ++ rendered json_with_metadata ([] ++ event_of 7 begin_call opened ∷ []))
        ++ closing)
      (trace_disable one_event)
Session-IsClosed_example =
    Session-IsClosed "run" any_name json_with_metadata "trace" 7 opening closing
      ([] ++ event_of 7 begin_call opened ∷ []) one_event tt refl one_event-Session no_metadata

-- A log that is open on a file with an opening bracket.
abbrev bracket : Log
bracket = record off {
  enabled = true;
  format = some json;
  log_file = some "trace";
  files = ("trace", text "[" ∷ []) ∷ [];
}

bracket-IsOpen : IsOpen json "trace" (text "[" ∷ []) [] bracket
unfolding lookup json_events
bracket-IsOpen = (refl, refl, refl, refl, ([], refl, refl))

trace_disable-trace_enable_example :
    ((trace_enable "run" any_name no_file (some json_with_metadata) bracket).0
      ≡ err trace_exception)
    × IsClosed "trace"
        (contents "trace" bracket ++ closing)
        (trace_disable (trace_enable "run" any_name no_file (some json_with_metadata) bracket).1)
trace_disable-trace_enable_example =
    trace_disable-trace_enable "run" any_name json json_with_metadata "trace" (text "[" ∷ []) []
      no_file bracket closing tt bracket-IsOpen refl refl
