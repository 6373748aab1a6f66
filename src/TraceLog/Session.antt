-- ===== src/TraceLog/Session.antt =====
-- What the functions of log.py write to a file between trace_enable and trace_disable.
use ftc_designosaurs.Base.{
  String, List, [], ◌∷◌, ◌++◌, some, comparable_nat, comparable_string, ◌≡◌, refl, ap, sym, ◌∙◌,
  append-nil, append_assoc,
}
use ftc_designosaurs.Base.Dict.{lookup-insert_self}
use ftc_designosaurs.Python.{ok, ◌>>◌}
use ftc_designosaurs.TraceLog.Events.{
  Format, json, json_with_metadata, protobuf, unknown, Event, Chunk, written_events, proto_events,
  json_events,
}
use ftc_designosaurs.TraceLog.Log.{
  or_nothing, write_known, no_events, write_events, Log, contents, write_to, write_cur_events,
  write_pending, of_format,
}

-- The pieces that stand for events.
abbrev pub rendered : Format → List Event → List Chunk
rendered protobuf es = proto_events es
rendered json es = json_events es
rendered json_with_metadata es = json_events es
rendered (unknown f) es = []

abbrev pub IsKnown : Format → Type 0
IsKnown (unknown f) = ⊥
IsKnown _ = Unit

written_rendered :
    (f : Format) (es : List Event) → IsKnown f → written_events f es ≡ some (rendered f es)
written_rendered json es k = refl
written_rendered json_with_metadata es k = refl
written_rendered protobuf es k = refl
written_rendered (unknown f) es k = absurd k

json_events-append :
    (xs ys : List Event) → json_events (xs ++ ys) ≡ json_events xs ++ json_events ys
unfolding json_events
json_events-append [] ys = refl
json_events-append (x ∷ xs) ys = rw (json_events-append xs ys) refl

proto_events-append :
    (xs ys : List Event) → proto_events (xs ++ ys) ≡ proto_events xs ++ proto_events ys
unfolding proto_events
proto_events-append [] ys = refl
proto_events-append (x ∷ xs) ys = rw (proto_events-append xs ys) refl

rendered-append :
    (f : Format) (xs ys : List Event) → rendered f (xs ++ ys) ≡ rendered f xs ++ rendered f ys
rendered-append json xs ys = json_events-append xs ys
rendered-append json_with_metadata xs ys = json_events-append xs ys
rendered-append protobuf xs ys = proto_events-append xs ys
rendered-append (unknown f) xs ys = refl

pub rendered-nil : (f : Format) → rendered f [] ≡ []
unfolding proto_events json_events
rendered-nil json = refl
rendered-nil json_with_metadata = refl
rendered-nil protobuf = refl
rendered-nil (unknown f) = refl

pub contents-write_to :
    (name : String) (cs : List Chunk) (log : Log)
    → contents name (write_to name cs log) ≡ contents name log ++ cs
unfolding write_to
contents-write_to name cs log =
    ap or_nothing (lookup-insert_self name (contents name log ++ cs) log.files)

-- What is in the file and what is pending are the events.
abbrev pub IsWritten : Format → String → List Chunk → List Event → Log → Type 0
IsWritten f name before events log =
    (done : List Event) × (contents name log ≡ before ++ rendered f done)
    × (events ≡ done ++ log.cur_events)

-- The log after the pending events are written.
abbrev pub settle : Format → String → List Event → Log → Log
settle f name [] log = log
settle f name (e ∷ es) log = record (write_to name (rendered f log.cur_events) log) {
  cur_events = [];
}

write_cur_events_lem :
    (f : Format) (name : String) (log : Log)
    → IsKnown f
    → write_cur_events name f log
      ≡ (ok tt, record (write_to name (rendered f log.cur_events) log) { cur_events = [] })
unfolding write_cur_events write_to
write_cur_events_lem f name log known =
    ap (λ o. (write_known o name >> no_events) log) (written_rendered f log.cur_events known)

pub write_pending_lem :
    (f : Format) (name : String) (log : Log)
    → IsKnown f
    → log.format ≡ some f
    → write_pending name log ≡ (ok tt, settle f name log.cur_events log)
write_pending_lem f name log known format = by_events log.cur_events
  where
    by_events : (es : List Event) → write_events es name log ≡ (ok tt, settle f name es log)
    by_events [] = refl
    by_events (e ∷ es) =
        ap (λ o. of_format o (write_cur_events name) log) format
        ∙ write_cur_events_lem f name log known

pub contents-settle :
    (f : Format) (name : String) (before : List Chunk) (events : List Event) (log : Log)
    → IsWritten f name before events log
    → (es : List Event) → log.cur_events ≡ es
    → contents name (settle f name es log) ≡ before ++ rendered f events
unfolding write_to
contents-settle f name before events log (done, there, all) [] e =
    there ∙ ap (λ c. before ++ rendered f c) (sym (all ∙ ap (λ c. done ++ c) e ∙ append-nil done))
contents-settle f name before events log (done, there, all) (x ∷ es) e =
    contents-write_to name (rendered f log.cur_events) log
    ∙ ap (λ c. c ++ rendered f log.cur_events) there
    ∙ append_assoc before (rendered f done) (rendered f log.cur_events)
    ∙ ap (λ c. before ++ c) (sym (rendered-append f done log.cur_events))
    ∙ ap (λ c. before ++ rendered f c) (sym all)

-- Nothing is pending, and nothing but the file has changed.
abbrev pub IsSettled : Log → Log → Type 0
IsSettled log after =
    (after.cur_events ≡ [])
    × (after.enabled ≡ log.enabled)
    × (after.control_allowed ≡ log.control_allowed)
    × (after.format ≡ log.format)
    × (after.log_file ≡ log.log_file)
    × (after.benchmark_metadata ≡ log.benchmark_metadata)

pub settle-IsSettled :
    (f : Format) (name : String) (log : Log) (es : List Event)
    → log.cur_events ≡ es
    → IsSettled log (settle f name es log)
unfolding write_to
settle-IsSettled f name log [] e = (e, refl, refl, refl, refl, refl)
settle-IsSettled f name log (x ∷ es) e = (refl, refl, refl, refl, refl, refl)
