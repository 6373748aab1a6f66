-- ===== src/TraceLog/Written.antt =====
-- The file that log.py leaves: every event once, in order, between a header and a footer.
use ftc_designosaurs.Base.{
  ℕ, String, List, [], ◌++◌, Option, none, some, Bool, true, false, ◌==◌, comparable_nat,
  comparable_string, if◌then◌else◌, ◌≡◌, refl, ap, sym, subst, ◌∙◌, ◌⊎◌, inl, inr, append-nil,
  arith,
}
use ftc_designosaurs.Base.Dict.{Dict}
use ftc_designosaurs.Python.{ok, and_then, ◌>>◌}
use ftc_designosaurs.TraceLog.Events.{Format, Event, Chunk}
use ftc_designosaurs.TraceLog.Log.{
  Log, flush, flush_file, on_file, trace_flush, write_end, close_if,
}
use ftc_designosaurs.TraceLog.Adding.{
  check_process, or_empty, register_once, register_process, enter_process,
}
use ftc_designosaurs.TraceLog.Session.{
  IsWritten, IsSettled, IsKnown, settle, settle-IsSettled, contents-settle, write_pending_lem,
}

-- No event of another process is pending.
abbrev pub IsOwn : ℕ → Log → Type 0
IsOwn pid log = (log.tls_pid ≡ some pid) ⊎ (log.cur_events ≡ [])

abbrev pub new_event : String → ℕ → String → String → Option (Dict String String) → ℕ → Log → Event
new_event ph ts category name args pid log = record {
  ph = ph;
  category = category;
  pid = pid;
  tid = log.tls_tid;
  ts = ts;
  name = name;
  args = or_empty args;
}

flush_lem :
    (f : Format) (name : String) (log : Log)
    → IsKnown f
    → log.format ≡ some f
    → log.log_file ≡ some name
    → flush false log ≡ (ok tt, settle f name log.cur_events log)
unfolding flush
flush_lem f name log known format file =
    ap (λ o. on_file o (flush_file false) log) file
    ∙ ap (λ out. and_then out.0 (λ u. write_end false name >> close_if false) out.1)
        (write_pending_lem f name log known format)

-- The log is open on the file.
abbrev pub IsOpen : Format → String → List Chunk → List Event → Log → Type 0
IsOpen f name before events log =
    (log.enabled ≡ true)
    × (log.control_allowed ≡ true)
    × (log.format ≡ some f)
    × (log.log_file ≡ some name)
    × IsWritten f name before events log

pub trace_flush-IsOpen :
    (f : Format) (name : String) (before : List Chunk) (events : List Event) (log : Log)
    → IsKnown f
    → IsOpen f name before events log
    → IsOpen f name before events (trace_flush log).1 × ((trace_flush log).1.cur_events ≡ [])
unfolding trace_flush
trace_flush-IsOpen f name before events log known (on, allowed, format, file, written) =
    subst (λ out. IsOpen f name before events out.1 × (out.1.cur_events ≡ []))
      (sym (
        ap (λ b. if b then flush false log else (ok tt, log)) on
        ∙ flush_lem f name log known format file))
      (after (settle-IsSettled f name log log.cur_events refl))
  where
    settled : Log
    settled = settle f name log.cur_events log

    after :
        IsSettled log (settle f name log.cur_events log)
        → IsOpen f name before events (settle f name log.cur_events log)
          × ((settle f name log.cur_events log).cur_events ≡ [])
    after (none_left, e1, e2, e3, e4, e5) = (
      (
        e1 ∙ on,
        e2 ∙ allowed,
        e3 ∙ format,
        e4 ∙ file,
        (
          events,
          contents-settle f name before events log written log.cur_events refl,
          sym (append-nil events) ∙ ap (λ c. events ++ c) (sym none_left),
        ),
      ),
      none_left,
    )

-- What may happen to the process variables before an event is added.
abbrev pub Kept : Log → Log → Type 0
Kept log after =
    (after.cur_events ≡ log.cur_events)
    × (after.enabled ≡ log.enabled)
    × (after.control_allowed ≡ log.control_allowed)
    × (after.format ≡ log.format)
    × (after.log_file ≡ log.log_file)
    × (after.files ≡ log.files)

register_once-Kept :
    (pid : ℕ) (o : Option ℕ) (log : Log) → log.cur_events ≡ [] → Kept log (register_once pid o log)
register_once-Kept pid none log e = (sym e, refl, refl, refl, refl, refl)
register_once-Kept pid (some before) log e = by_test (before == pid)
  where
    by_test : (b : Bool) → Kept log (if b then log else register_process pid log)
    by_test true = (refl, refl, refl, refl, refl, refl)
    by_test false = (sym e, refl, refl, refl, refl, refl)

pub check_process-Kept :
    (pid : ℕ) (tid : Option ℕ) (log : Log)
    → IsOwn pid log
    → (o : Option ℕ) → log.tls_pid ≡ o
    → Kept log (check_process pid tid o log) × ((check_process pid tid o log).tls_pid ≡ some pid)
check_process-Kept pid tid log (inl own) none e = absurd (cc)
check_process-Kept pid tid log (inr own) none e =
    (register_once-Kept pid log.atexit_registered_for_pid log own, refl)
check_process-Kept pid tid log own (some before) e = by_test (before == pid) refl own
  where
    by_test :
        (b : Bool)
        → (before == pid) ≡ b
        → IsOwn pid log
        → Kept log (if b then log else enter_process pid tid log)
          × ((if b then log else enter_process pid tid log).tls_pid ≡ some pid)
    by_test true same _ = (
      (refl, refl, refl, refl, refl, refl),
      e ∙ ap (λ p. some p) ((comparable_nat.equal_iff before pid).0 same),
    )
    by_test false other (inl own) = absurd (grind (arith, comparable_nat.equal_iff before pid))
    by_test false other (inr own) =
        (register_once-Kept pid log.atexit_registered_for_pid log own, refl)
