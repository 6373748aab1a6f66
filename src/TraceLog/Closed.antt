-- ===== src/TraceLog/Closed.antt =====
-- A whole session of log.py, from trace_enable to trace_disable.
use ftc_designosaurs.Base.{
  ℕ, String, List, [], ◌∷◌, ◌++◌, Option, none, some, true, false, not, if◌then◌else◌, ◌≡◌, refl,
  ap, sym, subst, ◌∙◌, append_assoc, comparable_string,
}
use ftc_designosaurs.Base.Dict.{Dict, lookup}
use ftc_designosaurs.Python.{ok, err, Result, and_then, ◌>>◌, trace_exception}
use ftc_designosaurs.TraceLog.Events.{Format, Event, Chunk, footer}
use ftc_designosaurs.TraceLog.Log.{
  Log, or_nothing, contents, write_to, flush, flush_file, on_file, trace_disable, write_footer,
  of_format, write_end, close_if, restore_process, write_known,
}
use ftc_designosaurs.TraceLog.Adding.{add_trace_event, check_process, append_event}
use ftc_designosaurs.TraceLog.Session.{
  IsWritten, IsSettled, IsKnown, settle, settle-IsSettled, contents-settle, write_pending_lem,
  rendered, contents-write_to,
}
use ftc_designosaurs.TraceLog.Written.{IsOwn, IsOpen, new_event, check_process-Kept, Kept}

-- The arguments of a call of add_trace_event.
pub record Call : Type 0 where
  pub ph : String
  pub ts : ℕ
  pub category : String
  pub name : String
  pub args : Option (Dict String String)
  pub tid : Option ℕ

abbrev pub add_call : ℕ → Call → Log → Log
add_call pid c log = add_trace_event c.ph c.ts c.category c.name c.args pid c.tid log

-- The event that the call adds.
abbrev pub event_of : ℕ → Call → Log → Event
event_of pid c log =
    new_event c.ph c.ts c.category c.name c.args pid (check_process pid c.tid log.tls_pid log)

pub add_call-IsOpen :
    (f : Format) (name : String) (before : List Chunk) (events : List Event) (log : Log) (pid : ℕ)
    (c : Call)
    → IsOwn pid log
    → IsOpen f name before events log
    → IsOpen f name before (events ++ event_of pid c log ∷ []) (add_call pid c log)
      × ((add_call pid c log).tls_pid ≡ some pid)
unfolding add_trace_event
add_call-IsOpen f name before events log pid c own (on, allowed, format, file, written) =
    subst (λ l. IsOpen f name before (events ++ event_of pid c log ∷ []) l × (l.tls_pid ≡ some pid))
      (sym (
        ap
          (λ b.
            if not b
            then log
            else append_event c.ph c.ts c.category c.name c.args pid
                (check_process pid c.tid log.tls_pid log))
          on))
      (appended written (check_process-Kept pid c.tid log own log.tls_pid refl))
  where
    appended :
        IsWritten f name before events log
        → Kept log (check_process pid c.tid log.tls_pid log)
          × ((check_process pid c.tid log.tls_pid log).tls_pid ≡ some pid)
        → IsOpen f name before (events ++ event_of pid c log ∷ []) (
            append_event c.ph c.ts c.category c.name c.args pid
              (check_process pid c.tid log.tls_pid log))
          × ((check_process pid c.tid log.tls_pid log).tls_pid ≡ some pid)
    appended (done, there, all) ((same, e1, e2, e3, e4, files), here) = (
      (
        e1 ∙ on,
        e2 ∙ allowed,
        e3 ∙ format,
        e4 ∙ file,
        (
          done,
          ap (λ fs. or_nothing (lookup name fs)) files ∙ there,
          ap (λ x. x ++ event_of pid c log ∷ []) all
              ∙ append_assoc done log.cur_events (event_of pid c log ∷ [])
              ∙ ap (λ x. done ++ (x ++ event_of pid c log ∷ [])) (sym same),
        ),
      ),
      here,
    )

abbrev pub switched_off : Log → Log
switched_off log = record log { enabled = false }

-- The log that trace_disable leaves.
abbrev pub closed : Format → String → List Chunk → Log → Log
closed f name ft log = record (write_to name ft (settle f name log.cur_events (switched_off log))) {
  log_file = none;
  process_is_shim = false;
}

write_footer_lem :
    (f : Format) (name : String) (ft : List Chunk) (log : Log)
    → log.format ≡ some f
    → footer f log.benchmark_metadata ≡ some ft
    → (write_end true name >> close_if true) log
      ≡ (ok tt, record (write_to name ft log) { log_file = none })
unfolding write_footer
write_footer_lem f name ft log format end =
    ap (λ o. (of_format o (write_footer name) >> close_if true) log) format
    ∙ ap (λ o. (write_known o name >> close_if true) log) end

flush_close_lem :
    (f : Format) (name : String) (ft : List Chunk) (log : Log)
    → IsKnown f
    → log.format ≡ some f
    → log.log_file ≡ some name
    → footer f log.benchmark_metadata ≡ some ft
    → flush true log
      ≡ (ok tt, record (write_to name ft (settle f name log.cur_events log)) { log_file = none })
unfolding flush
flush_close_lem f name ft log known format file end =
    ap (λ o. on_file o (flush_file true) log) file
    ∙ ap
        (λ (out : Result Unit × Log).
          and_then out.0 (λ u. write_end true name >> close_if true) out.1)
        (write_pending_lem f name log known format)
    ∙ by_settled (settle-IsSettled f name log log.cur_events refl)
  where
    by_settled :
        IsSettled log (settle f name log.cur_events log)
        → (write_end true name >> close_if true) (settle f name log.cur_events log) ≡ (
          ok tt,
          record (write_to name ft (settle f name log.cur_events log)) { log_file = none },
        )
    by_settled (_, _, _, e3, _, e5) =
        write_footer_lem f name ft (settle f name log.cur_events log) (e3 ∙ format)
          (ap (λ m. footer f m) e5 ∙ end)

pub trace_disable_runs :
    (f : Format) (name : String) (ft : List Chunk) (log : Log)
    → IsKnown f
    → log.enabled ≡ true
    → log.control_allowed ≡ true
    → log.format ≡ some f
    → log.log_file ≡ some name
    → footer f log.benchmark_metadata ≡ some ft
    → trace_disable log ≡ (ok tt, closed f name ft log)
unfolding trace_disable
trace_disable_runs f name ft log known on allowed format file end =
    ap
      (λ b.
        if not b
        then (err trace_exception, log)
        else if not log.enabled
        then (ok tt, log)
        else (flush true >> restore_process) (switched_off log))
      allowed
    ∙ ap (λ b. if not b then (ok tt, log) else (flush true >> restore_process) (switched_off log))
        on
    ∙ ap (λ (out : Result Unit × Log). and_then out.0 (λ u. restore_process) out.1)
        (flush_close_lem f name ft (switched_off log) known format file end)

-- What trace_disable leaves of a log that is open.
abbrev pub IsClosed : String → List Chunk → Result Unit × Log → Type 0
IsClosed name chunks (r, log) =
    (r ≡ ok tt)
    × (contents name log ≡ chunks)
    × (log.enabled ≡ false)
    × (log.log_file ≡ none)
    × (log.cur_events ≡ [])

pub trace_disable-IsClosed :
    (f : Format) (name : String) (before : List Chunk) (events : List Event) (log : Log)
    (ft : List Chunk)
    → IsKnown f
    → IsOpen f name before events log
    → footer f log.benchmark_metadata ≡ some ft
    → IsClosed name ((before ++ rendered f events) ++ ft) (trace_disable log)
unfolding write_to
trace_disable-IsClosed f name before events log ft known (on, allowed, format, file, written) end =
    subst (IsClosed name ((before ++ rendered f events) ++ ft))
      (sym (trace_disable_runs f name ft log known on allowed format file end))
      (by_settled (settle-IsSettled f name (switched_off log) log.cur_events refl))
  where
    by_settled :
        IsSettled (switched_off log) (settle f name log.cur_events (switched_off log))
        → IsClosed name ((before ++ rendered f events) ++ ft) (ok tt, closed f name ft log)
    by_settled (none_left, e1, _, _, _, _) = (
      refl,
      contents-write_to name ft (settle f name log.cur_events (switched_off log))
          ∙ ap (λ c. c ++ ft)
              (contents-settle f name before events (switched_off log) written log.cur_events refl),
      e1,
      refl,
      none_left,
    )
