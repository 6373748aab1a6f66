-- ===== src/TraceLog/Whole.antt =====
-- Sequences of calls of log.py, and a format that changes under an open log.
use ftc_designosaurs.Base.{
  ℕ, String, List, [], ◌∷◌, ◌++◌, some, Bool, true, false, not, if◌then◌else◌, ◌≡◌, refl, ap, sym,
  subst, ◌∙◌, inl, inr, append-nil,
}
use ftc_designosaurs.Python.{ok, err, Result, ◌>>=◌, ◌>>◌, trace_exception, os_error}
use ftc_designosaurs.TraceLog.Events.{Format, Event, Chunk, header, footer}
use ftc_designosaurs.TraceLog.Log.{
  Log, LogFile, named, contents, write_to, trace_flush, trace_disable, trace_enable,
  trace_enable_locked, write_known, shim_process, header_if_new, start_log, set_log_file,
  begin_file,
}
use ftc_designosaurs.TraceLog.Session.{IsKnown, rendered, rendered-nil, contents-write_to}
use ftc_designosaurs.TraceLog.Written.{IsOwn, IsOpen, trace_flush-IsOpen}
use ftc_designosaurs.TraceLog.Closed.{
  Call, add_call, event_of, add_call-IsOpen, IsClosed, trace_disable-IsClosed,
}

module _ (argv0 : String) (can_open : String → Bool) where
  -- The log is off, and the file new.
  abbrev pub IsFresh : String → Log → Type 0
  IsFresh name log =
      (log.enabled ≡ false)
      × (log.control_allowed ≡ true)
      × (can_open name ≡ true)
      × (contents name log ≡ [])
      × (log.cur_events ≡ [])

  abbrev enabling : Format → String → Log → Log
  enabling f name log = record log { format = some f; enabled = true; log_file = some name }

  trace_enable_runs :
      (f : Format) (name : String) (h : List Chunk) (log : Log)
      → IsFresh name log
      → header f ≡ some h
      → trace_enable argv0 can_open (named name) (some f) log
        ≡ (ok tt, record (write_to name h (enabling f name log)) { process_is_shim = true })
  unfolding trace_enable trace_enable_locked
  trace_enable_runs f name h log (off, allowed, can, empty, _) hd =
      ap
        (λ b.
          if b
          then (err trace_exception, record log { format = some f })
          else if not log.control_allowed
          then (err trace_exception, record log { format = some f })
          else start_log argv0 can_open f (named name)
              (record log { format = some f; enabled = true }))
        off
      ∙ ap
          (λ b.
            if not b
            then (err trace_exception, record log { format = some f })
            else start_log argv0 can_open f (named name)
                (record log { format = some f; enabled = true }))
          allowed
      ∙ ap
          (λ b.
            ((λ l. if b then (ok name, l) else (err os_error, l)) >>= (λ n.
                set_log_file argv0 can_open n
                >> (begin_file argv0 can_open f n >> shim_process argv0 can_open)))
              (record log { format = some f; enabled = true }))
          can
      ∙ ap
          (λ cs.
            (header_if_new argv0 can_open cs f name >> shim_process argv0 can_open)
              (enabling f name log))
          empty
      ∙ ap (λ o. (write_known o name >> shim_process argv0 can_open) (enabling f name log)) hd

  trace_enable-IsOpen :
      (f : Format) (name : String) (h : List Chunk) (log : Log)
      → IsFresh name log
      → header f ≡ some h
      → IsOpen f name h [] (trace_enable argv0 can_open (named name) (some f) log).1
        × ((trace_enable argv0 can_open (named name) (some f) log).1.cur_events ≡ [])
  unfolding write_to
  trace_enable-IsOpen f name h log fresh hd =
      subst (λ (out : Result Unit × Log). IsOpen f name h [] out.1 × (out.1.cur_events ≡ []))
        (sym (trace_enable_runs f name h log fresh hd)) (begun fresh)
    where
      begun :
          IsFresh name log
          → IsOpen f name h []
              (record (write_to name h (enabling f name log)) { process_is_shim = true })
            × (log.cur_events ≡ [])
      begun (_, allowed, _, empty, none_left) = (
        (
          refl,
          allowed,
          refl,
          refl,
          (
            [],
            contents-write_to name h (enabling f name log)
                ∙ ap (λ c. c ++ h) empty
                ∙ sym (append-nil h)
                ∙ ap (λ c. h ++ c) (sym (rendered-nil f)),
            sym none_left,
          ),
        ),
        none_left,
      )

  -- Calls of one process on a new file, and the events that they add.
  pub data Session (f : Format) (name : String) (pid : ℕ) : List Event → Log → Type 0 where
    enabled_on :
        (log : Log)
        → IsFresh name log
        → Session f name pid [] (trace_enable argv0 can_open (named name) (some f) log).1
    added :
        (events : List Event) (log : Log) (c : Call)
        → Session f name pid events log
        → Session f name pid (events ++ event_of pid c log ∷ []) (add_call pid c log)
    flushed :
        (events : List Event) (log : Log)
        → Session f name pid events log
        → Session f name pid events (trace_flush log).1

  Session-IsOpen :
      (f : Format) (name : String) (pid : ℕ) (h : List Chunk)
      → IsKnown f
      → header f ≡ some h
      → (events : List Event) (log : Log) → Session f name pid events log
      → IsOpen f name h events log × IsOwn pid log
  Session-IsOpen f name pid h known hd _ _ (enabled_on log fresh) =
      let (o, none_left) = trace_enable-IsOpen f name h log fresh hd in (o, inr none_left)
  Session-IsOpen f name pid h known hd _ _ (added events log c s) =
      let (o, own) = Session-IsOpen f name pid h known hd events log s in
      let (o', here) = add_call-IsOpen f name h events log pid c own o in (o', inl here)
  Session-IsOpen f name pid h known hd _ _ (flushed events log s) =
      let (o, own) = Session-IsOpen f name pid h known hd events log s in
      let (o', none_left) = trace_flush-IsOpen f name h events log known o in (o', inr none_left)

  -- After any calls of add_trace_event and trace_flush of one process, trace_disable returns, and the
  -- file consists of the header, every event once and in the order of the calls, and the footer.
  -- Nothing is pending. This is for a new file and the three formats.
  pub Session-IsClosed :
      (f : Format) (name : String) (pid : ℕ) (h ft : List Chunk) (events : List Event) (log : Log)
      → IsKnown f
      → header f ≡ some h
      → Session f name pid events log
      → footer f log.benchmark_metadata ≡ some ft
      → IsClosed name ((h ++ rendered f events) ++ ft) (trace_disable log)
  Session-IsClosed f name pid h ft events log known hd s end =
      let (o, own) = Session-IsOpen f name pid h known hd events log s in
      trace_disable-IsClosed f name h events log ft known o end

  refused :
      (f g : Format) (file : LogFile) (log : Log)
      → log.enabled ≡ true
      → trace_enable argv0 can_open file (some g) log
        ≡ (err trace_exception, record log { format = some g })
  unfolding trace_enable trace_enable_locked
  refused f g file log on =
      ap
        (λ b.
          if b
          then (err trace_exception, record log { format = some g })
          else if not log.control_allowed
          then (err trace_exception, record log { format = some g })
          else start_log argv0 can_open g file (record log { format = some g; enabled = true }))
        on

  -- A call of trace_enable while a log is open raises, and yet its format counts: a trace_disable that
  -- follows returns, and ends the open file with the footer of the refused format.
  pub trace_disable-trace_enable :
      (f g : Format) (name : String) (before : List Chunk) (events : List Event) (file : LogFile)
      (log : Log) (ft : List Chunk)
      → IsKnown g
      → IsOpen f name before events log
      → log.cur_events ≡ []
      → footer g log.benchmark_metadata ≡ some ft
      → ((trace_enable argv0 can_open file (some g) log).0 ≡ err trace_exception)
        × IsClosed name
            (contents name log ++ ft)
            (trace_disable (trace_enable argv0 can_open file (some g) log).1)
  trace_disable-trace_enable f g name before events file log ft known o none_left end =
      subst
        (λ (out : Result Unit × Log).
          (out.0 ≡ err trace_exception)
          × IsClosed name (contents name log ++ ft) (trace_disable out.1))
        (sym (refused f g file log o.0))
        (
          refl,
          subst (λ c. IsClosed name (c ++ ft) (trace_disable (record log { format = some g })))
              (sym whole)
              (trace_disable-IsClosed g name (contents name log) [] (record log { format = some g })
                ft known
                (let (on, allowed, _, file_open, _) = o in
                  (on, allowed, refl, file_open, ([], whole, sym none_left)))
                end),
        )
    where
      whole : contents name log ≡ contents name log ++ rendered g []
      whole =
          sym (append-nil (contents name log))
          ∙ ap (λ c. contents name log ++ c) (sym (rendered-nil g))
