-- ===== src/Tracing/Protocol.antt =====
-- The order in which StartTracing and StopTracing of tracing_controller.py may be called, and what
-- they make of the list of child agents.
use ftc_designosaurs.Base.{
  List, [], ◌∷◌, ◌++◌, Bool, true, false, ◌≡◌, refl, Option, none, some, if◌then◌else◌,
}
use ftc_designosaurs.Python.{raise, ok, err, Leaves-bind, assertion_error}
use ftc_designosaurs.Tracing.Agents.{Agents, TraceResult}
use ftc_designosaurs.Tracing.Controller.{
  Self, start_tracing, start_controller_agent, start_agents, start_children, outside, stop_tracing,
  stop_agents, stop_children, issue_markers, collect, collect_results, set_child_agents,
  store_results, remaining, stop_known,
}

module _ (agents : Agents) where
  open agents use {State, Agent, Config, start_agent_tracing, stop_agent_tracing}

  abbrev InProgress : Bool → Self agents → Type 0
  InProgress b c = c.trace_in_progress ≡ b

  start_agents-InProgress :
      (b : Bool) (c : Self agents) → InProgress b c → InProgress b (start_agents agents c).1
  start_agents-InProgress b c h =
      Leaves-bind (InProgress b)
        (outside agents (start_children agents c.child_agents_with_config []))
        (set_child_agents agents) c h (λ a d e. e)

  start_controller-InProgress :
      (b : Bool) (c : Self agents)
      → InProgress b c
      → InProgress b (start_controller_agent agents c).1
  start_controller-InProgress b c h =
      Leaves-bind (InProgress b)
        (outside agents (start_agent_tracing c.controller_agent c.controller_config)) _ c h
        then_start
    where
      then_start :
          (started : Bool) (d : Self agents)
          → InProgress b d
          → InProgress b ((if started then start_agents agents else (λ d. (ok false, d))) d).1
      then_start true d e = start_agents-InProgress b d e
      then_start false d e = e

  start_tracing-InProgress : (c : Self agents) → InProgress true (start_tracing agents c).1
  unfolding start_tracing
  start_tracing-InProgress c = by_flag c.trace_in_progress refl
    where
      by_flag :
          (b : Bool)
          → c.trace_in_progress ≡ b
          → InProgress true
              (if b
                then raise {A = Bool} assertion_error c
                else start_controller_agent agents (record c { trace_in_progress = true })).1
      by_flag true e = e
      by_flag false n =
          start_controller-InProgress true (record c { trace_in_progress = true }) refl

  start_refused :
      (d : Self agents) → InProgress true d → start_tracing agents d ≡ (err assertion_error, d)
  unfolding start_tracing
  start_refused d e = rw e refl

  -- However a call of StartTracing ends, a call of it that follows raises AssertionError and changes
  -- nothing: also after it returned False because the controller agent did not start.
  pub start_tracing-start_tracing :
      (c : Self agents)
      → start_tracing agents (start_tracing agents c).1
        ≡ (err assertion_error, (start_tracing agents c).1)
  start_tracing-start_tracing c =
      start_refused (start_tracing agents c).1 (start_tracing-InProgress c)

  stop_agents-InProgress :
      (b : Bool) (child_agents : List Agent) (c : Self agents)
      → InProgress b c
      → InProgress b (stop_agents agents child_agents c).1
  unfolding stop_agents collect_results
  stop_agents-InProgress b child_agents c h =
      Leaves-bind (InProgress b) (outside agents (issue_markers agents child_agents)) _ c h λ u d e.
        Leaves-bind (InProgress b) (outside agents (stop_children agents child_agents [])) _ d e
          λ succ_agents f k.
            Leaves-bind (InProgress b) (outside agents (stop_agent_tracing c.controller_agent)) _ f
              k λ stopped g l. then_collect stopped (remaining agents child_agents succ_agents) g l
    where
      then_collect :
          (stopped : Bool) (left : List Agent) (d : Self agents)
          → InProgress b d
          → InProgress b
              ((if stopped then collect_results agents left else (λ d. (ok none, d))) d).1
      then_collect true left d e =
          Leaves-bind (InProgress b)
            (outside agents (collect agents (left ++ d.controller_agent ∷ []) []))
            (store_results agents) (record d { child_agents = some left }) e (λ results g k. k)
      then_collect false left d e = e

  stop_tracing-InProgress : (c : Self agents) → InProgress false (stop_tracing agents c).1
  unfolding stop_tracing
  stop_tracing-InProgress c = by_flag c.trace_in_progress c.child_agents refl
    where
      by_flag :
          (b : Bool) (known : Option (List Agent))
          → c.trace_in_progress ≡ b
          → InProgress false
              (if b
                then stop_known agents known (record c { trace_in_progress = false })
                else raise {A = Option (List TraceResult)} assertion_error c).1
      by_flag true none e = refl
      by_flag true (some child_agents) e =
          stop_agents-InProgress false child_agents (record c { trace_in_progress = false }) refl
      by_flag false known n = n

  stop_refused :
      (d : Self agents) → InProgress false d → stop_tracing agents d ≡ (err assertion_error, d)
  unfolding stop_tracing
  stop_refused d e = rw e refl

  -- However a call of StopTracing ends, a call of it that follows raises AssertionError and changes
  -- nothing.
  pub stop_tracing-stop_tracing :
      (c : Self agents)
      → stop_tracing agents (stop_tracing agents c).1
        ≡ (err assertion_error, (stop_tracing agents c).1)
  stop_tracing-stop_tracing c = stop_refused (stop_tracing agents c).1 (stop_tracing-InProgress c)
