-- ===== src/Tracing/Children.antt =====
-- The child agents and the results that StartTracing and StopTracing of tracing_controller.py leave.
use ftc_designosaurs.Base.{
  List, [], ◌∷◌, ◌++◌, map, Bool, true, false, ◌≡◌, refl, subst, ap, sym, Option, none, some,
  length, arith, if◌then◌else◌, ltb,
}
use ftc_designosaurs.Python.{ok, Ensures, assertion_error, raise, ◌>>=◌}
use ftc_designosaurs.Tracing.Agents.{Agents, TraceResult}
use ftc_designosaurs.Tracing.Controller.{
  Self, start_tracing, start_controller_agent, start_agents, start_children, outside, stop_tracing,
  stop_known, stop_agents, stop_children, issue_markers, collect, collect_results, set_child_agents,
  store_results, remaining,
}
use ftc_designosaurs.Tracing.Answers.{Answers, chosen, present, chosen_all}
use ftc_designosaurs.Tracing.Loops.{
  start_call, start_children-Answers, stop_children-Answers, collect-Answers, outside_lem,
}

module _ (agents : Agents) where
  open agents use {State, Agent, Config, start_agent_tracing, stop_agent_tracing, get_results}

  -- What a call of StartTracing that returns leaves.
  abbrev pub Started : Self agents → Bool → Self agents → Type 0
  Started c false d =
      (start_agent_tracing c.controller_agent c.controller_config c.world ≡ (ok false, d.world))
      × (d.child_agents ≡ c.child_agents)
  Started c true d =
      (s : State) × (answers : List Bool) × (start_agent_tracing c.controller_agent
          c.controller_config c.world
        ≡ (ok true, s))
      × Answers (start_call agents) c.child_agents_with_config s answers d.world
      × (d.child_agents ≡ some (chosen (map (λ p. p.0) c.child_agents_with_config) answers))

  start_agents-Started :
      (c : Self agents) (s : State)
      → start_agent_tracing c.controller_agent c.controller_config c.world ≡ (ok true, s)
      → Ensures (Started c) (start_agents agents (record c { world = s }))
  start_agents-Started c s started =
      outside_lem agents (Started c) (start_children agents c.child_agents_with_config [])
        (set_child_agents agents) (record c { world = s })
        λ succ_agents t e.
          let (answers, given, h) =
            subst (Ensures _) e (start_children-Answers agents c.child_agents_with_config [] s) in
          (s, answers, started, given, ap some h)

  start_controller-Started :
      (c : Self agents) → Ensures (Started c) (start_controller_agent agents c)
  start_controller-Started c =
      outside_lem agents (Started c) (start_agent_tracing c.controller_agent c.controller_config) _
        c then_start
    where
      then_start :
          (started : Bool) (s : State)
          → start_agent_tracing c.controller_agent c.controller_config c.world ≡ (ok started, s)
          → Ensures (Started c) (
              (if started then start_agents agents else (λ d. (ok false, d)))
                (record c { world = s }))
      then_start true s e = start_agents-Started c s e
      then_start false s e = (e, refl)

  -- Where StartTracing returns True, the controller agent was started and answered True, then each
  -- agent of the configuration was started in turn, and the child agents are those of them that
  -- answered True, in the order of the configuration. Where it returns False, the controller agent
  -- answered False, no other agent was started and the child agents are what they were.
  pub start_tracing-Started : (c : Self agents) → Ensures (Started c) (start_tracing agents c)
  unfolding start_tracing
  start_tracing-Started c = by_flag c.trace_in_progress
    where
      by_flag :
          (b : Bool)
          → Ensures (Started c) (
              if b
              then raise {A = Bool} assertion_error c
              else start_controller_agent agents (record c { trace_in_progress = true }))
      by_flag true = tt
      by_flag false = start_controller-Started (record c { trace_in_progress = true })

  -- The child agents were told of the clock and stopped in turn, and they answered.
  abbrev Asked : List Agent → Self agents → List Bool → State → Type 0
  Asked before c answers t =
      (s : State) × (issue_markers agents before c.world ≡ (ok tt, s))
      × Answers stop_agent_tracing before s answers t

  -- What a call of StopTracing that returns leaves, for the child agents before it.
  abbrev pub Stopped : List Agent → Self agents → Option (List TraceResult) → Self agents → Type 0
  Stopped before c none d =
      (answers : List Bool) × (t : State) × Asked before c answers t
      × (stop_agent_tracing c.controller_agent t ≡ (ok false, d.world))
      × (d.child_agents ≡ some before)
  Stopped before c (some results) d =
      (answers : List Bool) × (t : State) × Asked before c answers t
      × (u : State) × (stop_agent_tracing c.controller_agent t ≡ (ok true, u))
      × (d.child_agents ≡ some (chosen before answers))
      × (os : List (Option TraceResult)) × Answers get_results
          (chosen before answers ++ c.controller_agent ∷ []) u os d.world
      × (results ≡ present os)
      × (d.all_results ≡ some results)

  -- What StopTracing keeps are the agents that stopped, also where it drops none.
  remaining-chosen :
      (before : List Agent) (answers : List Bool)
      → remaining agents before (chosen before answers) ≡ chosen before answers
  remaining-chosen before answers =
      by_test (ltb (length (chosen before answers)) (length before)) refl
    where
      by_test :
          (b : Bool)
          → ltb (length (chosen before answers)) (length before) ≡ b
          → (if b then chosen before answers else before) ≡ chosen before answers
      by_test true e = refl
      by_test false e = sym (chosen_all before answers (ground (arith, e)))

  collect-Stopped :
      (before : List Agent) (c : Self agents) (answers : List Bool) (t u : State)
      → Asked before c answers t
      → stop_agent_tracing c.controller_agent t ≡ (ok true, u)
      → Ensures
          (Stopped before c)
          (collect_results agents (chosen before answers) (record c { world = u }))
  unfolding collect_results
  collect-Stopped before c answers t u asked stopped =
      outside_lem agents (Stopped before c)
        (collect agents (chosen before answers ++ c.controller_agent ∷ []) [])
        (store_results agents) (record c { child_agents = some (chosen before answers); world = u })
        λ results v e.
          let (os, given, h) =
            subst (Ensures _) e
              (collect-Answers agents (chosen before answers ++ c.controller_agent ∷ []) [] u) in
          (answers, t, asked, u, stopped, refl, os, given, h, refl)

  then_collect :
      (before : List Agent) (c : Self agents) (answers : List Bool) (t u : State) (stopped : Bool)
      → c.child_agents ≡ some before
      → Asked before c answers t
      → stop_agent_tracing c.controller_agent t ≡ (ok stopped, u)
      → Ensures (Stopped before c) (
          (if stopped
              then collect_results agents (remaining agents before (chosen before answers))
              else (λ d. (ok none, d)))
            (record c { world = u }))
  then_collect before c answers t u true known asked e =
      subst (λ l. Ensures (Stopped before c) (collect_results agents l (record c { world = u })))
        (sym (remaining-chosen before answers)) (collect-Stopped before c answers t u asked e)
  then_collect before c answers t u false known asked e = (answers, t, asked, e, known)

  stop_agents-Stopped :
      (before : List Agent) (c : Self agents)
      → c.child_agents ≡ some before
      → Ensures (Stopped before c) (stop_agents agents before c)
  unfolding stop_agents
  stop_agents-Stopped before c known =
      outside_lem agents _ (issue_markers agents before) _ c λ m s marked.
        outside_lem agents _ (stop_children agents before []) _ (record c { world = s })
          λ succ_agents t e.
            let (answers, given, h) =
              subst (Ensures _) e (stop_children-Answers agents before [] s) in
            subst
              (λ l. Ensures (Stopped before c) (
                (outside agents (stop_agent_tracing c.controller_agent) >>= λ stopped.
                if stopped
                then collect_results agents (remaining agents before l)
                else (λ d. (ok none, d)))
                  (record c { world = t })))
              (sym h)
              (outside_lem agents _ (stop_agent_tracing c.controller_agent) _
                (record c { world = t })
                λ stopped u k. then_collect before c answers t u stopped known (s, marked, given) k)

  -- Where StopTracing returns, the child agents were told of the clock and each was stopped in turn.
  -- Where it returns results, the controller agent answered that it stopped, the child agents that are
  -- left are those that answered True, in their order, and the results, which the controller keeps,
  -- are what these and then the controller agent give, without the absent ones. Where it returns
  -- False, the controller agent answered False, and the child agents are those before.
  pub stop_tracing-Stopped :
      (before : List Agent) (c : Self agents)
      → c.child_agents ≡ some before
      → Ensures (Stopped before c) (stop_tracing agents c)
  unfolding stop_tracing
  stop_tracing-Stopped before c known = by_flag c.trace_in_progress
    where
      by_flag :
          (b : Bool)
          → Ensures (Stopped before c) (
              if b
              then stop_known agents c.child_agents (record c { trace_in_progress = false })
              else raise {A = Option (List TraceResult)} assertion_error c)
      by_flag true =
          subst
            (λ o.
              Ensures (Stopped before c)
                (stop_known agents o (record c { trace_in_progress = false })))
            (sym known) (stop_agents-Stopped before (record c { trace_in_progress = false }) known)
      by_flag false = tt
