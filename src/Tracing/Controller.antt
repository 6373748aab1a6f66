-- ===== src/Tracing/Controller.antt =====
-- The class TracingController of tracing_controller.py, and CreateAgentsWithConfig.
use ftc_designosaurs.Base.{
  List, [], ◌∷◌, ◌++◌, Bool, true, false, Option, none, some, if◌then◌else◌, length, ltb,
}
use ftc_designosaurs.Python.{Exec, ok, err, pure, raise, ◌>>=◌, ◌>>◌, assertion_error, type_error}
use ftc_designosaurs.Tracing.Agents.{Agents, TraceResult}

-- The controller, with the rest of the world that it acts on.
pub record Controller (S A C : Type 0) : Type 0 where
  pub world : S
  pub child_agents : Option (List A)
  pub child_agents_with_config : List (A × C)
  pub controller_agent : A
  pub controller_config : C
  pub trace_in_progress : Bool
  pub all_results : Option (List TraceResult)

module _ (agents : Agents) where
  open agents use {
    State, Agent, Config, Module, start_agent_tracing, stop_agent_tracing, get_results,
    supports_explicit_clock_sync, record_clock_sync_marker, unique_sync_id, get_config,
    try_create_agent,
  }

  abbrev pub Self : Type 0
  Self = Controller State Agent Config

  -- A call that the fields of the controller have no part in.
  abbrev pub outside : {A : Type 0} → Exec State A → Exec Self A
  outside call c = let (r, s) = call c.world in (r, record c { world = s })

  -- __init__
  abbrev pub new_controller : List (Agent × Config) → Agent → Config → State → Self
  new_controller agents_with_config controller_agent controller_config s = record {
    world = s;
    child_agents = none;
    child_agents_with_config = agents_with_config;
    controller_agent = controller_agent;
    controller_config = controller_config;
    trace_in_progress = false;
    all_results = none;
  }

  abbrev pub append_if : Bool → Agent → List Agent → List Agent
  append_if done agent agents = if done then agents ++ agent ∷ [] else agents

  -- The loop of StartTracing
  unfoldable pub start_children : List (Agent × Config) → List Agent → Exec State (List Agent)
  start_children [] succ_agents s = (ok succ_agents, s)
  start_children ((agent, config) ∷ rest) succ_agents s =
      (do
        started ← start_agent_tracing agent config
        start_children rest (append_if started agent succ_agents))
        s

  abbrev pub set_child_agents : List Agent → Exec Self Bool
  set_child_agents succ_agents c = (ok true, record c { child_agents = some succ_agents })

  abbrev pub start_agents : Exec Self Bool
  start_agents c =
      (do
        succ_agents ← outside (start_children c.child_agents_with_config [])
        set_child_agents succ_agents)
        c

  abbrev pub start_controller_agent : Exec Self Bool
  start_controller_agent c =
      (do
        started ← outside (start_agent_tracing c.controller_agent c.controller_config)
        if started then start_agents else pure false)
        c

  -- StartTracing
  unfoldable pub start_tracing : Exec Self Bool
  start_tracing c =
      if c.trace_in_progress
      then (err assertion_error, c)
      else start_controller_agent (record c { trace_in_progress = true })

  abbrev pub issue_marker : Agent → Exec State Unit
  issue_marker agent = do sync_id ← unique_sync_id; record_clock_sync_marker agent sync_id

  -- The loop of _IssueClockSyncMarker
  unfoldable pub issue_markers : List Agent → Exec State Unit
  issue_markers [] s = (ok tt, s)
  issue_markers (agent ∷ rest) s =
      (do
        supported ← supports_explicit_clock_sync agent
        if supported then issue_marker agent else pure tt
        issue_markers rest)
        s

  -- The loop of StopTracing over the child agents
  unfoldable pub stop_children : List Agent → List Agent → Exec State (List Agent)
  stop_children [] succ_agents s = (ok succ_agents, s)
  stop_children (agent ∷ rest) succ_agents s =
      (do
        stopped ← stop_agent_tracing agent
        stop_children rest (append_if stopped agent succ_agents))
        s

  abbrev pub append_result : Option TraceResult → List TraceResult → List TraceResult
  append_result none all_results = all_results
  append_result (some result) all_results = all_results ++ result ∷ []

  -- The loop of StopTracing that collects the results
  unfoldable pub collect : List Agent → List TraceResult → Exec State (List TraceResult)
  collect [] all_results s = (ok all_results, s)
  collect (agent ∷ rest) all_results s =
      (do result ← get_results agent; collect rest (append_result result all_results)) s

  abbrev pub store_results : List TraceResult → Exec Self (Option (List TraceResult))
  store_results results c = (ok (some results), record c { all_results = some results })

  unfoldable pub collect_results : List Agent → Exec Self (Option (List TraceResult))
  collect_results child_agents c =
      (do
        results ← outside (collect (child_agents ++ c.controller_agent ∷ []) [])
        store_results results)
        (record c { child_agents = some child_agents })

  abbrev pub remaining : List Agent → List Agent → List Agent
  remaining child_agents succ_agents =
      if ltb (length succ_agents) (length child_agents) then succ_agents else child_agents

  unfoldable pub stop_agents : List Agent → Exec Self (Option (List TraceResult))
  stop_agents child_agents c =
      (do
        outside (issue_markers child_agents)
        succ_agents ← outside (stop_children child_agents [])
        stopped ← outside (stop_agent_tracing c.controller_agent)
        if stopped then collect_results (remaining child_agents succ_agents) else pure none)
        c

  -- Iterating over None raises TypeError.
  abbrev pub stop_known : Option (List Agent) → Exec Self (Option (List TraceResult))
  stop_known none = raise type_error
  stop_known (some child_agents) = stop_agents child_agents

  -- StopTracing, which returns none for False
  unfoldable pub stop_tracing : Exec Self (Option (List TraceResult))
  stop_tracing c =
      if c.trace_in_progress
      then stop_known c.child_agents (record c { trace_in_progress = false })
      else (err assertion_error, c)

  abbrev pub append_agent :
      Option Agent → Option Config → List (Agent × Config) → List (Agent × Config)
  append_agent (some agent) (some config) result = result ++ (agent, config) ∷ []
  append_agent agent config result = result

  -- The loop of CreateAgentsWithConfig, whose last filter passes every entry
  unfoldable pub create_from :
      List Module → List (Agent × Config) → Exec State (List (Agent × Config))
  create_from [] result s = (ok result, s)
  create_from (m ∷ rest) result s =
      (do
        config ← get_config m
        agent ← try_create_agent m config
        create_from rest (append_agent agent config result))
        s

  -- CreateAgentsWithConfig
  unfoldable pub create_agents_with_config : List Module → Exec State (List (Agent × Config))
  create_agents_with_config modules = create_from modules []
