-- ===== src/Tracing/Tests.antt =====
-- Small inputs for the theorems about the tracing controller.
use ftc_designosaurs.Base.{
  String, some, true, not, ◌≡◌, refl, ◌==◌, comparable_string, List, [], ◌∷◌,
}
use ftc_designosaurs.Python.{ok, err, Ensures, assertion_error}
use ftc_designosaurs.Tracing.Agents.{Agents}
use ftc_designosaurs.Tracing.Controller.{Self, new_controller, start_tracing, stop_tracing}
use ftc_designosaurs.Tracing.Protocol.{start_tracing-start_tracing}
use ftc_designosaurs.Tracing.Children.{
  Started, Stopped, start_tracing-Started, stop_tracing-Stopped,
}

-- Agents by their names, of which "bad" neither starts nor stops; the world is the list of the
-- agents that were asked to start or to stop.
abbrev named : Agents
named = record {
  State = List String;
  Agent = String;
  Config = String;
  Module = String;
  start_agent_tracing = λ agent config asked. (ok (not (agent == "bad")), agent ∷ asked);
  stop_agent_tracing = λ agent asked. (ok (not (agent == "bad")), agent ∷ asked);
  get_results =
      λ agent asked. (ok (some (record { source_name = agent; raw_data = "trace" })), asked);
  supports_explicit_clock_sync = λ agent asked. (ok (agent == "atrace"), asked);
  record_clock_sync_marker = λ agent sync_id asked. (ok tt, sync_id ∷ asked);
  unique_sync_id = λ asked. (ok "id", asked);
  get_config = λ m asked. (ok (some m), asked);
  try_create_agent = λ m config asked. (ok (some m), asked);
}

abbrev fresh : String → Self named
fresh controller =
    new_controller named (("atrace", "config") ∷ ("bad", "config") ∷ []) controller "config" []

abbrev running : Self named
running = record (fresh "controller") {
  child_agents = some ("atrace" ∷ []);
  trace_in_progress = true;
}

start_tracing-start_tracing_example :
    start_tracing named (start_tracing named (fresh "bad")).1
    ≡ (err assertion_error, (start_tracing named (fresh "bad")).1)
start_tracing-start_tracing_example = start_tracing-start_tracing named (fresh "bad")

start_tracing-Started_example :
    Ensures (Started named (fresh "controller")) (start_tracing named (fresh "controller"))
start_tracing-Started_example = start_tracing-Started named (fresh "controller")

stop_tracing-Stopped_example :
    Ensures (Stopped named ("atrace" ∷ []) running) (stop_tracing named running)
stop_tracing-Stopped_example = stop_tracing-Stopped named ("atrace" ∷ []) running refl
