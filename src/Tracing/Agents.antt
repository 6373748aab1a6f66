-- ===== src/Tracing/Agents.antt =====
-- The tracing agents and the modules that make them, as tracing_controller.py calls them.
use ftc_designosaurs.Base.{String, Bool, Option}
use ftc_designosaurs.Python.{Exec}

-- TraceResult of trace_result.py
pub record TraceResult : Type 0 where
  pub source_name : String
  pub raw_data : String

-- The methods of an agent stand under the decorator py_utils.Timeout, by which a call that runs out
-- of time gives false, or no result.
pub record Agents : Type 1 where
  pub State : Type 0
  pub Agent : Type 0
  pub Config : Type 0
  pub Module : Type 0
  pub start_agent_tracing : Agent → Config → Exec State Bool
  pub stop_agent_tracing : Agent → Exec State Bool
  pub get_results : Agent → Exec State (Option TraceResult)
  pub supports_explicit_clock_sync : Agent → Exec State Bool
  pub record_clock_sync_marker : Agent → String → Exec State Unit
  -- str(uuid.uuid4())
  pub unique_sync_id : Exec State String
  -- module.get_config(options) and module.try_create_agent(config), for the options at hand
  pub get_config : Module → Exec State (Option Config)
  pub try_create_agent : Module → Option Config → Exec State (Option Agent)
