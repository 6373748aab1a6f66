-- ===== src/TraceLog/Events.antt =====
-- The events, the formats and the pieces of text that log.py writes.
use ftc_designosaurs.Base.{ℕ, String, List, [], ◌∷◌, Option, none, some, Bool}
use ftc_designosaurs.Base.Dict.{Dict}

-- JSON, JSON_WITH_METADATA, PROTOBUF, and any other text
pub data Format : Type 0 where
  json json_with_metadata protobuf : Format
  unknown : String → Format

-- An entry of _cur_events. A time is a number of microseconds, and the arguments are texts.
pub record Event : Type 0 where
  pub ph : String
  pub category : String
  pub pid : ℕ
  pub tid : ℕ
  pub ts : ℕ
  pub name : String
  pub args : Dict String String

-- The arguments of trace_add_benchmark_metadata.
pub record Metadata : Type 0 where
  pub benchmark_start_time_us : ℕ
  pub story_run_time_us : ℕ
  pub benchmark_name : String
  pub benchmark_description : String
  pub story_name : String
  pub story_tags : List String
  pub story_run_index : ℕ
  pub label : Option String
  pub had_failures : Option Bool

-- One call of write, of json.dump or of perfetto_trace_writer; argv stands for the event that holds
-- sys.argv, and {} for the benchmark metadata before they are set.
pub data Chunk : Type 0 where
  text : String → Chunk
  argv_object : Chunk
  event_object : Event → Chunk
  empty_object : Chunk
  metadata_object : Metadata → Chunk
  thread_descriptor_proto argv_proto : Chunk
  event_proto : Event → Chunk
  metadata_proto : Metadata → Chunk

-- The arguments of write_header, none where the format is unknown.
abbrev pub header : Format → Option (List Chunk)
header protobuf = some (thread_descriptor_proto ∷ argv_proto ∷ [])
header json = some (text "[" ∷ argv_object ∷ text "\n" ∷ [])
header json_with_metadata = some (text "{\"traceEvents\": [\n" ∷ argv_object ∷ text "\n" ∷ [])
header (unknown f) = none

-- The two loops of _write_cur_events
unfoldable pub proto_events : List Event → List Chunk
proto_events [] = []
proto_events (e ∷ es) = event_proto e ∷ proto_events es

unfoldable pub json_events : List Event → List Chunk
json_events [] = []
json_events (e ∷ es) = text ",\n" ∷ event_object e ∷ json_events es

abbrev pub written_events : Format → List Event → Option (List Chunk)
written_events protobuf es = some (proto_events es)
written_events json es = some (json_events es)
written_events json_with_metadata es = some (json_events es)
written_events (unknown f) es = none

-- json.dump(_benchmark_metadata)
abbrev pub metadata_chunk : Option Metadata → Chunk
metadata_chunk none = empty_object
metadata_chunk (some m) = metadata_object m

abbrev pub footer : Format → Option Metadata → Option (List Chunk)
footer json m = some []
footer protobuf m = some []
footer json_with_metadata m = some (text "],\n\"metadata\": " ∷ metadata_chunk m ∷ text "}" ∷ [])
footer (unknown f) m = none
