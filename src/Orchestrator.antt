-- ===== src/Orchestrator.antt =====
-- harness2/orchestrator.py: engine execution, fallback and circuit breaking over one database.
-- The engines (harness2/adapters), SHA-256, the printing of times and of metadata, the redaction and
-- the clock are parameters.
use ultimate_harness.Base.{ℕ, ◌+◌, String, Bool, Option, List, [], ◌∷◌}
use ultimate_harness.Base.Int.{ℤ}
use ultimate_harness.Base.Result.{Result, ok, err, Tx}
use ultimate_harness.Base.Io.{Action}
use ultimate_harness.Text.Codes.{Codes}
use ultimate_harness.Circuit.{Circuit}
use ultimate_harness.Audit.{AuditError, AuditLog}
use ultimate_harness.Router.{EngineStatus}
use ultimate_harness.Policy.TaskText.{PolicyRefusal}
use ultimate_harness.Policy.Decide.{RunRequest, Surroundings}
pub mod Route
pub mod Attempts
pub mod Run
pub mod Keeps
pub mod Calls
pub mod Chain
pub mod Bounds

-- An entry of `tried`; `status` is "succeeded" or "failed".
pub record Tried : Type 0 where
  pub engine : String
  pub provider : String
  pub model : String
  pub status : String
  pub normalized_failure : String
  pub error_code : String
  pub attempts : ℕ

-- The dict that _route_metadata returns.
pub record RouteMetadata : Type 0 where
  pub candidate_routes : List String
  pub skipped_routes : List (String × String)
  pub tried_routes : List Tried
  pub fell_back : Bool
  pub final_engine : String
  pub final_provider : String
  pub final_model : String
  pub final_normalized_failure : String
  pub fallback_reason : String

-- EngineResult.metadata: the keys that the orchestrator writes and that sessions read.
pub record ResultMetadata : Type 0 where
  pub attempts : Option ℕ
  pub normalized_failure : Option String
  pub raw_error_code : Option String
  pub decision : Option String
  pub provider : Option String
  pub resolved_model : Option String
  pub route : Option RouteMetadata

abbrev pub no_metadata : ResultMetadata
no_metadata = record {
  attempts = Option.none;
  normalized_failure = Option.none;
  raw_error_code = Option.none;
  decision = Option.none;
  provider = Option.none;
  resolved_model = Option.none;
  route = Option.none;
}

-- EngineResult, without the number of raw events. The duration is in milliseconds.
pub record EngineResult : Type 0 where
  pub engine : String
  pub success : Bool
  pub text : Codes
  pub error : Option String
  pub error_code : Option String
  pub exit_code : ℤ
  pub duration_ms : ℕ
  pub session_id : Option String
  pub metadata : ResultMetadata

-- A row of the table `runs`.
pub record RunRow : Type 0 where
  pub id : String
  pub started_at : ℕ
  pub finished_at : ℕ
  pub task_hash : Codes
  pub engine : String
  pub agent : Option String
  pub model : Option String
  pub provider : Option String
  pub status : String
  pub exit_code : ℤ
  pub duration_ms : ℕ
  pub session_id : Option String
  pub error_code : Option String
  pub detail : String
  pub harness_session_id : Option String
  pub provider_session_id : Option String

-- An adapter: its status, and its answer to a request at a time; `none` is an exception.
pub record EngineAdapter : Type 0 where
  pub status : EngineStatus
  pub answer : ℕ → RunRequest → Option EngineResult

-- What ends a run without a result.
pub data RunError : Type 0 where
  refused : PolicyRefusal → RunError
  audit_failed : AuditError → RunError
  run_id_taken engine_raised : RunError

-- A call of an engine.
pub record Call : Type 0 where
  pub engine : String
  pub request : RunRequest

-- The database, the calls that were made, the newest first, and how often the clock was read.
pub record HarnessState : Type 0 where
  pub circuits : List Circuit
  pub audit : AuditLog
  pub runs : List RunRow
  pub calls : List Call
  pub ticks : ℕ

-- The dict of the engines, and the code that the orchestrator does not own.
pub record Services : Type 0 where
  pub engines : String → Option EngineAdapter
  pub env : Surroundings
  pub hash : Codes → Codes
  pub task_hash : Codes → Codes
  pub stamp : ℕ → Codes
  pub redact : String → ℕ → String
  pub redact_codes : Codes → ℕ → Codes
  pub render_route : RouteMetadata → List (Codes × Codes)
  pub show_int : ℤ → Codes
  pub clock : ℕ → ℕ
  pub new_id : ℕ → String

abbrev pub Io : Type 0 → Type 0
Io A = Action RunError HarnessState A

-- time.time()
abbrev pub now : Services → Io ℕ
now services s = (ok (services.clock s.ticks), record s { ticks = s.ticks + 1 })
