-- ===== src/Orchestrator/Route.antt =====
-- harness2/orchestrator.py: the values that run computes from a request, a decision and a result.
use Prim.Native.String
use ultimate_harness.Base.{
  String, Bool, false, not, ◌&&◌, ◌||◌, ◌=s◌, mem_text, take, Option, none, some, List, [], ◌∷◌,
  ◌++◌, if◌then◌else◌,
}
use ultimate_harness.Base.Int.{pos}
use ultimate_harness.Circuit.{CircuitState, closed, opened, half_open, failure}
use ultimate_harness.Policy.Decide.{RunRequest, RoutingDecision}
use ultimate_harness.Failures.{failure_unknown}
use ultimate_harness.Orchestrator.{Tried, RouteMetadata, no_metadata, EngineResult}

-- `x or ""`
abbrev pub or_empty : Option String → String
or_empty none = ""
or_empty (some s) = s

-- `x or default`
abbrev pub or_default : String → Option String → String
or_default default none = default
or_default default (some s) = if s =s "" then default else s

-- Orchestrator.breaker_key
abbrev pub breaker_key : String → RunRequest → RoutingDecision → String
breaker_key engine request decision = String.◌++◌ engine (
    String.◌++◌ ":" (
      String.◌++◌ (or_default "-" request.provider)
        (String.◌++◌ ":" (or_default "-" decision.model))))

-- candidates.extend(x for x in fallbacks if x not in candidates)
unfoldable pub extend_new : List String → List String → List String
extend_new candidates [] = candidates
extend_new candidates (x ∷ xs) =
    extend_new (if mem_text x candidates then candidates else candidates ++ x ∷ []) xs

-- list(decision.candidates) if decision.candidates else [decision.engine]
abbrev pub first_candidates : RoutingDecision → List String
first_candidates decision = elim decision.candidates [ [] ↦ decision.engine ∷ [] | c ∷ cs ↦ c ∷ cs ]

-- The engines that run tries, in their order.
unfoldable pub route_candidates : RunRequest → RoutingDecision → List String
unfolding extend_new
route_candidates request decision =
    let candidates = first_candidates decision in
    if request.no_fallback
    then take 1 candidates
    else if request.engine =s "auto"
    then extend_new candidates decision.fallbacks
    else candidates

-- The decision under which a candidate is tried, `replace(decision, …)` for a fallback.
abbrev pub decision_for : RoutingDecision → (last : EngineResult) → String → RoutingDecision
decision_for decision last name = if name =s decision.engine then decision else record decision {
  engine = name;
  agent = if name =s "opencode" || name =s "zen" then decision.agent else none;
  reason =
      String.◌++◌ "fallback after "
        (String.◌++◌ last.engine (String.◌++◌ ": " (or_default "failure" last.error_code)));
  fallbacks = [];
}

-- replace(request, engine=…, agent=…, model=…)
abbrev pub routed_request : RunRequest → RoutingDecision → String → RunRequest
routed_request request current name = record request {
  engine = name;
  agent = current.agent;
  model = current.model;
}

abbrev pub transient : List String
transient =
    "timeout" ∷ "process_error" ∷ "spawn_error" ∷ "daemon_unavailable" ∷ "unavailable"
    ∷ "local_error" ∷ []

-- The condition of the loop, without the count.
abbrev pub is_transient : EngineResult → Bool
is_transient result = not result.success && is_in result.error_code
  where
    is_in : Option String → Bool
    is_in none = false
    is_in (some code) = mem_text code transient

abbrev pub failed_result : String → (error error_code : String) → EngineResult
failed_result engine error error_code = record {
  engine = engine;
  success = false;
  text = [];
  error = some error;
  error_code = some error_code;
  exit_code = pos 1;
  duration_ms = 0;
  session_id = none;
  metadata = no_metadata;
}

abbrev pub status_text : EngineResult → String
status_text result = if result.success then "succeeded" else "failed"

-- Orchestrator._route_metadata
unfoldable pub route_metadata : RunRequest → RoutingDecision → List Tried → RouteMetadata
route_metadata request decision tried = record {
  candidate_routes = first_candidates decision;
  skipped_routes = decision.skipped;
  tried_routes = tried;
  fell_back = elim tried [ [] ↦ false | first ∷ rest ↦ not (first.engine =s decision.engine) ];
  final_engine = decision.engine;
  final_provider = or_empty request.provider;
  final_model = or_empty decision.model;
  final_normalized_failure = last_failure failure_unknown tried;
  fallback_reason = decision.reason;
}
  where
    last_failure : String → List Tried → String
    last_failure failure [] = failure
    last_failure failure (t ∷ ts) = last_failure t.normalized_failure ts

abbrev pub state_text : CircuitState → String
state_text closed = "closed"
state_text opened = "open"
state_text half_open = "half_open"

-- The variables of the loop over the candidates.
pub record Progress : Type 0 where
  pub chosen : RoutingDecision
  pub last : EngineResult
  pub tried : List Tried
