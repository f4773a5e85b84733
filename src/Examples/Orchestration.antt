-- ===== src/Examples/Orchestration.antt =====
-- The theorems on a run, applied to three engines of which OpenCode fails.
use ultimate_harness.Base.{
  ◌+◌, ◌*◌, ◌≤◌, String, ◌≡◌, refl, true, false, ◌||◌, ◌=s◌, All, length, none, some, List, [], ◌∷◌,
  ◌++◌, if◌then◌else◌,
}
use ultimate_harness.Base.Int.{pos, pos_part}
use ultimate_harness.Base.Result.{ok, err}
use ultimate_harness.Text.Codes.{codes, codes_eq}
use ultimate_harness.Audit.{AuditRow, empty_log, verify_rows, verify_audit}
use ultimate_harness.Router.{EngineStatus, consider, consider_all, assemble_candidates}
use ultimate_harness.Policy.TaskText.{policy_task_text}
use ultimate_harness.Policy.Decide.{
  RunRequest, RoutingDecision, direct_decision, decide_sensitive, decide_untrusted, decide_explicit,
  decide_general, decide_auto, decide_task, decide,
}
use ultimate_harness.Orchestrator.{
  no_metadata, EngineResult, EngineAdapter, Call, HarnessState, Services,
}
use ultimate_harness.Orchestrator.Route.{route_candidates}
use ultimate_harness.Orchestrator.Run.{statuses, prepare, run}
use ultimate_harness.Orchestrator.Chain.{run-keeps_audit_chain}
use ultimate_harness.Orchestrator.Calls.{
  calls_carry_the_request, sensitive_calls_are_local, untrusted_calls_are_sandboxed,
}
use ultimate_harness.Orchestrator.Bounds.{run_calls_bounded}

abbrev pub status : EngineStatus
status = record { available = true; healthy = true; enabled = true; detail = ""; capabilities = [] }

abbrev pub answer_of : String → EngineResult
answer_of name = record {
  engine = name;
  success = if name =s "opencode" then false else true;
  text = 104 ∷ 105 ∷ [];
  error = none;
  error_code = some "timeout";
  exit_code = pos 0;
  duration_ms = 5;
  session_id = none;
  metadata = no_metadata;
}

abbrev pub adapter : String → EngineAdapter
adapter name = record { status = status; answer = λ n request. some (answer_of name) }

abbrev pub services : Services
services = record {
  engines = λ name.
      if name =s "opencode" || name =s "prime" || name =s "local"
      then some (adapter name)
      else none;
  env = record {
    prepare_working_directory = λ cwd. some "/work";
    guarded_roots = "/guarded" ∷ [];
    inside = λ root path. root =s path;
    lower = λ text. text;
    default_agent = none;
    default_model = none;
    order = "opencode" ∷ "hermes" ∷ "prime" ∷ [];
  };
  hash = λ text. text;
  task_hash = λ text. text;
  stamp = λ n. n ∷ [];
  redact = λ text n. text;
  redact_codes = λ text n. text;
  render_route = λ route. [];
  show_int = λ n. [];
  clock = λ n. n;
  new_id = λ n. "id";
}

abbrev pub request : RunRequest
request = record {
  prompt = 104 ∷ 105 ∷ [];
  engine = "auto";
  agent = none;
  model = none;
  provider = none;
  cwd = none;
  sensitive = false;
  untrusted = false;
  no_fallback = false;
  dry_run = false;
  retries = pos 1;
  harness_session_id = none;
}

abbrev pub start : HarnessState
start = record { circuits = []; audit = empty_log; runs = []; calls = []; ticks = 0 }

start_verifies : verify_audit services.hash services.stamp start.audit ≡ (true, 0, none)
unfolding verify_audit verify_rows
start_verifies = refl

run-keeps_audit_chain_example :
    let s' = (run services request start).1 in
    (more : List AuditRow) × (s'.audit.rows ≡ start.audit.rows ++ more)
    × (verify_audit services.hash services.stamp s'.audit ≡ (true, 0 + length more, none))
run-keeps_audit_chain_example = run-keeps_audit_chain services 0 request start start_verifies

calls_carry_the_request_example :
    All
      (λ c.
        (c.request.engine ≡ c.engine)
        × (c.request.prompt ≡ request.prompt)
        × (c.request.provider ≡ request.provider)
        × (c.request.sensitive ≡ request.sensitive)
        × (c.request.untrusted ≡ request.untrusted)
        × (c.request.harness_session_id ≡ request.harness_session_id))
      (run services request start).1.calls
calls_carry_the_request_example = calls_carry_the_request services request start refl

sensitive_calls_are_local_example :
    All
      (λ (c : Call). c.engine ≡ "local")
      (run services (record request { sensitive = true }) start).1.calls
sensitive_calls_are_local_example =
    sensitive_calls_are_local services (record request { sensitive = true }) start refl tt

untrusted_calls_are_sandboxed_example :
    All
      (λ (c : Call). (c.engine ≡ "opencode") × (c.request.agent ≡ some "harness-sandbox"))
      (run services (record request { untrusted = true }) start).1.calls
untrusted_calls_are_sandboxed_example =
    untrusted_calls_are_sandboxed services (record request { untrusted = true }) start refl refl
      refl

abbrev prepared : RunRequest
prepared = record request { cwd = some "/work" }

abbrev decided : RoutingDecision
decided = elim (decide services.env (statuses services) prepared) [
  | ok d ↦ d
  | err x ↦ direct_decision "" none none "" ""
]

prepare_returns : prepare services request ≡ ok (prepared, decided)
unfolding prepare policy_task_text decide_sensitive decide_untrusted decide_explicit decide_general
    decide_auto decide_task decide consider consider_all assemble_candidates codes codes_eq
prepare_returns = refl

run_calls_bounded_example :
    length (run services request start).1.calls
    ≤ length start.calls
      + length (route_candidates prepared decided) * (1 + pos_part prepared.retries)
run_calls_bounded_example =
    run_calls_bounded services request prepared decided start prepare_returns
