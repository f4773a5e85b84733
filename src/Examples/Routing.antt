-- ===== src/Examples/Routing.antt =====
-- The theorems on the policy, the router and the resource governor, applied.
use ultimate_harness.Base.{Bool, Option, String, map}
use ultimate_harness.Base.{
  ◌≡◌, refl, true, false, ◌↔◌, ◌||◌, ◌=s◌, all, if◌then◌else◌, none, some, [], ◌∷◌,
}
use ultimate_harness.Text.Codes.{codes, codes_eq}
use ultimate_harness.Base.Result.{ok, err}
use ultimate_harness.Router.{EngineStatus, Statuses, consider, consider_all, assemble_candidates}
use ultimate_harness.Router.Eligible.{
  is_eligible, firsts, eligible_names, ineligible_names, candidates_are_eligible,
}
use ultimate_harness.Base.Int.{pos, ltb_ℤ}
use ultimate_harness.Router.Scores.{Standing, score_candidate, blocked_scores_below}
use ultimate_harness.Policy.TaskText.{policy_task_text}
use ultimate_harness.Policy.Decide.{
  RunRequest, RoutingDecision, Surroundings, is_usable, is_healthy, direct_decision,
  decide_sensitive, decide_untrusted, decide_explicit, decide_general, decide_auto, decide_task,
  decide,
}
use ultimate_harness.Policy.Refusals.{
  sensitive_stays_local, untrusted_is_sandboxed, fallbacks_are_eligible,
}
use ultimate_harness.Resources.{
  ResourceLimits, ResourceObservation, allow, throttle, checkpoint_and_pause, refuse, evaluate,
  MustStop, IsCrowded, evaluate_lem,
}

-- Every engine of the default order but Hermes is enabled, available and healthy.
abbrev healthy : EngineStatus
healthy = record {
  available = true;
  healthy = true;
  enabled = true;
  detail = "";
  capabilities = [];
}

abbrev statuses : Statuses
statuses name = if name =s "hermes" then none else some healthy

abbrev env : Surroundings
env = record {
  prepare_working_directory = λ cwd. some "/work";
  guarded_roots = "/guarded" ∷ [];
  inside = λ root path. root =s path;
  lower = λ text. text;
  default_agent = none;
  default_model = none;
  order = "opencode" ∷ "hermes" ∷ "prime" ∷ [];
}

abbrev request : RunRequest
request = record {
  prompt = 104 ∷ 105 ∷ [];
  engine = "auto";
  agent = none;
  model = none;
  provider = none;
  cwd = none;
  sensitive = false;
  untrusted = false;
  no_fallback = false;
  dry_run = false;
  retries = pos 1;
  harness_session_id = none;
}

abbrev decided : RunRequest → RoutingDecision
decided q = elim (decide env statuses q) [ ok d ↦ d | err x ↦ direct_decision "" none none "" "" ]

abbrev sensitive_request : RunRequest
sensitive_request = record request { sensitive = true }

abbrev untrusted_request : RunRequest
untrusted_request = record request { untrusted = true }

abbrev explicit_request : RunRequest
explicit_request = record request { engine = "zen" }

decisions :
    (decide env statuses sensitive_request ≡ ok (decided sensitive_request))
    × (decide env statuses untrusted_request ≡ ok (decided untrusted_request))
    × (decide env statuses explicit_request ≡ ok (decided explicit_request))
    × (decide env statuses request ≡ ok (decided request))
unfolding policy_task_text decide_sensitive decide_untrusted decide_explicit decide_general
    decide_auto decide_task decide consider consider_all assemble_candidates codes codes_eq
decisions = (refl, refl, refl, refl)

sensitive_stays_local_example :
    ((decided sensitive_request).engine ≡ "local")
    × ((decided sensitive_request).fallbacks ≡ [])
    × ((decided sensitive_request).candidates ≡ [])
    × (is_usable (statuses "local") ≡ true)
    × (is_healthy (statuses "local") ≡ true)
sensitive_stays_local_example =
    sensitive_stays_local env statuses sensitive_request (decided sensitive_request) refl
      decisions.0

untrusted_is_sandboxed_example :
    ((decided untrusted_request).engine ≡ "opencode")
    × ((decided untrusted_request).agent ≡ some "harness-sandbox")
    × ((decided untrusted_request).fallbacks ≡ [])
    × ((decided untrusted_request).candidates ≡ [])
    × (("auto" =s "auto" || "auto" =s "opencode") ≡ true)
untrusted_is_sandboxed_example =
    untrusted_is_sandboxed env statuses untrusted_request (decided untrusted_request) refl refl
      decisions.1

fallbacks_are_eligible_example : all (is_eligible statuses none) (decided request).fallbacks ≡ true
fallbacks_are_eligible_example =
    fallbacks_are_eligible env statuses request (decided request) decisions.3

candidates_are_eligible_example :
    let route = assemble_candidates env.order "prime" statuses none in
    let names = firsts [] ("prime" ∷ env.order) in
    (route.candidates ≡ eligible_names statuses none names)
    × (map (λ (s : String × String). s.0) route.skipped ≡ ineligible_names statuses none names)
candidates_are_eligible_example = candidates_are_eligible env.order "prime" statuses none

abbrev limits : ResourceLimits
limits = record {
  min_disk_free_bytes = 100;
  min_battery_percent = 20;
  max_queue_length = 10;
  max_process_count = 10;
}

abbrev observation : ResourceObservation
observation = record {
  disk_free_bytes = 50;
  battery_percent = some 10;
  charging = some false;
  process_count = none;
  queue_length = some 11;
}

evaluate_lem_example :
    let d = evaluate limits observation true false in
    let Stops = MustStop limits observation false in
    let Crowds = IsCrowded limits observation in
    ((d.action ≡ refuse) ↔ (Stops × (true ≡ false)))
    × ((d.action ≡ checkpoint_and_pause) ↔ (Stops × (true ≡ true)))
    × ((d.action ≡ throttle) ↔ ((¬ Stops) × Crowds))
    × ((d.action ≡ allow) ↔ ((¬ Stops) × (¬ Crowds)))
    × ((d.checkpoint_required ≡ true) ↔ (d.action ≡ checkpoint_and_pause))
    × ((d.action ≡ allow) ↔ (d.reasons ≡ []))
evaluate_lem_example = evaluate_lem limits observation true false

abbrev standing : Option Bool → Standing
standing allowed = record {
  circuit_allowed = allowed;
  cost_class = some "free";
  capability_fit = none;
}

blocked_scores_below_example :
    ltb_ℤ
      (score_candidate "zen" (standing (some false)) [])
      (score_candidate "prime" (standing none) [])
    ≡ true
blocked_scores_below_example =
    blocked_scores_below "zen" "prime" (standing (some false)) (standing none) [] refl refl
