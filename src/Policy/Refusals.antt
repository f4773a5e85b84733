-- ===== src/Policy/Refusals.antt =====
-- Where the decisions of the policy may send a request.
use ultimate_harness.Base.{
  String, ◌≡◌, refl, Bool, true, false, ◌||◌, ◌=s◌, Bool-cases, Option-cases, inl, inr, any, all,
  none, some, List, [], ◌∷◌, arith,
}
use ultimate_harness.Base.Result.{Result, ok, err}
use ultimate_harness.Text.Codes.{Codes}
use ultimate_harness.Router.{Statuses}
use ultimate_harness.Router.Eligible.{is_eligible, eligible_names, firsts, candidates_are_eligible}
use ultimate_harness.Policy.TaskText.{PolicyRefusal, guarded_root, policy_task_text}
use ultimate_harness.Policy.Decide.{
  RunRequest, RoutingDecision, Surroundings, is_usable, is_healthy, without, route_from,
  decide_sensitive, decide_untrusted, decide_explicit, decide_general, decide_auto, decide_task,
  is_inside, decide,
}

module _ (env : Surroundings) (statuses : Statuses) where
  -- A decision was made behind the guards.
  decide-task :
      (request : RunRequest) (d : RoutingDecision)
      → decide env statuses request ≡ ok d
      → (task_text : Codes) × (decide_task env statuses request task_text ≡ ok d)
  unfolding decide
  decide-task request d h = elim (Option-cases (env.prepare_working_directory request.cwd)) [
    | inl n ↦ absurd (ground arith)
    | inr (cwd, e) ↦ elim (Bool-cases (any (is_inside env statuses (some cwd)) env.guarded_roots)) [
      | inl g ↦ absurd (ground arith)
      | inr g ↦ go (policy_task_text request.harness_session_id request.prompt) refl
    ]
  ]
    where
      go :
          (r : Result PolicyRefusal Codes)
          → policy_task_text request.harness_session_id request.prompt ≡ r
          → (task_text : Codes) × (decide_task env statuses request task_text ≡ ok d)
      go (ok t) e = (t, ground arith)
      go (err x) e = absurd (ground arith)

  -- A sensitive request that is decided goes to the local engine, which is enabled, available and
  -- healthy, without a fallback.
  pub sensitive_stays_local :
      (request : RunRequest) (d : RoutingDecision)
      → request.sensitive ≡ true
      → decide env statuses request ≡ ok d
      → (d.engine ≡ "local")
        × (d.fallbacks ≡ [])
        × (d.candidates ≡ [])
        × (is_usable (statuses "local") ≡ true)
        × (is_healthy (statuses "local") ≡ true)
  unfolding decide_task decide_sensitive
  sensitive_stays_local request d s h =
      let (task_text, h₁) = decide-task request d h in
      (ground arith, ground arith, ground arith, ground arith, ground arith)

  -- An untrusted request that is not sensitive and that is decided goes to the sandbox agent of
  -- OpenCode without a fallback, and names no other engine.
  pub untrusted_is_sandboxed :
      (request : RunRequest) (d : RoutingDecision)
      → request.sensitive ≡ false
      → request.untrusted ≡ true
      → decide env statuses request ≡ ok d
      → (d.engine ≡ "opencode")
        × (d.agent ≡ some "harness-sandbox")
        × (d.fallbacks ≡ [])
        × (d.candidates ≡ [])
        × ((request.engine =s "auto" || request.engine =s "opencode") ≡ true)
  unfolding decide_task decide_untrusted
  untrusted_is_sandboxed request d s u h =
      let (task_text, h₁) = decide-task request d h in
      (ground arith, ground arith, ground arith, ground arith, ground arith)

  select-eligible :
      (names : List String)
      → all (is_eligible statuses none) (eligible_names statuses none names) ≡ true
  select-eligible [] = refl
  select-eligible (name ∷ names) = ground (arith, select-eligible names)

  without-all :
      (p : String → Bool) (engine : String) (names : List String)
      → all p names ≡ true
      → all p (without engine names) ≡ true
  without-all p engine [] h = refl
  without-all p engine (name ∷ names) h = ground (arith, without-all p engine names)

  route-fallbacks :
      (primary : String)
      → all
          (is_eligible statuses none)
          (without primary (route_from env statuses primary).candidates)
        ≡ true
  route-fallbacks primary = without-all (is_eligible statuses none) primary _ (
      rw (candidates_are_eligible env.order primary statuses none).0
        (select-eligible (firsts [] (primary ∷ env.order))))

  -- The fallbacks of a result, all of them.
  abbrev Sound : Result PolicyRefusal RoutingDecision → Type 0
  Sound r = (d : RoutingDecision) → r ≡ ok d → all (is_eligible statuses none) d.fallbacks ≡ true

  explicit-Sound : (request : RunRequest) → Sound (decide_explicit env statuses request)
  unfolding decide_explicit
  explicit-Sound request d h = ground arith

  general-Sound :
      (request : RunRequest) (task_text : Codes)
      → Sound (decide_general env statuses request task_text)
  unfolding decide_general
  general-Sound request task_text d h =
      let c = route-fallbacks "direct" in let e = route-fallbacks "opencode" in ground arith

  auto-Sound :
      (request : RunRequest) (task_text : Codes)
      → Sound (decide_auto env statuses request task_text)
  unfolding decide_auto
  auto-Sound request task_text d h =
      let a = route-fallbacks "hermes" in
      let b = route-fallbacks "prime" in let g = general-Sound request task_text d in ground arith

  task-Sound :
      (request : RunRequest) (task_text : Codes)
      → Sound (decide_task env statuses request task_text)
  unfolding decide_task decide_sensitive decide_untrusted
  task-Sound request task_text d h =
      let x = explicit-Sound request d in let a = auto-Sound request task_text d in ground arith

  -- Every fallback of a decision is an engine that is known, enabled, available and healthy.
  pub fallbacks_are_eligible :
      (request : RunRequest) (d : RoutingDecision)
      → decide env statuses request ≡ ok d
      → all (is_eligible statuses none) d.fallbacks ≡ true
  fallbacks_are_eligible request d h =
      let (task_text, h₁) = decide-task request d h in task-Sound request task_text d h₁

  -- A request whose working directory lies inside a guarded root is refused, whatever it asks for.
  pub guarded_root_refuses :
      (request : RunRequest) (cwd : String)
      → env.prepare_working_directory request.cwd ≡ some cwd
      → any (is_inside env statuses (some cwd)) env.guarded_roots ≡ true
      → decide env statuses request ≡ err guarded_root
  unfolding decide
  guarded_root_refuses request cwd p g = ground arith
