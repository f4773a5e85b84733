-- ===== src/Orchestrator/Calls.antt =====
-- Which engines a run calls, and with what.
use ultimate_harness.Base.{
  String, ◌≡◌, refl, sym, subst, ap, ◌∙◌, true, false, ◌=s◌, Bool-cases, inl, inr, All, Option,
  none, some, List, [], ◌∷◌, All-every, eq_refl, arith,
}
use ultimate_harness.Base.Result.{Result, ok, err}
use ultimate_harness.Policy.TaskText.{PolicyRefusal}
use ultimate_harness.Policy.Decide.{RunRequest, RoutingDecision, decide}
use ultimate_harness.Policy.Refusals.{sensitive_stays_local, untrusted_is_sandboxed}
use ultimate_harness.Orchestrator.{Call, HarnessState, Services}
use ultimate_harness.Orchestrator.Route.{extend_new, route_candidates}
use ultimate_harness.Orchestrator.Run.{statuses, with_decision, decide_in, prepare, run}
use ultimate_harness.Orchestrator.Attempts.Keeps.{Askable, Closed}
use ultimate_harness.Orchestrator.Keeps.{run-Keeps}

module _ (services : Services) (P : Call → Type 0) where
  abbrev pub Called : HarnessState → Type 0
  Called s = All P s.calls

  pub Called-Closed : Closed services P Called
  Called-Closed = record {
    ticked = λ s k q. q;
    logged = λ s event subject metadata digest log k h q. q;
    switched = λ s circuits k q. q;
    stored = λ s runs q. q;
    called = λ s call k a q. (a, q);
  }

-- What prepare passes on.
prepare-decide :
    (services : Services) (request prepared : RunRequest) (decision : RoutingDecision)
    → prepare services request ≡ ok (prepared, decision)
    → (cwd : Option String) × (prepared ≡ record request { cwd = cwd })
      × (decide services.env (statuses services) prepared ≡ ok decision)
unfolding prepare
prepare-decide services request prepared decision h =
    go (services.env.prepare_working_directory request.cwd) h
  where
    decided :
        (p : RunRequest) (r : Result PolicyRefusal RoutingDecision)
        → with_decision services p r ≡ ok (prepared, decision)
        → (p ≡ prepared) × (r ≡ ok decision)
    decided p (err x) h = absurd (ground arith)
    decided p (ok d) h = (cc, cc)

    go :
        (cwd : Option String)
        → decide_in services request cwd ≡ ok (prepared, decision)
        → (cwd : Option String) × (prepared ≡ record request { cwd = cwd })
          × (decide services.env (statuses services) prepared ≡ ok decision)
    go none h = absurd (ground arith)
    go (some cwd) h =
        let p = record request { cwd = some cwd } in
        let (e, d) = decided p (decide services.env (statuses services) p) h in
        (some cwd, sym e, subst (λ p. decide services.env (statuses services) p ≡ ok decision) e d)

-- A decision without candidates and fallbacks names one engine.
route_candidates-one :
    (request : RunRequest) (decision : RoutingDecision)
    → decision.candidates ≡ []
    → decision.fallbacks ≡ []
    → route_candidates request decision ≡ decision.engine ∷ []
unfolding route_candidates extend_new
route_candidates-one request decision c f = elim (Bool-cases request.no_fallback) [
  | inl e ↦ rw (e, c) refl
  | inr e ↦ elim (Bool-cases (request.engine =s "auto")) [
    | inl a ↦ rw (e, a, c, f) refl
    | inr a ↦ rw (e, a, c) refl
  ]
]

-- The calls of a run meet what every candidate may be asked.
pub calls-All :
    (services : Services) (P : Call → Type 0) (request : RunRequest) (s : HarnessState)
    → All P s.calls
    → ((prepared : RunRequest) (decision : RoutingDecision) (cwd : Option String)
        → prepared ≡ record request { cwd = cwd }
        → decide services.env (statuses services) prepared ≡ ok decision
        → prepared.dry_run ≡ false
        → All (Askable P prepared decision) (route_candidates prepared decision))
    → All P (run services request s).1.calls
calls-All services P request s before allowed =
    run-Keeps services P (Called services P) (Called-Closed services P) request
      (λ prepared decision e d.
        let (cwd, p, h) = prepare-decide services request prepared decision e in
        allowed prepared decision cwd p h d)
      s before

module _ (services : Services) (request : RunRequest) (s : HarnessState) where
  -- The calls of a run on a sensitive request all go to the local engine, whatever engine, provider or
  -- fallbacks the request asks for, on a state whose earlier calls did.
  pub sensitive_calls_are_local :
      request.sensitive ≡ true
      → All (λ c. c.engine ≡ "local") s.calls
      → All (λ c. c.engine ≡ "local") (run services request s).1.calls
  sensitive_calls_are_local sensitive before =
      calls-All services (λ c. c.engine ≡ "local") request s before
        (λ prepared decision cwd p h d.
          let (e, f, c, u, w) =
            sensitive_stays_local services.env (statuses services) prepared decision
              (ap (λ (r : RunRequest). r.sensitive) p ∙ sensitive) h in
          subst (All (Askable (λ c. c.engine ≡ "local") prepared decision))
            (sym (route_candidates-one prepared decision c f)) ((λ last. e), tt))

  -- On a state without calls, the calls of a run on an untrusted request that is not sensitive all go
  -- to OpenCode under the agent `harness-sandbox`.
  pub untrusted_calls_are_sandboxed :
      request.sensitive ≡ false
      → request.untrusted ≡ true
      → s.calls ≡ []
      → All
          (λ c. (c.engine ≡ "opencode") × (c.request.agent ≡ some "harness-sandbox"))
          (run services request s).1.calls
  untrusted_calls_are_sandboxed sensitive untrusted none_yet =
      calls-All services P request s (subst (All P) (sym none_yet) tt)
        (λ prepared decision cwd p h d.
          let (e, a, f, c, w) =
            untrusted_is_sandboxed services.env (statuses services) prepared decision
              (ap (λ (r : RunRequest). r.sensitive) p ∙ sensitive)
              (ap (λ (r : RunRequest). r.untrusted) p ∙ untrusted) h in
          subst (All (Askable P prepared decision))
            (sym (route_candidates-one prepared decision c f))
            ((λ last. (e, rw (eq_refl decision.engine) a)), tt))
    where
      P : Call → Type 0
      P c = (c.engine ≡ "opencode") × (c.request.agent ≡ some "harness-sandbox")

  -- On a state without calls, every call of a run names the engine that it goes to and carries the
  -- prompt, the provider, the two marks and the session of the request.
  pub calls_carry_the_request :
      s.calls ≡ []
      → All
          (λ c.
            (c.request.engine ≡ c.engine)
            × (c.request.prompt ≡ request.prompt)
            × (c.request.provider ≡ request.provider)
            × (c.request.sensitive ≡ request.sensitive)
            × (c.request.untrusted ≡ request.untrusted)
            × (c.request.harness_session_id ≡ request.harness_session_id))
          (run services request s).1.calls
  calls_carry_the_request none_yet =
      calls-All services P request s (subst (All P) (sym none_yet) tt)
        (λ prepared decision cwd p h d.
          All-every _ (route_candidates prepared decision) (λ name last. (
            refl,
            ap (λ (r : RunRequest). r.prompt) p,
            ap (λ (r : RunRequest). r.provider) p,
            ap (λ (r : RunRequest). r.sensitive) p,
            ap (λ (r : RunRequest). r.untrusted) p,
            ap (λ (r : RunRequest). r.harness_session_id) p,
          )))
    where
      P : Call → Type 0
      P c =
          (c.request.engine ≡ c.engine)
          × (c.request.prompt ≡ request.prompt)
          × (c.request.provider ≡ request.provider)
          × (c.request.sensitive ≡ request.sensitive)
          × (c.request.untrusted ≡ request.untrusted)
          × (c.request.harness_session_id ≡ request.harness_session_id)

  -- A dry run calls no engine.
  pub dry_run_calls_nothing :
      request.dry_run ≡ true → s.calls ≡ [] → (run services request s).1.calls ≡ []
  dry_run_calls_nothing dry none_yet = none_left _ (
      calls-All services (λ c. ⊥) request s (subst (All (λ c. ⊥)) (sym none_yet) tt)
        (λ prepared decision cwd p h d. absurd (cc (ap (λ (r : RunRequest). r.dry_run) p))))
    where
      none_left : (calls : List Call) → All (λ c. ⊥) calls → calls ≡ []
      none_left [] a = refl
      none_left (c ∷ cs) a = absurd a.0
