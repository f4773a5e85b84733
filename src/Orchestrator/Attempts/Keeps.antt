-- ===== src/Orchestrator/Attempts/Keeps.antt =====
-- What the loops of a run keep of the state, whatever the engines answer.
use ultimate_harness.Base.{
  ℕ, zero, suc, ◌+◌, String, ◌≡◌, refl, Bool, true, false, All, if◌then◌else◌, Option, none, some,
  List, [], ◌∷◌,
}
use ultimate_harness.Base.Int.{pos_part}
use ultimate_harness.Base.Result.{Result, ok, err}
use ultimate_harness.Base.Io.{pure, ◌>>=◌, ◌>>◌, Keeps, >>=-Keeps, if-Keeps, answer-Keeps}
use ultimate_harness.Text.Codes.{Codes, codes}
use ultimate_harness.Audit.{AuditError, AuditLog, append_audit}
use ultimate_harness.Circuit.{Circuit, CircuitView}
use ultimate_harness.Policy.Decide.{RunRequest, RoutingDecision}
use ultimate_harness.Orchestrator.{
  EngineResult, RunRow, EngineAdapter, Call, HarnessState, Services,
}
use ultimate_harness.Orchestrator.Route.{
  Progress, decision_for, routed_request, is_transient, breaker_key,
}
use ultimate_harness.Orchestrator.Attempts.{
  recorded, answered, audit, breaker_before, breaker_success, breaker_failure, error_text,
  failed_metadata, settled, report_failure, attempts, call_engine, retry_attempts, settle,
  skip_open, skip_unknown, try_engine, try_candidate, try_candidates,
}

-- A property that every write to the database keeps, and every call that is allowed.
pub record Closed (services : Services) (Allowed : Call → Type 0) (Q : HarnessState → Type 0)
    : Type 0 where
  pub ticked : (s : HarnessState) (n : ℕ) → Q s → Q (record s { ticks = n })
  pub logged :
      (s : HarnessState) (event subject : Codes) (metadata : List (Codes × Codes)) (digest : Codes)
      (log : AuditLog) (n : ℕ)
      → append_audit services.hash services.stamp services.redact_codes event subject metadata
          (services.clock s.ticks)
          s.audit
        ≡ ok (digest, log)
      → Q s
      → Q (record s { audit = log; ticks = n })
  pub switched :
      (s : HarnessState) (circuits : List Circuit) (n : ℕ)
      → Q s
      → Q (record s { circuits = circuits; ticks = n })
  pub stored : (s : HarnessState) (runs : List RunRow) → Q s → Q (record s { runs = runs })
  pub called :
      (s : HarnessState) (call : Call) (n : ℕ)
      → Allowed call
      → Q s
      → Q (record s { calls = call ∷ s.calls; ticks = n })

-- What a candidate may be asked, whichever failure came before.
abbrev pub Askable : (Call → Type 0) → RunRequest → RoutingDecision → String → Type 0
Askable Allowed request decision name =
    (last : EngineResult)
    → Allowed (record {
      engine = name;
      request = routed_request request (decision_for decision last name) name;
    })

module _ (services : Services) (Allowed : Call → Type 0) (Q : HarnessState → Type 0)
    (closed : Closed services Allowed Q) where
  pub audit-Keeps :
      (event : String) (subject : Codes) (metadata : List (Codes × Codes))
      → Keeps Q (audit services event subject metadata)
  unfolding audit
  audit-Keeps event subject metadata s q =
      go
        (append_audit services.hash services.stamp services.redact_codes (codes event) subject
          metadata (services.clock s.ticks) s.audit)
        refl
    where
      go :
          (r : Result AuditError (Codes × AuditLog))
          → append_audit services.hash services.stamp services.redact_codes
              (codes event)
              subject
              metadata
              (services.clock s.ticks)
              s.audit
            ≡ r
          → Q (recorded services s r).1
      go (ok (digest, log)) e =
          closed.logged s (codes event) subject metadata digest log (s.ticks + 1) e q
      go (err x) e = closed.ticked s (s.ticks + 1) q

  call_engine-Keeps :
      (name : String) (engine : EngineAdapter) (routed : RunRequest)
      → Allowed (record { engine = name; request = routed })
      → Keeps Q (call_engine services name engine routed)
  unfolding call_engine
  call_engine-Keeps name engine routed a s q = go (engine.answer s.ticks routed)
    where
      s' : HarnessState
      s' = record s {
        calls = (record { engine = name; request = routed }) ∷ s.calls;
        ticks = s.ticks + 1;
      }

      go : (r : Option EngineResult) → Q (answered services r s').1
      go none = closed.called s (record { engine = name; request = routed }) (s.ticks + 1) a q
      go (some result) =
          closed.called s (record { engine = name; request = routed }) (s.ticks + 1) a q

  retry_attempts-Keeps :
      (name : String) (engine : EngineAdapter) (routed : RunRequest) (left attempt : ℕ)
      (result : EngineResult)
      → Allowed (record { engine = name; request = routed })
      → Keeps Q (retry_attempts services name engine routed left attempt result)
  unfolding retry_attempts
  retry_attempts-Keeps name engine routed zero attempt result a = λ s q. q
  retry_attempts-Keeps name engine routed (suc left) attempt result a =
      if-Keeps Q (is_transient result) _ _
        (>>=-Keeps Q (call_engine services name engine routed)
          (retry_attempts services name engine routed left (attempt + 1))
          (call_engine-Keeps name engine routed a)
          (λ r. retry_attempts-Keeps name engine routed left (attempt + 1) r a))
        (λ e s q. q)

  report_failure-Keeps :
      (request : RunRequest) (current : RoutingDecision) (name key : String) (result : EngineResult)
      (attempt : ℕ)
      → Keeps Q (report_failure services request current name key result attempt)
  unfolding report_failure breaker_failure
  report_failure-Keeps request current name key result attempt =
      >>=-Keeps Q (breaker_failure services key (error_text services result))
        (λ u.
          audit services "route.failed" (codes name)
            (failed_metadata services request current result attempt))
        (λ s q. closed.switched s _ (s.ticks + 1) q)
        (λ u.
          audit-Keeps "route.failed" (codes name)
            (failed_metadata services request current result attempt))

  pub settle-Keeps :
      (request : RunRequest) (current : RoutingDecision) (name key : String) (p : Progress)
      (r : EngineResult × ℕ)
      → Keeps Q (settle services request current name key p r)
  unfolding settle breaker_success
  settle-Keeps request current name key p (result, attempt) =
      if-Keeps Q result.success
        (breaker_success services key
          >> pure (true, settled services request current name p result attempt))
        (report_failure services request current name key result attempt
          >> pure (false, settled services request current name p result attempt))
        (λ s q. closed.switched s _ (s.ticks + 1) q)
        (λ e.
          answer-Keeps Q (report_failure services request current name key result attempt)
            (false, settled services request current name p result attempt)
            (report_failure-Keeps request current name key result attempt))

  pub skip_open-Keeps :
      (name : String) (p : Progress) (view : CircuitView) → Keeps Q (skip_open services name p view)
  unfolding skip_open
  skip_open-Keeps name p view =
      answer-Keeps Q (audit services "route.skipped" (codes name) _) _
        (audit-Keeps "route.skipped" (codes name) _)

  attempts-Keeps :
      (request : RunRequest) (name : String) (engine : EngineAdapter) (routed : RunRequest)
      → Allowed (record { engine = name; request = routed })
      → Keeps Q (attempts services request name engine routed)
  unfolding attempts
  attempts-Keeps request name engine routed a =
      >>=-Keeps Q (call_engine services name engine routed)
        (retry_attempts services name engine routed (pos_part request.retries) 0)
        (call_engine-Keeps name engine routed a)
        (λ r. retry_attempts-Keeps name engine routed (pos_part request.retries) 0 r a)

  pub skip_unknown-Keeps : (name : String) (p : Progress) → Keeps Q (skip_unknown services name p)
  unfolding skip_unknown
  skip_unknown-Keeps name p =
      answer-Keeps Q (audit services "route.skipped" (codes name) _) (false, p)
        (audit-Keeps "route.skipped" (codes name) _)

  try_engine-Keeps :
      (request : RunRequest) (decision : RoutingDecision) (name : String) (engine : EngineAdapter)
      (p : Progress)
      → Askable Allowed request decision name
      → Keeps Q (try_engine services request decision name engine p)
  unfolding try_engine breaker_before
  try_engine-Keeps request decision name engine p a =
      let current = decision_for decision p.last name in
      let key = breaker_key name request current in
      let routed = routed_request request current name in
      >>=-Keeps Q (breaker_before services key)
        (λ view.
          if view.allowed
          then (attempts services request name engine routed
              >>= settle services request current name key p)
          else skip_open services name p view)
        (λ s q. closed.switched s _ (s.ticks + 1) q)
        (λ view.
          if-Keeps Q view.allowed
            (attempts services request name engine routed
              >>= settle services request current name key p)
            (skip_open services name p view)
            (>>=-Keeps Q (attempts services request name engine routed)
              (settle services request current name key p)
              (attempts-Keeps request name engine routed (a p.last))
              (settle-Keeps request current name key p))
            (λ e. skip_open-Keeps name p view))

  try_candidate-Keeps :
      (request : RunRequest) (decision : RoutingDecision) (name : String) (p : Progress)
      → Askable Allowed request decision name
      → Keeps Q (try_candidate services request decision name p)
  unfolding try_candidate
  try_candidate-Keeps request decision name p a =
      elim (services.engines name)
        as (λ e. Keeps {A = Bool × Progress} Q (elim e [
          | none ↦ skip_unknown services name p
          | some engine ↦ try_engine services request decision name engine p
        ])) [
          | none ↦ skip_unknown-Keeps name p
          | some engine ↦ try_engine-Keeps request decision name engine p a
        ]

  pub try_candidates-Keeps :
      (request : RunRequest) (decision : RoutingDecision) (names : List String) (p : Progress)
      → All (Askable Allowed request decision) names
      → Keeps Q (try_candidates services request decision names p)
  unfolding try_candidates
  try_candidates-Keeps request decision [] p a = λ s q. q
  try_candidates-Keeps request decision (name ∷ names) p a =
      >>=-Keeps Q (try_candidate services request decision name p)
        (λ r. if r.0 then pure r.1 else try_candidates services request decision names r.1)
        (try_candidate-Keeps request decision name p a.0)
        (λ r.
          if-Keeps Q r.0 (pure r.1) (try_candidates services request decision names r.1) (λ s q. q)
            (λ e. try_candidates-Keeps request decision names r.1 a.1))
