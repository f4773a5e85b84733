-- ===== src/Orchestrator/Attempts.antt =====
-- harness2/orchestrator.py, the loops of Orchestrator.run: the attempts on an engine and the
-- candidates. The wait between two attempts is not modelled.
use Prim.Native.String
use ultimate_harness.Base.{
  ℕ, zero, suc, ◌+◌, String, Bool, true, false, Option, none, some, List, [], ◌∷◌, ◌++◌,
  if◌then◌else◌,
}
use ultimate_harness.Base.Int.{pos, pos_part}
use ultimate_harness.Base.Result.{Result, ok, err}
use ultimate_harness.Base.Io.{pure, raise, ◌>>=◌, ◌>>◌}
use ultimate_harness.Text.Codes.{Codes, codes}
use ultimate_harness.Audit.{AuditError, AuditLog, append_audit}
use ultimate_harness.Circuit.{CircuitView, circuit_breaker, before, success, failure}
use ultimate_harness.Policy.Decide.{RunRequest, RoutingDecision}
use ultimate_harness.Failures.{normalize_failure}
use ultimate_harness.Orchestrator.{
  Tried, EngineResult, EngineAdapter, RunError, audit_failed, engine_raised, HarnessState, Services,
  Io,
}
use ultimate_harness.Orchestrator.Route.{
  or_empty, or_default, breaker_key, decision_for, routed_request, is_transient, failed_result,
  status_text, state_text, Progress,
}
pub mod Keeps

module _ (services : Services) where
  abbrev pub recorded :
      HarnessState
      → Result AuditError (Codes × AuditLog)
      → Result RunError (Unit {0}) × HarnessState
  recorded s (ok (digest, log)) = (ok tt, record s { audit = log; ticks = s.ticks + 1 })
  recorded s (err x) = (err (audit_failed x), record s { ticks = s.ticks + 1 })

  -- Store.append_audit, in a transaction of its own
  unfoldable pub audit : (event : String) (subject : Codes) → List (Codes × Codes) → Io (Unit {0})
  audit event subject metadata s = recorded s (
      append_audit services.hash services.stamp services.redact_codes (codes event) subject metadata
        (services.clock s.ticks) s.audit)

  -- CircuitBreaker.before, success and failure, with the defaults of CircuitBreaker.__init__
  unfoldable pub breaker_before : String → Io CircuitView
  breaker_before key s =
      let r = before services.redact key (services.clock s.ticks) s.circuits in
      (ok r.0, record s { circuits = r.1; ticks = s.ticks + 1 })

  unfoldable pub breaker_success : String → Io (Unit {0})
  breaker_success key s = (
    ok tt,
    record s {
      circuits =
          success services.redact (circuit_breaker 3 30 600) key (services.clock s.ticks)
            s.circuits;
      ticks = s.ticks + 1;
    },
  )

  unfoldable pub breaker_failure : (key error : String) → Io (Unit {0})
  breaker_failure key error s = (
    ok tt,
    record s {
      circuits =
          (failure services.redact (circuit_breaker 3 30 600) key error (services.clock s.ticks)
            s.circuits).1;
      ticks = s.ticks + 1;
    },
  )

  abbrev pub answered : Option EngineResult → Io EngineResult
  answered none = raise engine_raised
  answered (some result) = pure result

  -- engine.run(routed)
  unfoldable pub call_engine : (name : String) → EngineAdapter → RunRequest → Io EngineResult
  call_engine name engine routed s = answered (engine.answer s.ticks routed) (record s {
    calls = (record { engine = name; request = routed }) ∷ s.calls;
    ticks = s.ticks + 1;
  })

  -- The loop over the attempts: `left` is how many more may be made.
  unfoldable pub retry_attempts :
      (name : String)
      → EngineAdapter
      → RunRequest
      → (left attempt : ℕ) → EngineResult
      → Io (EngineResult × ℕ)
  unfolding call_engine
  retry_attempts name engine routed zero attempt result = pure (result, attempt)
  retry_attempts name engine routed (suc left) attempt result =
      if is_transient result
      then (call_engine name engine routed >>= retry_attempts name engine routed left (attempt + 1))
      else pure (result, attempt)

  abbrev pub normalized : EngineResult → String
  normalized result =
      if result.success
      then ""
      else normalize_failure services.env.lower result.error_code result.error

  -- What is written to the result's metadata behind the attempts.
  abbrev pub with_attempts : EngineResult → ℕ → EngineResult
  with_attempts result attempt = record result {
    metadata = record result.metadata {
      attempts = some (attempt + 1);
      normalized_failure = some (normalized result);
      raw_error_code = some (or_empty result.error_code);
    };
  }

  abbrev pub tried_entry : RunRequest → RoutingDecision → String → EngineResult → ℕ → Tried
  tried_entry request current name result attempt = record {
    engine = name;
    provider = or_empty request.provider;
    model = or_empty current.model;
    status = status_text result;
    normalized_failure = normalized result;
    error_code = or_empty result.error_code;
    attempts = attempt + 1;
  }

  -- `result.error or result.error_code or "engine failure"`
  abbrev pub error_text : EngineResult → String
  error_text result = or_default (or_default "engine failure" result.error_code) result.error

  abbrev pub failed_metadata :
      RunRequest → RoutingDecision → EngineResult → ℕ → List (Codes × Codes)
  failed_metadata request current result attempt =
      (codes "provider", codes (or_empty request.provider))
      ∷ (codes "model", codes (or_empty current.model))
      ∷ (codes "error_code", codes (or_empty result.error_code))
      ∷ (codes "normalized_failure", codes (normalized result))
      ∷ (codes "attempts", services.show_int (pos (attempt + 1)))
      ∷ []

  abbrev pub settled :
      RunRequest → RoutingDecision → String → Progress → EngineResult → ℕ → Progress
  settled request current name p result attempt = record {
    chosen = current;
    last = with_attempts result attempt;
    tried = p.tried ++ tried_entry request current name result attempt ∷ [];
  }

  unfoldable pub report_failure :
      RunRequest → RoutingDecision → (name key : String) → EngineResult → ℕ → Io (Unit {0})
  unfolding audit breaker_failure
  report_failure request current name key result attempt =
      breaker_failure key (error_text result)
      >> audit "route.failed" (codes name) (failed_metadata request current result attempt)

  -- The part of the loop's body behind the attempts: the answer `true` ends the loop.
  unfoldable pub settle :
      RunRequest
      → RoutingDecision
      → (name key : String) → Progress
      → EngineResult × ℕ
      → Io (Bool × Progress)
  unfolding breaker_success report_failure
  settle request current name key p (result, attempt) =
      let p' = settled request current name p result attempt in
      if result.success
      then (breaker_success key >> pure (true, p'))
      else (report_failure request current name key result attempt >> pure (false, p'))

  -- f"circuit open (state={view.state}, failures={view.failures})"
  abbrev pub open_reason : CircuitView → Codes
  open_reason view =
      codes "circuit open (state="
      ++ (codes (state_text view.state)
          ++ (codes ", failures=" ++ (services.show_int (pos view.failures) ++ codes ")")))

  -- The circuit of a candidate is open.
  unfoldable pub skip_open : (name : String) → Progress → CircuitView → Io (Bool × Progress)
  unfolding audit
  skip_open name p view =
      audit "route.skipped" (codes name) ((codes "reason", open_reason view) ∷ [])
      >> pure (false, record p { last = failed_result name "circuit is open" "circuit_open" })

  -- The attempts on an engine.
  unfoldable pub attempts :
      RunRequest → (name : String) → EngineAdapter → (routed : RunRequest) → Io (EngineResult × ℕ)
  unfolding call_engine retry_attempts
  attempts request name engine routed =
      call_engine name engine routed
      >>= retry_attempts name engine routed (pos_part request.retries) 0

  -- The body of the loop for a candidate that has an adapter.
  unfoldable pub try_engine :
      RunRequest
      → RoutingDecision
      → (name : String) → EngineAdapter
      → Progress
      → Io (Bool × Progress)
  unfolding breaker_before attempts settle skip_open
  try_engine request decision name engine p =
      let current = decision_for decision p.last name in
      let key = breaker_key name request current in
      breaker_before key >>= λ view.
      if view.allowed
      then (attempts request name engine (routed_request request current name)
          >>= settle request current name key p)
      else skip_open name p view

  -- A candidate that has no adapter.
  unfoldable pub skip_unknown : (name : String) → Progress → Io (Bool × Progress)
  unfolding audit
  skip_unknown name p =
      audit "route.skipped" (codes name) ((codes "reason", codes "no adapter registered") ∷ [])
      >> pure (false, p)

  -- The body of the loop over the candidates.
  unfoldable pub try_candidate :
      RunRequest → RoutingDecision → (name : String) → Progress → Io (Bool × Progress)
  unfolding try_engine skip_unknown
  try_candidate request decision name p = elim (services.engines name) [
    | none ↦ skip_unknown name p
    | some engine ↦ try_engine request decision name engine p
  ]

  -- The loop over the candidates.
  unfoldable pub try_candidates :
      RunRequest → RoutingDecision → List String → Progress → Io Progress
  unfolding try_candidate
  try_candidates request decision [] p = pure p
  try_candidates request decision (name ∷ names) p = try_candidate request decision name p >>= λ r.
      if r.0 then pure r.1 else try_candidates request decision names r.1
