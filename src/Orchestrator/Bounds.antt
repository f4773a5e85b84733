-- ===== src/Orchestrator/Bounds.antt =====
-- How many calls a run makes.
use ultimate_harness.Base.{
  ℕ, zero, suc, ◌+◌, ◌*◌, ◌≤◌, String, ◌≡◌, Bool, true, false, length, Option, none, some, List, [],
  ◌∷◌, arith, if◌then◌else◌,
}
use ultimate_harness.Base.Int.{pos_part}
use ultimate_harness.Base.Result.{Result, ok, err}
use ultimate_harness.Base.Io.{pure, ◌>>=◌, and_then, Keeps}
use ultimate_harness.Text.Codes.{codes}
use ultimate_harness.Policy.Decide.{RunRequest, RoutingDecision}
use ultimate_harness.Orchestrator.{
  EngineResult, EngineAdapter, RunError, Call, HarnessState, Services, Io,
}
use ultimate_harness.Orchestrator.Route.{
  Progress, decision_for, routed_request, breaker_key, is_transient, route_candidates,
}
use ultimate_harness.Orchestrator.Attempts.{
  answered, audit, breaker_before, call_engine, retry_attempts, attempts, settle, skip_open,
  skip_unknown, try_engine, try_candidate, try_candidates,
}
use ultimate_harness.Orchestrator.Run.{
  not_attempted, dry_result, selected_metadata, finish_run, execute, run_decided, prepare, run,
}
use ultimate_harness.Orchestrator.Attempts.Keeps.{
  Closed, audit-Keeps, settle-Keeps, skip_open-Keeps, skip_unknown-Keeps,
}
use ultimate_harness.Orchestrator.Keeps.{finish_run-Keeps}

-- At most so many calls.
abbrev Costs : {A : Type 0} → ℕ → Io A → Type 0
Costs k m = (s : HarnessState) → length (m s).1.calls ≤ length s.calls + k

>>=-Costs :
    {A B : Type 0} (k l : ℕ) (m : Io A) (f : A → Io B)
    → Costs k m
    → ((a : A) → Costs l (f a))
    → Costs (k + l) (m >>= f)
>>=-Costs {A} {B} k l m f hm hf s = go (m s) (hm s)
  where
    go :
        (r : Result RunError A × HarnessState)
        → length r.1.calls ≤ length s.calls + k
        → length (and_then f r).1.calls ≤ length s.calls + (k + l)
    go (ok a, t) h = omega (arith, hf a t)
    go (err e, t) h = omega arith

if-Costs :
    {A : Type 0} (k : ℕ) (b : Bool) (m n : Io A)
    → Costs k m
    → Costs k n
    → Costs k (if b then m else n)
if-Costs k true m n hm hn = hm
if-Costs k false m n hm hn = hn

Costs-weaken : {A : Type 0} (k l : ℕ) (m : Io A) → k ≤ l → Costs k m → Costs l m
Costs-weaken k l m le h s = omega (arith, h s)

-- No call is allowed.
abbrev Never : Call → Type 0
Never call = ⊥

abbrev AtMost : ℕ → HarnessState → Type 0
AtMost n s = length s.calls ≤ n

module _ (services : Services) where
  AtMost-Closed : (n : ℕ) → Closed services Never (AtMost n)
  AtMost-Closed n = record {
    ticked = λ s k q. q;
    logged = λ s event subject metadata digest log k h q. q;
    switched = λ s circuits k q. q;
    stored = λ s runs q. q;
    called = λ s call k a q. absurd a;
  }

  quiet : {A : Type 0} (m : Io A) → ((n : ℕ) → Keeps (AtMost n) m) → Costs 0 m
  quiet m h s = omega (arith, h (length s.calls) s (omega arith))

  call_engine-Costs :
      (name : String) (engine : EngineAdapter) (routed : RunRequest)
      → Costs 1 (call_engine services name engine routed)
  unfolding call_engine
  call_engine-Costs name engine routed s = go (engine.answer s.ticks routed)
    where
      s' : HarnessState
      s' = record s {
        calls = (record { engine = name; request = routed }) ∷ s.calls;
        ticks = s.ticks + 1;
      }

      go : (r : Option EngineResult) → length (answered services r s').1.calls ≤ length s.calls + 1
      go none = omega arith
      go (some result) = omega arith

  retry_attempts-Costs :
      (name : String) (engine : EngineAdapter) (routed : RunRequest) (left attempt : ℕ)
      (result : EngineResult)
      → Costs left (retry_attempts services name engine routed left attempt result)
  unfolding retry_attempts
  retry_attempts-Costs name engine routed zero attempt result = λ s. omega arith
  retry_attempts-Costs name engine routed (suc left) attempt result =
      if-Costs (suc left) (is_transient result)
        (call_engine services name engine routed
          >>= retry_attempts services name engine routed left (attempt + 1))
        (pure (result, attempt))
        (Costs-weaken (1 + left) (suc left)
          (call_engine services name engine routed
            >>= retry_attempts services name engine routed left (attempt + 1))
          (omega arith)
          (>>=-Costs 1 left (call_engine services name engine routed)
            (retry_attempts services name engine routed left (attempt + 1))
            (call_engine-Costs name engine routed)
            (λ r. retry_attempts-Costs name engine routed left (attempt + 1) r)))
        (λ s. omega arith)

  attempts-Costs :
      (request : RunRequest) (name : String) (engine : EngineAdapter) (routed : RunRequest)
      → Costs (1 + pos_part request.retries) (attempts services request name engine routed)
  unfolding attempts
  attempts-Costs request name engine routed =
      >>=-Costs 1 (pos_part request.retries) (call_engine services name engine routed)
        (retry_attempts services name engine routed (pos_part request.retries) 0)
        (call_engine-Costs name engine routed)
        (λ r. retry_attempts-Costs name engine routed (pos_part request.retries) 0 r)

  try_engine-Costs :
      (request : RunRequest) (decision : RoutingDecision) (name : String) (engine : EngineAdapter)
      (p : Progress)
      → Costs (1 + pos_part request.retries) (try_engine services request decision name engine p)
  unfolding try_engine breaker_before
  try_engine-Costs request decision name engine p =
      let current = decision_for decision p.last name in
      let key = breaker_key name request current in
      let asked = attempts services request name engine (routed_request request current name) in
      let cost = 1 + pos_part request.retries in
      Costs-weaken (0 + cost) cost (try_engine services request decision name engine p)
        (omega arith)
        (>>=-Costs 0 cost (breaker_before services key)
          (λ view.
            if view.allowed
            then (asked >>= settle services request current name key p)
            else skip_open services name p view)
          (λ s. omega arith)
          (λ view.
            if-Costs cost view.allowed (asked >>= settle services request current name key p)
              (skip_open services name p view)
              (Costs-weaken (cost + 0) cost (asked >>= settle services request current name key p)
                (omega arith)
                (>>=-Costs cost 0 asked (settle services request current name key p)
                  (attempts-Costs request name engine (routed_request request current name))
                  (λ r. quiet (settle services request current name key p r) (λ n.
                    settle-Keeps services Never (AtMost n) (AtMost-Closed n) request current name
                      key p r))))
              (Costs-weaken 0 cost (skip_open services name p view) (omega arith) (
                quiet (skip_open services name p view)
                  (λ n. skip_open-Keeps services Never (AtMost n) (AtMost-Closed n) name p view)))))

  try_candidate-Costs :
      (request : RunRequest) (decision : RoutingDecision) (name : String) (p : Progress)
      → Costs (1 + pos_part request.retries) (try_candidate services request decision name p)
  unfolding try_candidate
  try_candidate-Costs request decision name p =
      elim (services.engines name)
        as (λ e. Costs (1 + pos_part request.retries) (elim e [
          | none ↦ skip_unknown services name p
          | some engine ↦ try_engine services request decision name engine p
        ])) [
          | none ↦
              Costs-weaken 0 (1 + pos_part request.retries) (skip_unknown services name p)
                (omega arith)
                (quiet (skip_unknown services name p)
                  (λ n. skip_unknown-Keeps services Never (AtMost n) (AtMost-Closed n) name p))
          | some engine ↦ try_engine-Costs request decision name engine p
        ]

  try_candidates-Costs :
      (request : RunRequest) (decision : RoutingDecision) (names : List String) (p : Progress)
      → Costs
          (length names * (1 + pos_part request.retries))
          (try_candidates services request decision names p)
  unfolding try_candidates
  try_candidates-Costs request decision [] p = λ s. omega arith
  try_candidates-Costs request decision (name ∷ names) p =
      let cost = 1 + pos_part request.retries in
      Costs-weaken (cost + length names * cost) (suc (length names) * cost)
        (try_candidates services request decision (name ∷ names) p) (grind arith)
        (>>=-Costs cost (length names * cost) (try_candidate services request decision name p)
          (λ r. if r.0 then pure r.1 else try_candidates services request decision names r.1)
          (try_candidate-Costs request decision name p)
          (λ r.
            if-Costs (length names * cost) r.0 (pure r.1)
              (try_candidates services request decision names r.1) (λ s. omega arith)
              (try_candidates-Costs request decision names r.1)))

  execute-Costs :
      (request : RunRequest) (decision : RoutingDecision) (started : ℕ)
      → Costs
          (length (route_candidates request decision) * (1 + pos_part request.retries))
          (execute services request decision started)
  unfolding execute
  execute-Costs request decision started =
      let names = route_candidates request decision in
      let cost = length names * (1 + pos_part request.retries) in
      if-Costs cost request.dry_run (pure (decision, dry_result services request decision, ""))
        (try_candidates services request decision names (not_attempted services decision)
          >>= finish_run services request started)
        (λ s. omega arith)
        (Costs-weaken (cost + 0) cost
          (try_candidates services request decision names (not_attempted services decision)
            >>= finish_run services request started)
          (omega arith)
          (>>=-Costs cost 0
            (try_candidates services request decision names (not_attempted services decision))
            (finish_run services request started)
            (try_candidates-Costs request decision names (not_attempted services decision))
            (λ p. quiet (finish_run services request started p) (λ n.
              finish_run-Keeps services Never (AtMost n) (AtMost-Closed n) request started p))))

  run_decided-Costs :
      (request : RunRequest) (decision : RoutingDecision)
      → Costs
          (length (route_candidates request decision) * (1 + pos_part request.retries))
          (run_decided services request decision)
  unfolding run_decided
  run_decided-Costs request decision s =
      let metadata = selected_metadata services request decision in
      let cost = length (route_candidates request decision) * (1 + pos_part request.retries) in
      let first = audit services "route.selected" (codes decision.engine) metadata in
      let rest = execute services request decision (services.clock s.ticks) in
      Costs-weaken (0 + cost) cost (first >>= λ u. rest) (omega arith)
        (>>=-Costs 0 cost first (λ u. rest)
          (quiet first (λ n.
            audit-Keeps services Never (AtMost n) (AtMost-Closed n) "route.selected"
              (codes decision.engine) metadata))
          (λ u. execute-Costs request decision (services.clock s.ticks)))
        (record s { ticks = s.ticks + 1 })

  -- A run makes at most one call and the allowed retries for each engine of its route, whatever the
  -- engines answer; a negative number of retries counts as none.
  pub run_calls_bounded :
      (request prepared : RunRequest) (decision : RoutingDecision) (s : HarnessState)
      → prepare services request ≡ ok (prepared, decision)
      → length (run services request s).1.calls
        ≤ length s.calls
          + length (route_candidates prepared decision) * (1 + pos_part prepared.retries)
  unfolding run
  run_calls_bounded request prepared decision s e = rw e (run_decided-Costs prepared decision s)
