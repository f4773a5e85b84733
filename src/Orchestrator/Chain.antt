-- ===== src/Orchestrator/Chain.antt =====
-- The audit log over a run.
use mathlib.Core.List.{append-nil, append_assoc}
use ultimate_harness.Base.{
  ℕ, ◌+◌, ◌≡◌, sym, ap, ◌∙◌, true, none, List, [], ◌∷◌, ◌++◌, length, length-append, All-every,
  arith,
}
use ultimate_harness.Audit.{AuditRow, verify_audit}
use ultimate_harness.Audit.Chain.{append_audit-verifies, append_audit-rows}
use ultimate_harness.Policy.Decide.{RunRequest}
use ultimate_harness.Orchestrator.{Call, HarnessState, Services}
use ultimate_harness.Orchestrator.Run.{run}
use ultimate_harness.Orchestrator.Attempts.Keeps.{Closed}
use ultimate_harness.Orchestrator.Keeps.{run-Keeps}

abbrev Anything : Call → Type 0
Anything call = Unit {0}

module _ (services : Services) (n : ℕ) (rows : List AuditRow) where
  -- The log verifies and is the rows with some more behind them.
  abbrev Extended : HarnessState → Type 0
  Extended s =
      (more : List AuditRow) × (s.audit.rows ≡ rows ++ more)
      × (verify_audit services.hash services.stamp s.audit ≡ (true, n + length more, none))

  Extended-Closed : Closed services Anything Extended
  Extended-Closed = record {
    ticked = λ s k q. q;
    logged = λ s event subject metadata digest log k h (more, grown, v).
        let (row, e) =
          append_audit-rows services.hash services.stamp services.redact_codes event subject
            metadata (services.clock s.ticks) s.audit log digest h in
        (
          more ++ row ∷ [],
          e ∙ ap (λ xs. xs ++ row ∷ []) grown ∙ append_assoc rows more (row ∷ []),
          append_audit-verifies services.hash services.stamp services.redact_codes event subject
                metadata (services.clock s.ticks) (n + length more) s.audit log digest v h
              ∙ ap (λ m. (true, m, none)) (omega (arith, length-append more (row ∷ []))),
        );
    switched = λ s circuits k q. q;
    stored = λ s runs q. q;
    called = λ s call k a q. q;
  }

-- A run that starts with an audit log that verifies ends with one that verifies and that has the
-- entries of the first, unchanged and in their order, before those it wrote; whatever the engines
-- answer and also where it ends with an exception.
pub run-keeps_audit_chain :
    (services : Services) (n : ℕ) (request : RunRequest) (s : HarnessState)
    → verify_audit services.hash services.stamp s.audit ≡ (true, n, none)
    → let s' = (run services request s).1 in
      (more : List AuditRow) × (s'.audit.rows ≡ s.audit.rows ++ more)
      × (verify_audit services.hash services.stamp s'.audit ≡ (true, n + length more, none))
run-keeps_audit_chain services n request s v =
    run-Keeps services Anything (Extended services n s.audit.rows)
      (Extended-Closed services n s.audit.rows) request
      (λ prepared decision e d. All-every _ _ (λ name last. tt)) s
      ([], sym (append-nil s.audit.rows), v ∙ ap (λ m. (true, m, none)) (omega arith))
