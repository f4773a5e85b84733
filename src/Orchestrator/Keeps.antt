-- ===== src/Orchestrator/Keeps.antt =====
-- What a run keeps of the state, whatever the engines answer and whether or not it ends with an
-- exception.
use ultimate_harness.Base.{
  ℕ, ◌+◌, String, ◌≡◌, refl, false, Bool-cases, inl, inr, any, All, List, ◌=s◌,
}
use ultimate_harness.Base.Result.{Result, ok, err}
use ultimate_harness.Base.Io.{pure, ◌>>=◌, ◌>>◌, Keeps, >>=-Keeps, if-Keeps, answer-Keeps}
use ultimate_harness.Text.Codes.{Codes, codes}
use ultimate_harness.Policy.TaskText.{PolicyRefusal}
use ultimate_harness.Policy.Decide.{RunRequest, RoutingDecision}
use ultimate_harness.Orchestrator.{EngineResult, RunRow, Call, HarnessState, Services}
use ultimate_harness.Orchestrator.Route.{Progress, route_candidates, route_metadata}
use ultimate_harness.Orchestrator.Attempts.{audit, try_candidates}
use ultimate_harness.Orchestrator.Run.{
  not_attempted, insert_run, write_run, run_row, run_metadata, record_run, with_route, dry_result,
  audit_completed, finish_run, execute, selected_metadata, run_decided, run_prepared, prepare, run,
}
use ultimate_harness.Orchestrator.Attempts.Keeps.{
  Closed, Askable, audit-Keeps, try_candidates-Keeps,
}

module _ (services : Services) (Allowed : Call → Type 0) (Q : HarnessState → Type 0)
    (closed : Closed services Allowed Q) where
  insert_run-Keeps : (row : RunRow) → Keeps Q (insert_run services row)
  unfolding insert_run
  insert_run-Keeps row s q = elim (Bool-cases (any (λ r. r.id =s row.id) s.runs)) [
    | inl e ↦ rw e q
    | inr e ↦ rw e (closed.stored s _ q)
  ]

  write_run-Keeps :
      (row : RunRow) (metadata : List (Codes × Codes)) → Keeps Q (write_run services row metadata)
  unfolding write_run
  write_run-Keeps row metadata =
      >>=-Keeps Q (insert_run services row)
        (λ u. audit services "run.completed" (codes row.id) metadata) (insert_run-Keeps row)
        (λ u. audit-Keeps services Allowed Q closed "run.completed" (codes row.id) metadata)

  record_run-Keeps :
      (request : RunRequest) (decision : RoutingDecision) (result : EngineResult) (started : ℕ)
      → Keeps Q (record_run services request decision result started)
  unfolding record_run
  record_run-Keeps request decision result started s q =
      let id = services.new_id s.ticks in
      let s₁ = record s { ticks = s.ticks + 1 } in
      let finished = services.clock s₁.ticks in
      let s₂ = record s₁ { ticks = s₁.ticks + 1 } in
      let row = run_row services request decision result started finished id in
      let metadata = run_metadata services request decision result in
      answer-Keeps Q (write_run services row metadata) id (write_run-Keeps row metadata) s₂
        (closed.ticked s₁ (s₁.ticks + 1) (closed.ticked s (s.ticks + 1) q))

  pub finish_run-Keeps :
      (request : RunRequest) (started : ℕ) (p : Progress)
      → Keeps Q (finish_run services request started p)
  unfolding finish_run audit_completed
  finish_run-Keeps request started p =
      let route = route_metadata request p.chosen p.tried in
      let last = with_route services p.last route in
      >>=-Keeps Q (record_run services request p.chosen last started)
        (λ run_id. audit_completed services route run_id >> pure (p.chosen, last, run_id))
        (record_run-Keeps request p.chosen last started)
        (λ run_id.
          answer-Keeps {A = RoutingDecision × EngineResult × String} Q
            (audit_completed services route run_id) (p.chosen, last, run_id)
            (if-Keeps Q (run_id =s "") (pure tt)
              (audit services "route.completed" (codes run_id) (services.render_route route))
              (λ s q. q)
              (λ e.
                audit-Keeps services Allowed Q closed "route.completed" (codes run_id)
                  (services.render_route route))))

  execute-Keeps :
      (request : RunRequest) (decision : RoutingDecision) (started : ℕ)
      → (request.dry_run ≡ false
          → All (Askable Allowed request decision) (route_candidates request decision))
      → Keeps Q (execute services request decision started)
  unfolding execute
  execute-Keeps request decision started a =
      if-Keeps Q request.dry_run (pure (decision, dry_result services request decision, ""))
        (try_candidates services request decision (route_candidates request decision)
            (not_attempted services decision)
          >>= finish_run services request started)
        (λ s q. q)
        (λ e.
          >>=-Keeps Q
            (try_candidates services request decision (route_candidates request decision)
              (not_attempted services decision))
            (finish_run services request started)
            (try_candidates-Keeps services Allowed Q closed request decision
              (route_candidates request decision) (not_attempted services decision) (a e))
            (finish_run-Keeps request started))

  run_decided-Keeps :
      (request : RunRequest) (decision : RoutingDecision)
      → (request.dry_run ≡ false
          → All (Askable Allowed request decision) (route_candidates request decision))
      → Keeps Q (run_decided services request decision)
  unfolding run_decided
  run_decided-Keeps request decision a s q =
      let started = services.clock s.ticks in
      >>=-Keeps Q
        (audit services "route.selected" (codes decision.engine)
          (selected_metadata services request decision))
        (λ u. execute services request decision started)
        (audit-Keeps services Allowed Q closed "route.selected" (codes decision.engine)
          (selected_metadata services request decision))
        (λ u. execute-Keeps request decision started a) (record s { ticks = s.ticks + 1 })
        (closed.ticked s (s.ticks + 1) q)

  pub run-Keeps :
      (request : RunRequest)
      → ((prepared : RunRequest) (decision : RoutingDecision)
          → prepare services request ≡ ok (prepared, decision)
          → prepared.dry_run ≡ false
          → All (Askable Allowed prepared decision) (route_candidates prepared decision))
      → Keeps Q (run services request)
  unfolding run
  run-Keeps request a = go (prepare services request) refl
    where
      go :
          (r : Result PolicyRefusal (RunRequest × RoutingDecision))
          → prepare services request ≡ r
          → Keeps Q (run_prepared services r)
      go (err x) e = λ s q. q
      go (ok (prepared, decision)) e = run_decided-Keeps prepared decision (a prepared decision e)
