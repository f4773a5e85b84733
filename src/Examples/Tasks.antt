-- ===== src/Examples/Tasks.antt =====
-- The theorems on tasks, applied to the runs.
use ultimate_harness.Base.{
  ◌+◌, ◌≤◌, String, ◌≡◌, ◌⊎◌, All, refl, true, false, max, none, some, arith,
}
use ultimate_harness.Base.Result.{ok, err}
use ultimate_harness.Kernel.Tasks.Store.{TaskRecord, Attempt, stale_lease, find_task}
use ultimate_harness.Kernel.Tasks.Submit.{submit}
use ultimate_harness.Kernel.Tasks.Lease.{verify_lease, new_attempt}
use ultimate_harness.Kernel.Tasks.Cancel.{cancel}
use ultimate_harness.Kernel.Tasks.Invariant.{Inv}
use ultimate_harness.Kernel.Tasks.Steps.{
  Step, submits, prepares, claims, completes, Reach, here, after, new_db, Reach-Inv,
  one_running_attempt,
}
use ultimate_harness.Kernel.Tasks.Fencing.{claim-outdates, claim-verifies}
use ultimate_harness.Kernel.Tasks.Ending.{
  complete-outdates, cancel-outdates, renew-extends, cancel_same_lease,
}
use ultimate_harness.Kernel.Tasks.Final.{final_tasks_stay}
use ultimate_harness.Kernel.Tasks.State.{recovering, failed}
use ultimate_harness.Kernel.Tasks.Overdue.{IsOverdue, HasOverdue}
use ultimate_harness.Kernel.Tasks.Recovered.{recover_expired-empties}
use ultimate_harness.Kernel.Tasks.Resubmit.{submit_idempotent}
use ultimate_harness.Examples.Runs.{
  hash, request, submission, fresh, prepare_fresh, plan, state_of, value_of, no_task, no_lease,
  submitted, prepared, lease, running_db, runs, plan_text, running_attempt, running_task, lease_on,
  attempt_on, both_db, completed, renewed, cancelled, done_task, done_db, both_done, blocks, leases,
  done_there, lease_fence, recovery, recovery_returns,
}

run_to_prepare : Reach hash (state_of prepared)
run_to_prepare =
    after (state_of submitted) (state_of prepared)
      (after new_db (state_of submitted) here (
        submits request submission 0 (fresh "e0" "t0") new_db (state_of submitted)
          (value_of no_task submitted) runs.0))
      (prepares "a" 1 prepare_fresh (state_of submitted) (state_of prepared)
        (value_of no_task prepared) runs.1)

claimed_next : Step hash (state_of prepared) running_db
claimed_next =
    claims "a" plan "worker" 60 2 "x" (fresh "e3" "t3") (state_of prepared) running_db lease runs.2

run_to_claim : Reach hash running_db
run_to_claim = after (state_of prepared) running_db run_to_prepare claimed_next

Reach-Inv_example : Inv running_db
Reach-Inv_example = Reach-Inv hash running_db run_to_claim

one_running_attempt_example : ◌≡◌ {A = String} "x" "x"
one_running_attempt_example =
    let a = new_attempt hash (plan_text running_db.attempts) lease 2 in
    one_running_attempt hash running_db run_to_claim "x" "x" a a running_attempt running_attempt
      refl refl refl

claim-outdates_example :
    verify_lease (record no_lease { task_id = "a"; fence_token = 0 }) 7 running_db ≡ err stale_lease
claim-outdates_example =
    claim-outdates hash "a" plan "worker" 60 2 "x" (fresh "e3" "t3") (state_of prepared) running_db
      lease (record no_lease { task_id = "a"; fence_token = 0 }) 7 runs.2 refl
      (omega (arith, lease_fence))

claim-verifies_example :
    (t : TaskRecord) × (a : Attempt) × (verify_lease lease 62 running_db ≡ ok ((t, a), running_db))
claim-verifies_example =
    claim-verifies hash "a" plan "worker" 60 2 "x" (fresh "e3" "t3") (state_of prepared) running_db
      lease 62 runs.2 (ground arith)

complete-outdates_example : verify_lease (lease_on "a" "x") 4 (state_of completed) ≡ err stale_lease
complete-outdates_example =
    complete-outdates (lease_on "a" "x") true "out" none false none 3 (fresh "e4" "t4") both_db
      (state_of completed) (value_of no_task completed) (lease_on "a" "x") 4 blocks.0 refl

submit_idempotent_example :
    submit hash request submission 9 (fresh "e9" "t9") (state_of submitted)
    ≡ ok (value_of no_task submitted, state_of submitted)
submit_idempotent_example =
    submit_idempotent hash request submission 0 9 (fresh "e0" "t0") (fresh "e9" "t9") new_db
      (state_of submitted) (value_of no_task submitted) runs.0

renew-extends_example :
    (10 + max 1 100 ≤ (value_of no_lease renewed).lease_until)
    × ((u : TaskRecord) × (b : Attempt) × (verify_lease
            (value_of no_lease renewed)
            (value_of no_lease renewed).lease_until
            (state_of renewed)
          ≡ ok ((u, b), state_of renewed)))
    × ((u : TaskRecord) × (b : Attempt) × (verify_lease
            (value_of no_lease renewed)
            5
            (state_of renewed)
          ≡ ok ((u, b), state_of renewed)))
renew-extends_example =
    renew-extends (lease_on "a" "x") 100 10 (fresh "e4" "t4") both_db (state_of renewed)
      (value_of no_lease renewed) 5 (running_task "a" "x") (attempt_on "a" "x") blocks.1 leases.0

cancel_same_lease_example :
    cancel "a" (some (lease_on "a" "x")) 5 (fresh "f9" "u9") both_db
    ≡ cancel "a" (some (lease_on "b" "y")) 5 (fresh "f9" "u9") both_db
cancel_same_lease_example =
    cancel_same_lease "a" (lease_on "a" "x") (lease_on "b" "y") 5 (fresh "f9" "u9")
      (running_task "a" "x", attempt_on "a" "x") (running_task "b" "y", attempt_on "b" "y") both_db
      leases.0 leases.1

cancel-outdates_example : verify_lease (lease_on "a" "x") 6 (state_of cancelled) ≡ err stale_lease
cancel-outdates_example =
    cancel-outdates "a" (some (lease_on "b" "y")) 5 (fresh "f9" "u9") both_db (state_of cancelled)
      (value_of no_task cancelled) (lease_on "a" "x") 6 blocks.2 refl

final_tasks_stay_example : find_task "a" (state_of both_done).tasks ≡ some done_task
final_tasks_stay_example =
    final_tasks_stay hash done_db (state_of both_done) "a" done_task
      (completes (lease_on "b" "y") true "out" none false none 3 (fresh "e4" "t4") done_db
        (state_of both_done) (value_of no_task both_done) blocks.3)
      done_there refl

recover_expired-empties_example :
    All (λ a. ¬ IsOverdue 100 (state_of recovery) a) (state_of recovery).attempts
    × ((find_task "a" (state_of recovery).tasks ≡ find_task "a" running_db.tasks)
        ⊎ (HasOverdue 100 running_db running_db.attempts "a"
            × ((w : TaskRecord) × (find_task "a" (state_of recovery).tasks ≡ some w)
                × ((w.state ≡ recovering) ⊎ (w.state ≡ failed))
                × (w.active_attempt_id ≡ none))))
recover_expired-empties_example =
    recover_expired-empties hash 100 10 (λ n. fresh "e9" "t9") running_db (state_of recovery) 1 "a"
      run_to_claim (omega (arith, recovery_returns.1)) recovery_returns.0
