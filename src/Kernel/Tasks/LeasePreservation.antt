-- ===== src/Kernel/Tasks/LeasePreservation.antt =====
-- renew and claim keep the invariant.
use ultimate_harness.Base.{
  ℕ, ◌+◌, String, ◌≡◌, refl, ap, sym, ◌∙◌, inl, inr, true, false, ◌=s◌, Bool-cases, max, any,
  Option-cases, is_some, Option, none, some, List, [], ◌∷◌, arith, eq_iff,
}
use ultimate_harness.Base.Result.{ok}
use ultimate_harness.Base.Table.{find}
use ultimate_harness.Text.Codes.{Codes}
use ultimate_harness.Kernel.Tasks.State.{is_claimable}
use ultimate_harness.Kernel.Tasks.Store.{
  TaskRecord, Attempt, is_live, Db, Fresh, find_task, find_attempt,
}
use ultimate_harness.Kernel.Tasks.Lease.{AttemptLease, ExecutionPlan, claim, collides, renew}
use ultimate_harness.Kernel.Tasks.Effects.{started}
use ultimate_harness.Kernel.Tasks.LeaseEffects.{renewed, renew_effect}
use ultimate_harness.Kernel.Tasks.Frames.{task_id-find}
use ultimate_harness.Kernel.Tasks.Invariant.{TaskOk, Inv, Inv-rewrite}
use ultimate_harness.Kernel.Tasks.Puts.{
  Put, task_at, update_task-Put, update_attempt-Put, insert_attempt-Put,
}
use ultimate_harness.Kernel.Tasks.Preservation.{same_task}
use ultimate_harness.Kernel.Tasks.ClaimEffects.{claim_effect}

Put-same : {V : Type 0} (k : String) (v : V) (f : String → Option V) → f k ≡ some v → Put k v f f
Put-same k v f e j = elim (Bool-cases (k =s j)) [
  | inl y ↦ rw y (ap f (sym ((eq_iff k j).0 y)) ∙ e)
  | inr n ↦ rw n refl
]

pub renew-Inv :
    (lease : AttemptLease) (seconds now : ℕ) (fresh : Fresh) (db db' : Db) (r : AttemptLease)
    → Inv db
    → renew lease seconds now fresh db ≡ ok (r, db')
    → Inv db'
renew-Inv lease seconds now fresh db db' r v h =
    let (t, a₀, ok₀, tasks, attempts, granted) = renew_effect lease seconds now fresh db db' r h in
    let (a, fa, holds) = v.held lease.task_id t lease.attempt_id ok₀.found_task ok₀.active in
    let b = renewed (max a₀.lease_until (now + max 1 seconds)) now in
    Inv-rewrite db db' lease.task_id lease.attempt_id t (b a) v
      (λ j. ap (find_task j) tasks ∙ Put-same lease.task_id t (task_at db) ok₀.found_task j)
      (update_attempt-Put db db' lease.attempt_id a b fa (λ x. refl) attempts)
      (record {
        good = v.each lease.task_id t ok₀.found_task;
        of_task = holds.of_task;
        bounded = omega (arith, holds.fence);
        authority = λ l. (ok₀.active, holds.fence);
        only = λ x e. (cc (ok₀.active, e), holds.live);
      })
      (λ t' f'.
        let e = same_task lease.task_id db t t' ok₀.found_task f' in
        (
          λ x ex. cc (ap (λ (y : TaskRecord). y.active_attempt_id) e, ex, ok₀.active),
          omega (arith, ap (λ (y : TaskRecord). y.current_fence) e),
        ))
      (λ a' f'. cc (fa, f', holds.of_task))

pub any-none :
    (a : Attempt) (attempts : List Attempt)
    → any (collides a) attempts ≡ false
    → find_attempt a.attempt_id attempts ≡ none
unfolding find_attempt find
any-none a [] h = refl
any-none a (x ∷ xs) h =
    ground
      (arith, any-none a xs, eq_iff a.attempt_id x.attempt_id, eq_iff x.attempt_id a.attempt_id)

claimable-idle :
    (t : TaskRecord) → TaskOk t → is_claimable t.state ≡ true → t.active_attempt_id ≡ none
claimable-idle t good c = elim (Option-cases t.active_attempt_id) [
  | inl n ↦ n
  | inr (a, s) ↦ absurd (ground (arith, good.active_runs a s))
]

claimed-dated :
    (t : TaskRecord) → TaskOk t → is_claimable t.state ≡ true → is_some t.terminal_at ≡ false
claimed-dated t good c = good.dated ∙ ground arith

pub claim-Inv :
    (sha256 : Codes → String) (id : String) (plan : ExecutionPlan) (owner : String)
    (seconds now : ℕ) (aid : String) (fresh : Fresh) (db db' : Db) (lease : AttemptLease)
    → Inv db
    → claim sha256 id plan owner seconds now aid fresh db ≡ ok (lease, db')
    → Inv db'
claim-Inv sha256 id plan owner seconds now aid fresh db db' lease v h =
    let c = claim_effect sha256 id plan owner seconds now aid fresh db db' lease h in
    let t = c.task in
    let b = c.attempt in
    let u = started aid now t t in
    let good = v.each id t c.found in
    let n = claimable-idle t good c.claimable in
    let none_before : find_attempt aid db.attempts ≡ none =
      rw (← c.identity) (any-none b db.attempts c.fresh) in
    Inv-rewrite db db' id aid u b v
      (update_task-Put db db' id t (started aid now t) c.found (λ x. refl) c.tasks)
      (insert_attempt-Put db db' aid b c.identity none_before c.attempts)
      (record {
        good = record {
          active_runs = λ x e. refl;
          budget = omega (arith, c.budget);
          fence = omega (arith, good.fence);
          dated = claimed-dated t good c.claimable;
        };
        of_task = c.of_task ∙ task_id-find id db.tasks t c.found;
        bounded = omega (arith, c.fence);
        authority = λ l. (refl, c.fence);
        only = λ x e. (cc, ap is_live c.live);
      })
      (λ t' f'.
        let e = same_task id db t t' c.found f' in
        (
          λ x ex. absurd (cc (ap (λ (y : TaskRecord). y.active_attempt_id) e, ex, n)),
          omega (arith, ap (λ (y : TaskRecord). y.current_fence) e),
        ))
      (λ a' f'. absurd (cc (none_before, f')))
