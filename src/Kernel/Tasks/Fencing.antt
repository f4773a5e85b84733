-- ===== src/Kernel/Tasks/Fencing.antt =====
-- What a lease is worth before and after the operations: _verify_lease over claim, renew, complete and cancel.
use ultimate_harness.Base.{
  ℕ, ◌+◌, ◌≤◌, ◌<◌, String, ◌≡◌, refl, ap, sym, ◌∙◌, inl, inr, true, false, ◌&&◌, ◌==◌, max,
  Option-cases, none, some, arith, eq_refl,
}
use ultimate_harness.Base.Result.{ok, err}
use ultimate_harness.Text.Codes.{Codes}
use ultimate_harness.Kernel.Tasks.State.{is_running}
use ultimate_harness.Kernel.Tasks.Store.{
  TaskRecord, Attempt, is_live, Db, Fresh, stale_lease, find_task, find_attempt,
}
use ultimate_harness.Kernel.Tasks.Lease.{
  ExecutionPlan, AttemptLease, lease_valid, verify_lease, claim,
}
use ultimate_harness.Kernel.Tasks.Effects.{started}
use ultimate_harness.Kernel.Tasks.LeaseEffects.{Verified}
use ultimate_harness.Kernel.Tasks.ClaimEffects.{claim_effect}
use ultimate_harness.Kernel.Tasks.Frames.{task_id-find}
use ultimate_harness.Kernel.Tasks.Puts.{
  Put-self, task_at, attempt_at, update_task-Put, insert_attempt-Put,
}
use ultimate_harness.Kernel.Tasks.LeasePreservation.{any-none}

-- A lease is refused when its task does not run, or runs under another fence.
pub refused :
    (lease : AttemptLease) (now : ℕ) (db : Db) (t : TaskRecord)
    → find_task lease.task_id db.tasks ≡ some t
    → (is_running t.state && t.current_fence == lease.fence_token) ≡ false
    → verify_lease lease now db ≡ err stale_lease
unfolding verify_lease
refused lease now db t f h = elim (Option-cases (find_attempt lease.attempt_id db.attempts)) [
  | inl n ↦ ground arith
  | inr (a, fa) ↦ ground arith
]

-- The tests of `lease_valid` are what `Verified` lists.
Verified-valid :
    (lease : AttemptLease) (now : ℕ) (db : Db) (t : TaskRecord) (a : Attempt)
    → Verified lease now db t a
    → lease_valid lease now t a ≡ true
Verified-valid lease now db t a v = ground (
  arith,
  v.running,
  v.active,
  v.fence,
  v.live,
  v.owner,
  v.attempt_fence,
  v.in_time,
  eq_refl lease.attempt_id,
  eq_refl lease.owner_id,
)

pub accepted :
    (lease : AttemptLease) (now : ℕ) (db : Db) (t : TaskRecord) (a : Attempt)
    → Verified lease now db t a
    → verify_lease lease now db ≡ ok ((t, a), db)
unfolding verify_lease
accepted lease now db t a v =
    let valid = Verified-valid lease now db t a v in
    let ft = v.found_task in let fa = v.found_attempt in ground arith

module _ (sha256 : Codes → String) where
  -- After a claim of a task, every lease on the task with a smaller fence is refused, at any time.
  pub claim-outdates :
      (id : String) (plan : ExecutionPlan) (owner : String) (seconds now : ℕ) (aid : String)
      (fresh : Fresh) (db db' : Db) (lease : AttemptLease) (old : AttemptLease) (later : ℕ)
      → claim sha256 id plan owner seconds now aid fresh db ≡ ok (lease, db')
      → old.task_id ≡ id
      → old.fence_token < lease.fence_token
      → verify_lease old later db' ≡ err stale_lease
  claim-outdates id plan owner seconds now aid fresh db db' lease old later h same less =
      let c = claim_effect sha256 id plan owner seconds now aid fresh db db' lease h in
      let u = started aid now c.task c.task in
      let at =
        Put-self id u (task_at db) (task_at db')
          (update_task-Put db db' id c.task (started aid now c.task) c.found (λ x. refl) c.tasks) in
      let fence = ap (λ (l : AttemptLease). l.fence_token) c.granted in
      refused old later db' u (rw same at) (ground arith)

  -- The lease that a claim returns is verified from then until it ends.
  pub claim-verifies :
      (id : String) (plan : ExecutionPlan) (owner : String) (seconds now : ℕ) (aid : String)
      (fresh : Fresh) (db db' : Db) (lease : AttemptLease) (later : ℕ)
      → claim sha256 id plan owner seconds now aid fresh db ≡ ok (lease, db')
      → later ≤ now + max 1 seconds
      → (t : TaskRecord) × (a : Attempt) × (verify_lease lease later db' ≡ ok ((t, a), db'))
  claim-verifies id plan owner seconds now aid fresh db db' lease later h soon =
      let c = claim_effect sha256 id plan owner seconds now aid fresh db db' lease h in
      let u = started aid now c.task c.task in
      let none_before : find_attempt aid db.attempts ≡ none =
        rw (← c.identity) (any-none c.attempt db.attempts c.fresh) in
      let at =
        Put-self id u (task_at db) (task_at db')
          (update_task-Put db db' id c.task (started aid now c.task) c.found (λ x. refl) c.tasks) in
      let running_at =
        Put-self aid c.attempt (attempt_at db) (attempt_at db')
          (insert_attempt-Put db db' aid c.attempt c.identity none_before c.attempts) in
      let named =
        ap (λ (l : AttemptLease). l.task_id) c.granted ∙ task_id-find id db.tasks c.task c.found in
      let attempt = ap (λ (l : AttemptLease). l.attempt_id) c.granted in
      let fence = ap (λ (l : AttemptLease). l.fence_token) c.granted in
      (
        u,
        c.attempt,
        accepted lease later db' u c.attempt (record {
          found_task = rw named at;
          found_attempt = rw attempt running_at;
          running = refl;
          active = ap some (sym attempt);
          fence = sym fence;
          live = ap is_live c.live;
          owner = c.owned_by ∙ sym (ap (λ (l : AttemptLease). l.owner_id) c.granted);
          attempt_fence = c.fence ∙ sym fence;
          in_time = omega (arith, soon, c.until);
        }),
      )
