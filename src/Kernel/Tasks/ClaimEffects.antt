-- ===== src/Kernel/Tasks/ClaimEffects.antt =====
-- What `claim` has done to the tables of tasks and attempts.
use ultimate_harness.Base.{
  ℕ, ◌+◌, ◌≤◌, ◌<◌, String, ◌≡◌, refl, ap, ◌∙◌, inl, inr, true, false, ◌==◌, leb, ltb, ltb→lt,
  leb→le, max, Bool-cases, any, some, [], ◌∷◌, ◌++◌, arith,
}
use ultimate_harness.Base.Result.{Result, ok, err, Tx, ◌>>◌, >>=-eq-ok}
use ultimate_harness.Text.Codes.{Codes}
use ultimate_harness.Kernel.Events.{EventError, canonical_json, max_event_bytes}
use ultimate_harness.Kernel.Tasks.State.{TaskState, is_claimable}
use ultimate_harness.Kernel.Tasks.Store.{
  TaskError, invalid_transition, stale_lease, TaskRecord, Attempt, in_progress, Db, Fresh,
  find_task, update_task, rows_changed, emit, record_transition,
}
use ultimate_harness.Kernel.Tasks.Lease.{
  AttemptLease, ExecutionPlan, collides, insert_attempt, new_attempt, new_lease, start_attempt,
  claim_encoded, claim, plan_dict,
}
use ultimate_harness.Kernel.Tasks.Effects.{started}
use ultimate_harness.Kernel.Tasks.Frames.{
  task_id-find, read-then, require-then, emit-SameTables, SameTables-trans,
  record_transition-SameTables,
}

-- What `claim` did: the tests that passed, and the rows that it wrote.
pub record Claimed (id : String) (plan : ExecutionPlan) (owner : String) (seconds now : ℕ)
    (aid : String) (db db' : Db) (lease : AttemptLease) : Type 0 where
  pub task : TaskRecord
  pub attempt : Attempt
  pub found : find_task id db.tasks ≡ some task
  pub claimable : is_claimable task.state ≡ true
  pub due : task.next_run_at ≤ now
  pub budget : task.attempts_started < task.max_attempts
  pub granted : lease ≡ new_lease plan owner seconds now aid task
  pub identity : attempt.attempt_id ≡ aid
  pub of_task : attempt.task_id ≡ task.task_id
  pub owned_by : attempt.owner_id ≡ owner
  pub fence : attempt.fence_token ≡ task.current_fence + 1
  pub live : attempt.state ≡ in_progress
  pub until : attempt.lease_until ≡ now + max 1 seconds
  pub fresh : any (collides attempt) db.attempts ≡ false
  pub tasks : db'.tasks ≡ update_task id task.revision (started aid now task) db.tasks
  pub attempts : db'.attempts ≡ db.attempts ++ attempt ∷ []

insert_attempt-ok :
    (a : Attempt) (db db' : Db) (u : Unit {0})
    → insert_attempt a db ≡ ok (u, db')
    → (any (collides a) db.attempts ≡ false)
      × (db' ≡ record db { attempts = db.attempts ++ a ∷ [] })
unfolding insert_attempt
insert_attempt-ok a db db' u h = elim (Bool-cases (any (collides a) db.attempts)) [
  | inl c ↦ absurd (ground arith)
  | inr f ↦ (f, ground arith)
]

insert_attempt-then :
    {A : Type 0} (a : Attempt) (k : Tx TaskError Db A) (db db' : Db) {r : A}
    → (insert_attempt a >> k) db ≡ ok (r, db')
    → (any (collides a) db.attempts ≡ false)
      × (k (record db { attempts = db.attempts ++ a ∷ [] }) ≡ ok (r, db'))
insert_attempt-then a k db db' h =
    let (u, db₁, ok₁, rest) = >>=-eq-ok (insert_attempt a) (λ _. k) db h in
    let (free, grown) = insert_attempt-ok a db db₁ u ok₁ in (free, rw grown at rest)

module _ (sha256 : Codes → String) where
  start_attempt_effect :
      (plan_json : Codes) (lease : AttemptLease) (now : ℕ) (fresh : Fresh) (task : TaskRecord)
      (db db' : Db) (r : AttemptLease)
      → start_attempt sha256 plan_json lease now fresh task db ≡ ok (r, db')
      → let a = new_attempt sha256 plan_json lease now in
        (any (collides a) db.attempts ≡ false)
        × (db'.tasks
            ≡ update_task lease.task_id task.revision
                (λ t. record t {
                  state = TaskState.running;
                  attempts_started = lease.attempt_no;
                  current_fence = lease.fence_token;
                  active_attempt_id = some lease.attempt_id;
                  updated_at = now;
                  revision = task.revision + 1;
                })
                db.tasks)
        × (db'.attempts ≡ db.attempts ++ a ∷ [])
        × (r ≡ lease)
  unfolding start_attempt
  start_attempt_effect plan_json lease now fresh task db db' r h =
      let (new, h₁) = insert_attempt-then (new_attempt sha256 plan_json lease now) _ db db' h in
      let (one, h₂) =
        require-then (rows_changed lease.task_id task.revision db.tasks == 1) stale_lease _ _ db'
          h₁ in
      let (event, db₁, he, h₃) = >>=-eq-ok (emit _ fresh.clock) _ _ h₂ in
      let (u, db₂, ht, h₄) = >>=-eq-ok (record_transition _) _ db₁ h₃ in
      let same =
        SameTables-trans (emit-SameTables _ fresh.clock _ db₁ event he)
          (record_transition-SameTables _ db₁ db₂ u ht) in
      let stays : db₂ ≡ db' = cc in (new, rw (← stays) same.tasks, rw (← stays) same.attempts, cc)

  claim_encoded_effect :
      (plan_json : Codes) (id : String) (plan : ExecutionPlan) (owner : String) (seconds now : ℕ)
      (aid : String) (fresh : Fresh) (db db' : Db) (r : AttemptLease)
      → claim_encoded sha256 plan_json id plan owner seconds now aid fresh db ≡ ok (r, db')
      → Claimed id plan owner seconds now aid db db' r
  unfolding claim_encoded
  claim_encoded_effect plan_json id plan owner seconds now aid fresh db db' r h =
      let (t, found, h₁) = read-then id _ db db' h in
      let (can, h₂) = require-then (is_claimable t.state) invalid_transition _ db db' h₁ in
      let (due, h₃) = require-then (leb t.next_run_at now) invalid_transition _ db db' h₂ in
      let (left, h₄) =
        require-then (ltb t.attempts_started t.max_attempts) invalid_transition _ db db' h₃ in
      let lease = new_lease plan owner seconds now aid t in
      let (new, tasks, attempts, granted) =
        start_attempt_effect plan_json lease now fresh t db db' r h₄ in
      record {
        task = t;
        attempt = new_attempt sha256 plan_json lease now;
        found = found;
        claimable = can;
        due = leb→le _ _ due;
        budget = ltb→lt _ _ left;
        granted = granted;
        identity = refl;
        of_task = refl;
        owned_by = refl;
        fence = refl;
        live = refl;
        until = refl;
        fresh = new;
        tasks =
            tasks
            ∙ ap (λ i. update_task i t.revision (started aid now t) db.tasks)
                (task_id-find id db.tasks t found);
        attempts = attempts;
      }

  pub claim_effect :
      (id : String) (plan : ExecutionPlan) (owner : String) (seconds now : ℕ) (aid : String)
      (fresh : Fresh) (db db' : Db) (r : AttemptLease)
      → claim sha256 id plan owner seconds now aid fresh db ≡ ok (r, db')
      → Claimed id plan owner seconds now aid db db' r
  unfolding claim
  claim_effect id plan owner seconds now aid fresh db db' r h =
      go (canonical_json max_event_bytes (plan_dict plan)) refl
    where
      go :
          (e : Result EventError Codes)
          → canonical_json max_event_bytes (plan_dict plan) ≡ e
          → Claimed id plan owner seconds now aid db db' r
      go (ok plan_json) e =
          claim_encoded_effect plan_json id plan owner seconds now aid fresh db db' r
            (rw (e, claim) at h)
      go (err x) e = absurd (ground arith)
