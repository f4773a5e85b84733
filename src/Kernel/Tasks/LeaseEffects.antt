-- ===== src/Kernel/Tasks/LeaseEffects.antt =====
-- What each operation under a lease has done to the tables of tasks and attempts.
use ultimate_harness.Base.{
  ℕ, ◌+◌, ◌≤◌, String, ◌≡◌, refl, ap, sym, subst, ◌∙◌, inl, inr, Bool, true, not, max, Option-cases,
  Option, none, some, List, arith, eq_iff,
}
use ultimate_harness.Base.Result.{ok, Tx, ◌>>=◌, >>=-eq-ok}
use ultimate_harness.Kernel.Tasks.State.{cancelled, is_running, is_terminal, is_allowed}
use ultimate_harness.Kernel.Tasks.Store.{
  TaskError, invalid_transition, TaskRecord, Attempt, AttemptState, is_live, Db, Fresh, find_task,
  find_attempt, update_task, finish_attempt, update_attempt, emit,
}
use ultimate_harness.Kernel.Tasks.Lease.{
  AttemptLease, lease_valid, verify_lease, renew, attempt_outcome, complete,
}
use ultimate_harness.Kernel.Tasks.Cancel.{stop_attempt, cancel}
use ultimate_harness.Kernel.Tasks.Effects.{Wrote, called_off, finished, closed}
use ultimate_harness.Kernel.Tasks.Frames.{read-then, require-then, journal_effect, emit-SameTables}

-- What a lease that passed `_verify_lease` says of the tables.
pub record Verified (lease : AttemptLease) (now : ℕ) (db : Db) (task : TaskRecord)
    (attempt : Attempt) : Type 0 where
  pub found_task : find_task lease.task_id db.tasks ≡ some task
  pub found_attempt : find_attempt lease.attempt_id db.attempts ≡ some attempt
  pub running : is_running task.state ≡ true
  pub active : task.active_attempt_id ≡ some lease.attempt_id
  pub fence : task.current_fence ≡ lease.fence_token
  pub live : is_live attempt.state ≡ true
  pub owner : attempt.owner_id ≡ lease.owner_id
  pub attempt_fence : attempt.fence_token ≡ lease.fence_token
  pub in_time : now ≤ attempt.lease_until

Verified-intro :
    (lease : AttemptLease) (now : ℕ) (db : Db) (task : TaskRecord) (attempt : Attempt)
    → find_task lease.task_id db.tasks ≡ some task
    → find_attempt lease.attempt_id db.attempts ≡ some attempt
    → lease_valid lease now task attempt ≡ true
    → Verified lease now db task attempt
Verified-intro lease now db task attempt ft fa h = record {
  found_task = ft;
  found_attempt = fa;
  running = ground arith;
  active = elim (Option-cases task.active_attempt_id) [
    | inl n ↦ ground arith
    | inr (a, s) ↦ ground (arith, eq_iff a lease.attempt_id)
  ];
  fence = ground arith;
  live = ground arith;
  owner = ground (arith, eq_iff attempt.owner_id lease.owner_id);
  attempt_fence = ground arith;
  in_time = ground arith;
}

pub verify_lease-Verified :
    (lease : AttemptLease) (now : ℕ) (db db' : Db) (task : TaskRecord) (attempt : Attempt)
    → verify_lease lease now db ≡ ok ((task, attempt), db')
    → Verified lease now db task attempt × (db' ≡ db)
unfolding verify_lease
verify_lease-Verified lease now db db' task attempt h =
    elim (Option-cases (find_task lease.task_id db.tasks)) [
      | inl n ↦ absurd (ground arith)
      | inr (t, ft) ↦ elim (Option-cases (find_attempt lease.attempt_id db.attempts)) [
        | inl n ↦ absurd (ground arith)
        | inr (a, fa) ↦ (
          Verified-intro lease now db task attempt (ground arith) (ground arith) (ground arith),
          ground arith,
        )
      ]
    ]

-- Inversion of a block that begins with the verification of a lease.
pub verify-then :
    {A : Type 0} (lease : AttemptLease) (now : ℕ) (f : TaskRecord × Attempt → Tx TaskError Db A)
    (db db' : Db) {r : A}
    → (verify_lease lease now >>= f) db ≡ ok (r, db')
    → (t : TaskRecord) × (a : Attempt) × Verified lease now db t a × (f (t, a) db ≡ ok (r, db'))
verify-then lease now f db db' h =
    let (ta, same, found, rest) = >>=-eq-ok (verify_lease lease now) f db h in
    let (v, stays) = verify_lease-Verified lease now db same ta.0 ta.1 found in
    (ta.0, ta.1, v, rw stays at rest)

pub complete_effect :
    (lease : AttemptLease) (success : Bool) (outcome : String) (error : Option String)
    (retryable : Bool) (retry_at : Option ℕ) (now : ℕ) (fresh : Fresh) (db db' : Db)
    (r : TaskRecord)
    → complete lease success outcome error retryable retry_at now fresh db ≡ ok (r, db')
    → (t : TaskRecord) × (a : Attempt) × Verified lease now db t a
      × (db'.tasks
          ≡ update_task t.task_id t.revision
              (finished success outcome error retryable retry_at now t)
              db.tasks)
      × (db'.attempts
          ≡ finish_attempt lease.attempt_id
              (closed (attempt_outcome success) now (some outcome) error)
              db.attempts)
      × (find_task t.task_id db'.tasks ≡ some r)
unfolding complete
complete_effect lease success outcome error retryable retry_at now fresh db db' r h =
    let (t, a, v, h₁) = verify-then lease now _ db db' h in
    let (same, last) = journal_effect _ _ _ _ _ db' r h₁ in
    (t, a, v, same.tasks, same.attempts, rw same.tasks last)

abbrev pub stopped : ℕ → Attempt → Attempt
stopped now a = record a {
  state = AttemptState.cancelled;
  finished_at = some now;
  error_code = some "task_cancelled";
}

-- The two ways in which `cancel` treats an attempt.
pub data Stopped (lease : Option AttemptLease) (now : ℕ) (task : TaskRecord) (db : Db)
    (attempts : List Attempt) : Type 0 where
  idle : task.active_attempt_id ≡ none → attempts ≡ db.attempts → Stopped lease now task db attempts
  under :
      (id : String) (l : AttemptLease) (t : TaskRecord) (a : Attempt)
      → task.active_attempt_id ≡ some id
      → lease ≡ some l
      → Verified l now db t a
      → attempts ≡ finish_attempt id (stopped now) db.attempts
      → Stopped lease now task db attempts

stop_attempt-Stopped :
    (active : Option String) (lease : Option AttemptLease) (now : ℕ) (task : TaskRecord)
    (db db' : Db) (u : Unit {0})
    → task.active_attempt_id ≡ active
    → stop_attempt active lease now db ≡ ok (u, db')
    → Stopped lease now task db db'.attempts × (db'.tasks ≡ db.tasks)
unfolding stop_attempt
stop_attempt-Stopped none lease now task db db' u e h = (idle e (ground arith), ground arith)
stop_attempt-Stopped (some id) none now task db db' u e h = cc
stop_attempt-Stopped (some id) (some l) now task db db' u e h =
    let (t, a, v, h₁) = verify-then l now _ db db' h in
    (under id l t a e refl v (ground arith), ground arith)

pub cancel_effect :
    (id : String) (lease : Option AttemptLease) (now : ℕ) (fresh : Fresh) (db db' : Db)
    (r : TaskRecord)
    → cancel id lease now fresh db ≡ ok (r, db')
    → (w : Wrote id (called_off now) db db' r) × (is_allowed w.task.state cancelled ≡ true)
      × Stopped lease now w.task db db'.attempts
unfolding cancel
cancel_effect id lease now fresh db db' r h =
    let (t, found, h₁) = read-then id _ db db' h in
    let (ongoing, h₂) = require-then (not (is_terminal t.state)) invalid_transition _ db db' h₁ in
    let (allowed, h₃) =
      require-then (is_allowed t.state cancelled) invalid_transition _ db db' h₂ in
    let (u, db₁, halt, h₄) = >>=-eq-ok (stop_attempt t.active_attempt_id lease now) _ db h₃ in
    let (st, stays) = stop_attempt-Stopped t.active_attempt_id lease now t db db₁ u refl halt in
    let (same, last) = journal_effect _ _ _ _ _ db' r h₄ in
    (
      record {
        task = t;
        found = found;
        tasks = same.tasks ∙ ap (update_task id t.revision (called_off now t)) stays;
        reread = rw same.tasks last;
      },
      allowed,
      subst (Stopped lease now t db) (sym same.attempts) st,
    )

abbrev pub renewed : ℕ → ℕ → Attempt → Attempt
renewed until now a = record a { lease_until = until; renewed_at = now }

pub renew_effect :
    (lease : AttemptLease) (seconds now : ℕ) (fresh : Fresh) (db db' : Db) (r : AttemptLease)
    → renew lease seconds now fresh db ≡ ok (r, db')
    → (t : TaskRecord) × (a : Attempt) × Verified lease now db t a
      × (db'.tasks ≡ db.tasks)
      × (db'.attempts
          ≡ update_attempt lease.attempt_id
              (renewed (max a.lease_until (now + max 1 seconds)) now)
              db.attempts)
      × (r ≡ record lease { lease_until = max a.lease_until (now + max 1 seconds) })
unfolding renew
renew_effect lease seconds now fresh db db' r h =
    let (t, a, v, h₁) = verify-then lease now _ db db' h in
    let (event, db₁, he, h₂) = >>=-eq-ok (emit _ fresh.clock) _ _ h₁ in
    let same = emit-SameTables _ fresh.clock _ db₁ event he in
    let stays : db₁ ≡ db' = cc in (t, a, v, rw (← stays) same.tasks, rw (← stays) same.attempts, cc)
