-- ===== src/Kernel/Tasks/Steps.antt =====
-- The runs of the task tables: sequences of operations that return, from an empty database.
use ultimate_harness.Base.{ℕ, String, ◌≡◌, ap, Bool, true, false, ◌++◌, Option, some, []}
use ultimate_harness.Base.Result.{ok}
use ultimate_harness.Text.Codes.{Codes, codes}
use ultimate_harness.Kernel.Events.{empty}
use ultimate_harness.Kernel.Tasks.State.{TaskState}
use ultimate_harness.Kernel.Tasks.Store.{
  TaskRecord, Attempt, Db, Fresh, find_task, find_attempt, is_live,
}
use ultimate_harness.Kernel.Tasks.Submit.{ExecutionRequest, Submission, submit}
use ultimate_harness.Kernel.Tasks.Control.{transition, prepare}
use ultimate_harness.Kernel.Tasks.Lease.{ExecutionPlan, AttemptLease, claim, renew, complete, fail}
use ultimate_harness.Kernel.Tasks.Cancel.{cancel, retry}
use ultimate_harness.Kernel.Tasks.Recovery.{recover_expired}
use ultimate_harness.Kernel.Tasks.RecoveryQuery.{recover_expired-Inv}
use ultimate_harness.Kernel.Tasks.Invariant.{Inv}
use ultimate_harness.Kernel.Tasks.Preservation.{transition-Inv, retry-Inv, complete-Inv, cancel-Inv}
use ultimate_harness.Kernel.Tasks.LeasePreservation.{renew-Inv, claim-Inv}
use ultimate_harness.Kernel.Tasks.SubmitEffects.{submit-Inv, prepare-Inv}

-- An operation of a caller that returned. One that raises rolls back and leaves the database as it was.
pub data Step (sha256 : Codes → String) : Db → Db → Type 0 where
  submits :
      (q : ExecutionRequest) (s : Submission) (now : ℕ) (fresh : Fresh) (db db' : Db)
      (r : TaskRecord)
      → submit sha256 q s now fresh db ≡ ok (r, db')
      → Step sha256 db db'
  moves :
      (id : String) (to : TaskState) (reason : String) (causation : Option String) (now : ℕ)
      (fresh : Fresh) (db db' : Db) (r : TaskRecord)
      → transition id to reason causation now fresh db ≡ ok (r, db')
      → Step sha256 db db'
  prepares :
      (id : String) (now : ℕ) (fresh : ℕ → Fresh) (db db' : Db) (r : TaskRecord)
      → prepare id now fresh db ≡ ok (r, db')
      → Step sha256 db db'
  claims :
      (id : String) (plan : ExecutionPlan) (owner : String) (seconds now : ℕ) (aid : String)
      (fresh : Fresh) (db db' : Db) (r : AttemptLease)
      → claim sha256 id plan owner seconds now aid fresh db ≡ ok (r, db')
      → Step sha256 db db'
  renews :
      (lease : AttemptLease) (seconds now : ℕ) (fresh : Fresh) (db db' : Db) (r : AttemptLease)
      → renew lease seconds now fresh db ≡ ok (r, db')
      → Step sha256 db db'
  completes :
      (lease : AttemptLease) (success : Bool) (outcome : String) (error : Option String)
      (retryable : Bool) (retry_at : Option ℕ) (now : ℕ) (fresh : Fresh) (db db' : Db)
      (r : TaskRecord)
      → complete lease success outcome error retryable retry_at now fresh db ≡ ok (r, db')
      → Step sha256 db db'
  fails :
      (lease : AttemptLease) (error : String) (retryable : Bool) (retry_at : Option ℕ) (now : ℕ)
      (fresh : Fresh) (db db' : Db) (r : TaskRecord)
      → fail sha256 lease error retryable retry_at now fresh db ≡ ok (r, db')
      → Step sha256 db db'
  cancels :
      (id : String) (lease : Option AttemptLease) (now : ℕ) (fresh : Fresh) (db db' : Db)
      (r : TaskRecord)
      → cancel id lease now fresh db ≡ ok (r, db')
      → Step sha256 db db'
  retries :
      (id : String) (now : ℕ) (fresh : Fresh) (db db' : Db) (r : TaskRecord)
      → retry id now fresh db ≡ ok (r, db')
      → Step sha256 db db'
  recovers :
      (now limit : ℕ) (fresh : ℕ → Fresh) (db db' : Db) (n : ℕ)
      → recover_expired now limit fresh db ≡ ok (n, db')
      → Step sha256 db db'

-- The tables of a new database.
abbrev pub new_db : Db
new_db = record { tasks = []; attempts = []; transitions = []; bus = empty; legacy = [] }

-- The databases that steps reach from a new one.
pub data Reach (sha256 : Codes → String) : Db → Type 0 where
  here : Reach sha256 new_db
  after : (db db' : Db) → Reach sha256 db → Step sha256 db db' → Reach sha256 db'

new_db-Inv : Inv new_db
unfolding find_task find_attempt
new_db-Inv = record {
  each = λ id t f. absurd (cc f);
  owned = λ aid a f. absurd (cc f);
  held = λ id t aid f e. absurd (cc f);
}

module _ (sha256 : Codes → String) where
  Step-Inv : (db db' : Db) → Step sha256 db db' → Inv db → Inv db'
  unfolding fail
  Step-Inv _ _ (submits q s now fresh db db' r h) v = submit-Inv sha256 q s now fresh db db' r v h
  Step-Inv _ _ (moves id to reason causation now fresh db db' r h) v =
      transition-Inv id to reason causation now fresh db db' r v h
  Step-Inv _ _ (prepares id now fresh db db' r h) v = prepare-Inv id now fresh db db' r v h
  Step-Inv _ _ (claims id plan owner seconds now aid fresh db db' r h) v =
      claim-Inv sha256 id plan owner seconds now aid fresh db db' r v h
  Step-Inv _ _ (renews lease seconds now fresh db db' r h) v =
      renew-Inv lease seconds now fresh db db' r v h
  Step-Inv _ _ (completes lease success outcome error retryable retry_at now fresh db db' r h) v =
      complete-Inv lease success outcome error retryable retry_at now fresh db db' r v h
  Step-Inv _ _ (fails lease error retryable retry_at now fresh db db' r h) v =
      complete-Inv lease false (sha256 (codes "failure:" ++ codes error)) (some error) retryable
        retry_at now fresh db db' r v h
  Step-Inv _ _ (cancels id lease now fresh db db' r h) v =
      cancel-Inv id lease now fresh db db' r v h
  Step-Inv _ _ (retries id now fresh db db' r h) v = retry-Inv id now fresh db db' r v h
  Step-Inv _ _ (recovers now limit fresh db db' n h) v =
      (recover_expired-Inv now limit fresh db db' n v h).0

  -- Every database that a sequence of operations reaches from a new one satisfies the invariant: a
  -- task with an active attempt is running, the attempt is there under the fence of the task, no
  -- fence of an attempt is above its task's, the attempts stay within the budget, and the end of a
  -- task is dated exactly in a terminal state.
  pub Reach-Inv : (db : Db) → Reach sha256 db → Inv db
  Reach-Inv _ here = new_db-Inv
  Reach-Inv _ (after db db' run step) = Step-Inv db db' step (Reach-Inv db run)

  -- In a database that a sequence of operations reached, two attempts of one task that both run are
  -- the same attempt.
  pub one_running_attempt :
      (db : Db)
      → Reach sha256 db
      → (x y : String) (a b : Attempt) → find_attempt x db.attempts ≡ some a
      → find_attempt y db.attempts ≡ some b
      → a.task_id ≡ b.task_id
      → is_live a.state ≡ true
      → is_live b.state ≡ true
      → x ≡ y
  one_running_attempt db run x y a b fa fb same la lb =
      let v = Reach-Inv db run in
      let (t, ft, o) = v.owned x a fa in
      let (u, fu, p) = v.owned y b fb in
      let e : t ≡ u = cc (ap (λ i. find_task i db.tasks) same) in
      cc ((o.authority la).0, (p.authority lb).0, ap (λ (z : TaskRecord). z.active_attempt_id) e)
