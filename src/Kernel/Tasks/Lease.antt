-- ===== src/Kernel/Tasks/Lease.antt =====
-- harness2/kernel/tasks.py, TaskRepository.claim, _verify_lease, renew, complete and fail.
use ultimate_harness.Base.{
  ℕ, ◌+◌, ◌*◌, String, Bool, true, false, ◌&&◌, ◌||◌, ◌==◌, ◌=s◌, leb, ltb, max, Option, none, some,
  List, [], ◌∷◌, ◌++◌, any, if◌then◌else◌,
}
use ultimate_harness.Base.Int.{pos}
use ultimate_harness.Base.Result.{Result, ok, err, Tx, pure, require, ◌>>=◌, ◌>>◌}
use ultimate_harness.Text.Codes.{Codes, codes}
use ultimate_harness.Text.Value.{Fields, num, arr, flag, end, field}
use ultimate_harness.Kernel.Events.{EventError, canonical_json, max_event_bytes, option_eq}
use ultimate_harness.Kernel.Tasks.State.{
  TaskState, running, completed, failed, retrying, is_running, is_claimable,
}
use ultimate_harness.Kernel.Tasks.Store.{
  TaskError, invalid_transition, stale_lease, integrity, event_error, TaskRecord, Attempt,
  AttemptState, in_progress, succeeded, unsuccessful, is_live, Db, Fresh, find_task, find_attempt,
  update_attempt, finish_attempt, rows_changed, key_text, key_number, text_value, items_of,
  task_event, emit, record_transition, read_task, write_task, write_attempts,
}
use ultimate_harness.Kernel.Tasks.Control.{state_event, terminal_time}

pub record ExecutionPlan : Type 0 where
  pub plan_id : String
  pub task_id : String
  pub runtime_id : String
  pub capabilities : List String
  pub steps : List String
  pub verification : List String
  pub reason : String

pub record AttemptLease : Type 0 where
  pub attempt_id : String
  pub task_id : String
  pub attempt_no : ℕ
  pub fence_token : ℕ
  pub owner_id : String
  pub lease_until : ℕ
  pub runtime_id : String
  pub plan : ExecutionPlan

-- _plan_dict
unfoldable pub plan_dict : ExecutionPlan → Fields
plan_dict plan = field (codes "plan_id") (text_value plan.plan_id) (
    field (codes "task_id") (text_value plan.task_id) (
      field (codes "runtime_id") (text_value plan.runtime_id) (
        field (codes "capabilities") (arr (items_of plan.capabilities)) (
          field (codes "steps") (arr (items_of plan.steps)) (
            field (codes "verification") (arr (items_of plan.verification))
              (field (codes "reason") (text_value plan.reason) end))))))

abbrev pub from_events {ℓ} : {A : Type ℓ} → Result EventError A → Result TaskError A
from_events (ok a) = ok a
from_events (err x) = err (event_error x)

-- The keys of kernel_task_attempts: `attempt_id`, (task_id, attempt_no), (task_id, fence_token).
abbrev pub collides : Attempt → Attempt → Bool
collides a b =
    a.attempt_id =s b.attempt_id
    || (a.task_id =s b.task_id && (a.attempt_no == b.attempt_no || a.fence_token == b.fence_token))

unfoldable pub insert_attempt : Attempt → Tx TaskError Db (Unit {0})
insert_attempt a db =
    if any (collides a) db.attempts
    then err integrity
    else ok (tt, record db { attempts = db.attempts ++ a ∷ [] })

-- `cur.rowcount` of the statement that `write_task` makes next.
abbrev count_rows : String → ℕ → Tx TaskError Db ℕ
count_rows id revision db = ok (rows_changed id revision db.tasks, db)

abbrev pub new_lease :
    ExecutionPlan
    → (owner_id : String) (lease_seconds now : ℕ) (attempt_id : String) → TaskRecord
    → AttemptLease
new_lease plan owner_id lease_seconds now attempt_id task = record {
  attempt_id = attempt_id;
  task_id = task.task_id;
  attempt_no = task.attempts_started + 1;
  fence_token = task.current_fence + 1;
  owner_id = owner_id;
  lease_until = now + max 1 lease_seconds;
  runtime_id = plan.runtime_id;
  plan = plan;
}

module _ (sha256 : Codes → String) where
  abbrev pub new_attempt : Codes → AttemptLease → ℕ → Attempt
  new_attempt plan_json lease now = record {
    attempt_id = lease.attempt_id;
    task_id = lease.task_id;
    attempt_no = lease.attempt_no;
    fence_token = lease.fence_token;
    state = in_progress;
    owner_id = lease.owner_id;
    lease_until = lease.lease_until;
    runtime_id = lease.runtime_id;
    plan_id = lease.plan.plan_id;
    plan_json = plan_json;
    plan_sha256 = sha256 plan_json;
    started_at = now;
    renewed_at = now;
    finished_at = none;
    outcome_hash = none;
    error_code = none;
  }

  -- The part of `claim` behind its tests: the attempt of `lease` is stored, and the task runs.
  unfoldable pub start_attempt :
      Codes → AttemptLease → ℕ → Fresh → TaskRecord → Tx TaskError Db AttemptLease
  start_attempt plan_json lease now fresh task = do
    insert_attempt (new_attempt plan_json lease now)
    let revision = task.revision + 1
    changed ← count_rows lease.task_id task.revision
    write_task lease.task_id task.revision (λ t. record t {
      state = running;
      attempts_started = lease.attempt_no;
      current_fence = lease.fence_token;
      active_attempt_id = some lease.attempt_id;
      updated_at = now;
      revision = revision;
    })
    require (changed == 1) stale_lease
    event ←
        emit
          (task_event "task.started" lease.task_id none
            (codes lease.task_id
              ++ (key_number ":attempt:" "" lease.attempt_no ++ codes ":started"))
            (field (codes "attempt_id") (text_value lease.attempt_id) (
              field (codes "attempt_no") (num (pos lease.attempt_no)) (
                field (codes "fence_token") (num (pos lease.fence_token)) (
                  field (codes "runtime_id") (text_value lease.runtime_id)
                    (field (codes "plan_id") (text_value lease.plan.plan_id) end)))))
            fresh)
          fresh.clock
    record_transition (record {
      transition_id = fresh.transition_id;
      task_id = lease.task_id;
      attempt_id = some lease.attempt_id;
      from_state = some task.state;
      to_state = running;
      reason_code = "attempt.started";
      event_id = event;
      occurred_at = now;
      revision = revision;
    })
    pure lease

  -- The part of `claim` inside the transaction.
  unfoldable pub claim_encoded :
      (plan_json : Codes) (task_id : String) (plan : ExecutionPlan) (owner_id : String)
      (lease_seconds now : ℕ) (attempt_id : String) (fresh : Fresh)
      → Tx TaskError Db AttemptLease
  unfolding start_attempt
  claim_encoded plan_json task_id plan owner_id lease_seconds now attempt_id fresh = do
    task ← read_task task_id
    require (is_claimable task.state) invalid_transition
    require (leb task.next_run_at now) invalid_transition
    require (ltb task.attempts_started task.max_attempts) invalid_transition
    start_attempt plan_json (new_lease plan owner_id lease_seconds now attempt_id task) now fresh
        task

  -- TaskRepository.claim; `attempt_id` is the identifier that it draws.
  unfoldable pub claim :
      (task_id : String) (plan : ExecutionPlan) (owner_id : String) (lease_seconds now : ℕ)
      (attempt_id : String) (fresh : Fresh)
      → Tx TaskError Db AttemptLease
  unfolding claim_encoded plan_dict
  claim task_id plan owner_id lease_seconds now attempt_id fresh db =
      elim (canonical_json max_event_bytes (plan_dict plan)) [
        | err x ↦ err (event_error x)
        | ok plan_json ↦
            claim_encoded plan_json task_id plan owner_id lease_seconds now attempt_id fresh db
      ]

-- The conditions under which a lease is authoritative.
abbrev pub lease_valid : AttemptLease → ℕ → TaskRecord → Attempt → Bool
lease_valid lease now task attempt =
    is_running task.state
    && option_eq ◌=s◌ task.active_attempt_id (some lease.attempt_id)
    && task.current_fence == lease.fence_token
    && is_live attempt.state
    && attempt.owner_id =s lease.owner_id
    && attempt.fence_token == lease.fence_token
    && leb now attempt.lease_until

-- TaskRepository._verify_lease
unfoldable pub verify_lease : AttemptLease → ℕ → Tx TaskError Db (TaskRecord × Attempt)
verify_lease lease now db = elim (find_task lease.task_id db.tasks) [
  | none ↦ err stale_lease
  | some task ↦ elim (find_attempt lease.attempt_id db.attempts) [
    | none ↦ err stale_lease
    | some attempt ↦
        if lease_valid lease now task attempt then ok ((task, attempt), db) else err stale_lease
  ]
]

-- TaskRepository.renew. `attempt` is the row that renew reads once more; `fresh.clock` dates the event.
unfoldable pub renew : AttemptLease → (lease_seconds now : ℕ) → Fresh → Tx TaskError Db AttemptLease
renew lease lease_seconds now fresh = do
  found ← verify_lease lease now
  let until = max found.1.lease_until (now + max 1 lease_seconds)
  write_attempts
      (update_attempt lease.attempt_id (λ a. record a { lease_until = until; renewed_at = now }))
  event ←
      emit
        (task_event "task.lease.renewed" lease.task_id none
          (key_number lease.attempt_id ":renew:" (now * 1000))
          (field (codes "attempt_id") (text_value lease.attempt_id)
            (field (codes "fence_token") (num (pos lease.fence_token)) end))
          fresh)
        fresh.clock
  pure (record lease { lease_until = until })

-- The state in which `complete` leaves the task.
abbrev pub completion : (success retryable : Bool) → TaskRecord → TaskState
completion success retryable task =
    if success
    then completed
    else if retryable && ltb task.attempts_started task.max_attempts
    then retrying
    else failed

abbrev pub attempt_outcome : Bool → AttemptState
attempt_outcome true = succeeded
attempt_outcome false = unsuccessful

abbrev pub time_or : ℕ → Option ℕ → ℕ
time_or now none = now
time_or now (some t) = t

abbrev pub text_or_empty : Option String → String
text_or_empty none = ""
text_or_empty (some s) = s

-- TaskRepository.complete
unfoldable pub complete :
    AttemptLease
    → (success : Bool) (outcome_hash : String) (error_code : Option String) (retryable : Bool)
      (retry_at : Option ℕ) (now : ℕ) (fresh : Fresh)
    → Tx TaskError Db TaskRecord
complete lease success outcome_hash error_code retryable retry_at now fresh = do
  found ← verify_lease lease now
  let task = found.0
  let target = completion success retryable task
  write_attempts (
      finish_attempt lease.attempt_id (λ a. record a {
        state = attempt_outcome success;
        finished_at = some now;
        outcome_hash = some outcome_hash;
        error_code = error_code;
      }))
  let revision = task.revision + 1
  write_task task.task_id task.revision (λ t. record t {
    state = target;
    active_attempt_id = none;
    next_run_at = time_or now retry_at;
    result_hash = if success then some outcome_hash else none;
    error_code = error_code;
    updated_at = now;
    terminal_at = terminal_time target now;
    revision = revision;
  })
  event ←
      emit
        (task_event (state_event target) task.task_id none (key_text lease.attempt_id ":completed")
          (field (codes "attempt_id") (text_value lease.attempt_id) (
            field (codes "attempt_no") (num (pos lease.attempt_no)) (
              field (codes "fence_token") (num (pos lease.fence_token)) (
                field (codes "success") (flag success) (
                  field (codes "outcome_hash") (text_value outcome_hash)
                    (field (codes "error_code") (text_value (text_or_empty error_code)) end))))))
          fresh)
        fresh.clock
  record_transition (record {
    transition_id = fresh.transition_id;
    task_id = task.task_id;
    attempt_id = some lease.attempt_id;
    from_state = some task.state;
    to_state = target;
    reason_code = "attempt.completed";
    event_id = event;
    occurred_at = now;
    revision = revision;
  })
  read_task task.task_id

-- TaskRepository.fail
unfoldable pub fail :
    (sha256 : Codes → String)
    → AttemptLease
    → (error_code : String) (retryable : Bool) (retry_at : Option ℕ) (now : ℕ) (fresh : Fresh)
    → Tx TaskError Db TaskRecord
unfolding complete
fail sha256 lease error_code retryable retry_at now fresh =
    complete lease false (sha256 (codes "failure:" ++ codes error_code)) (some error_code) retryable
      retry_at now fresh
