-- ===== src/Kernel/Tasks/Cancel.antt =====
-- harness2/kernel/tasks.py, TaskRepository.cancel and retry.
use ultimate_harness.Base.{ℕ, ◌+◌, String, not, ltb, Option, none, some}
use ultimate_harness.Base.Result.{Tx, pure, raise, require, ◌>>=◌, ◌>>◌}
use ultimate_harness.Kernel.Tasks.State.{
  cancelled, failed, retrying, is_terminal, is_failed, is_allowed,
}
use ultimate_harness.Kernel.Tasks.Store.{
  TaskError, invalid_transition, stale_lease, TaskRecord, AttemptState, Db, Fresh, finish_attempt,
  key_number, task_event, emit, record_transition, read_task, write_task, write_attempts,
}
use ultimate_harness.Kernel.Tasks.Control.{moved_payload}
use ultimate_harness.Kernel.Tasks.Lease.{AttemptLease, verify_lease}

-- The attempt of an active task is cancelled under the lease that the caller shows.
unfoldable pub stop_attempt : Option String → Option AttemptLease → ℕ → Tx TaskError Db (Unit {0})
stop_attempt none lease now = pure tt
stop_attempt (some attempt_id) none now = raise stale_lease
stop_attempt (some attempt_id) (some lease) now = do
  found ← verify_lease lease now
  write_attempts (
      finish_attempt attempt_id (λ a. record a {
        state = AttemptState.cancelled;
        finished_at = some now;
        error_code = some "task_cancelled";
      }))

-- TaskRepository.cancel
unfoldable pub cancel :
    (task_id : String) → Option AttemptLease → ℕ → Fresh → Tx TaskError Db TaskRecord
unfolding stop_attempt
cancel task_id lease now fresh = do
  task ← read_task task_id
  require (not (is_terminal task.state)) invalid_transition
  require (is_allowed task.state cancelled) invalid_transition
  stop_attempt task.active_attempt_id lease now
  let revision = task.revision + 1
  write_task task_id task.revision (λ t. record t {
    state = cancelled;
    active_attempt_id = none;
    error_code = some "task_cancelled";
    updated_at = now;
    terminal_at = some now;
    revision = revision;
  })
  event ←
      emit
        (task_event "task.cancelled" task_id none (key_number task_id ":revision:" revision)
          (moved_payload task.state cancelled "user.cancelled") fresh)
        fresh.clock
  record_transition (record {
    transition_id = fresh.transition_id;
    task_id = task_id;
    attempt_id = task.active_attempt_id;
    from_state = some task.state;
    to_state = cancelled;
    reason_code = "user.cancelled";
    event_id = event;
    occurred_at = now;
    revision = revision;
  })
  read_task task_id

-- TaskRepository.retry
unfoldable pub retry : (task_id : String) → ℕ → Fresh → Tx TaskError Db TaskRecord
retry task_id now fresh = do
  task ← read_task task_id
  require (is_failed task.state) invalid_transition
  require (ltb task.attempts_started task.max_attempts) invalid_transition
  let revision = task.revision + 1
  write_task task_id task.revision (λ t. record t {
    state = retrying;
    next_run_at = now;
    error_code = none;
    updated_at = now;
    terminal_at = none;
    revision = revision;
  })
  event ←
      emit
        (task_event "task.retrying" task_id none (key_number task_id ":revision:" revision)
          (moved_payload failed retrying "user.retry") fresh)
        fresh.clock
  record_transition (record {
    transition_id = fresh.transition_id;
    task_id = task_id;
    attempt_id = none;
    from_state = some task.state;
    to_state = retrying;
    reason_code = "user.retry";
    event_id = event;
    occurred_at = now;
    revision = revision;
  })
  read_task task_id
