-- ===== src/Kernel/Tasks/Control.antt =====
-- harness2/kernel/tasks.py, TaskRepository.transition, prepare, cancel and retry.
use Prim.Native.String
use ultimate_harness.Base.{
  ℕ, ◌+◌, String, Bool, true, false, not, Option, none, some, is_some, if◌then◌else◌,
}
use ultimate_harness.Base.Result.{Tx, pure, require, ◌>>=◌, ◌>>◌}
use ultimate_harness.Text.Codes.{codes}
use ultimate_harness.Text.Value.{Fields, end, field}
use ultimate_harness.Kernel.Tasks.State.{
  TaskState, planned, ready, created, blocked, state_value, is_terminal, is_running, is_allowed,
}
use ultimate_harness.Kernel.Tasks.Store.{
  TaskError, invalid_transition, TaskRecord, Db, Fresh, key_number, text_value, task_event, emit,
  record_transition, read_task, write_task,
}

abbrev pub moved_payload : TaskState → TaskState → String → Fields
moved_payload from to reason = field (codes "from") (text_value (state_value from)) (
    field (codes "to") (text_value (state_value to))
      (field (codes "reason_code") (text_value reason) end))

-- `timestamp if to_state in TERMINAL_STATES else None`
abbrev pub terminal_time : TaskState → ℕ → Option ℕ
terminal_time state now = if is_terminal state then some now else none

-- f"task.{to_state.value}"
abbrev pub state_event : TaskState → String
state_event to = String.◌++◌ "task." (state_value to)

-- TaskRepository.transition
unfoldable pub transition :
    (task_id : String)
    → TaskState
    → (reason_code : String) → Option String
    → ℕ
    → Fresh
    → Tx TaskError Db TaskRecord
transition task_id to reason causation now fresh = do
  current ← read_task task_id
  require (not (is_some current.active_attempt_id)) invalid_transition
  require (is_allowed current.state to) invalid_transition
  let revision = current.revision + 1
  write_task task_id current.revision (λ t. record t {
    state = to;
    active_attempt_id = if is_running to then current.active_attempt_id else none;
    updated_at = now;
    terminal_at = terminal_time to now;
    revision = revision;
  })
  event ←
      emit
        (task_event (state_event to) task_id causation (key_number task_id ":revision:" revision)
          (moved_payload current.state to reason) fresh)
        fresh.clock
  record_transition (record {
    transition_id = fresh.transition_id;
    task_id = task_id;
    attempt_id = current.active_attempt_id;
    from_state = some current.state;
    to_state = to;
    reason_code = reason;
    event_id = event;
    occurred_at = now;
    revision = revision;
  })
  read_task task_id

abbrev pub is_created : TaskState → Bool
is_created created = true
is_created _ = false

abbrev pub is_planned : TaskState → Bool
is_planned planned = true
is_planned _ = false

abbrev pub is_blocked : TaskState → Bool
is_blocked blocked = true
is_blocked _ = false

-- `if task.state == …: task = self.transition(…)`
abbrev pub step_if :
    Bool
    → (to : TaskState) → (reason : String) → ℕ
    → Fresh
    → TaskRecord
    → Tx TaskError Db TaskRecord
step_if true to reason now fresh task = transition task.task_id to reason none now fresh
step_if false to reason now fresh task = pure task

-- TaskRepository.prepare in the caller's transaction. The transitions draw `fresh 0`, `fresh 1` and
-- `fresh 2`.
unfoldable pub prepare : String → ℕ → (ℕ → Fresh) → Tx TaskError Db TaskRecord
prepare task_id now fresh = do
  task ← read_task task_id
  task' ← step_if (is_created task.state) planned "plan.created" now (fresh 0) task
  task'' ← step_if (is_planned task'.state) ready "plan.ready" now (fresh 1) task'
  step_if (is_blocked task''.state) ready "plan.recheck" now (fresh 2) task''
