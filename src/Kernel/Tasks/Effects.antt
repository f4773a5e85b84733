-- ===== src/Kernel/Tasks/Effects.antt =====
-- What each operation that returns has done to the tables of tasks and attempts.
use ultimate_harness.Base.{
  ℕ, ◌+◌, String, ◌≡◌, Bool, true, not, ltb, ltb→lt, ◌<◌, is_some, Option, none, some,
  if◌then◌else◌,
}
use ultimate_harness.Base.Result.{ok}
use ultimate_harness.Kernel.Tasks.State.{
  TaskState, running, retrying, cancelled, is_running, is_failed, is_allowed,
}
use ultimate_harness.Kernel.Tasks.Store.{
  invalid_transition, TaskRecord, Attempt, AttemptState, Db, Fresh, find_task, update_task,
}
use ultimate_harness.Kernel.Tasks.Control.{transition, terminal_time}
use ultimate_harness.Kernel.Tasks.Lease.{completion, time_or}
use ultimate_harness.Kernel.Tasks.Cancel.{retry}
use ultimate_harness.Kernel.Tasks.Frames.{none_of_not_some, read-then, require-then, journal_effect}

-- The row that each operation writes over the row `was`.
abbrev pub moved : TaskState → ℕ → TaskRecord → TaskRecord → TaskRecord
moved to now was t = record t {
  state = to;
  active_attempt_id = if is_running to then was.active_attempt_id else none;
  updated_at = now;
  terminal_at = terminal_time to now;
  revision = was.revision + 1;
}

abbrev pub called_off : ℕ → TaskRecord → TaskRecord → TaskRecord
called_off now was t = record t {
  state = cancelled;
  active_attempt_id = none;
  error_code = some "task_cancelled";
  updated_at = now;
  terminal_at = some now;
  revision = was.revision + 1;
}

abbrev pub requeued : ℕ → TaskRecord → TaskRecord → TaskRecord
requeued now was t = record t {
  state = retrying;
  next_run_at = now;
  error_code = none;
  updated_at = now;
  terminal_at = none;
  revision = was.revision + 1;
}

abbrev pub finished :
    Bool → String → Option String → Bool → Option ℕ → ℕ → TaskRecord → TaskRecord → TaskRecord
finished success outcome error retryable retry_at now was t =
    let target = completion success retryable was in
    record t {
      state = target;
      active_attempt_id = none;
      next_run_at = time_or now retry_at;
      result_hash = if success then some outcome else none;
      error_code = error;
      updated_at = now;
      terminal_at = terminal_time target now;
      revision = was.revision + 1;
    }

abbrev pub started : String → ℕ → TaskRecord → TaskRecord → TaskRecord
started attempt_id now was t = record t {
  state = running;
  attempts_started = was.attempts_started + 1;
  current_fence = was.current_fence + 1;
  active_attempt_id = some attempt_id;
  updated_at = now;
  revision = was.revision + 1;
}

-- The row that ends an attempt.
abbrev pub closed : AttemptState → ℕ → Option String → Option String → Attempt → Attempt
closed state now outcome error a = record a {
  state = state;
  finished_at = some now;
  outcome_hash = outcome;
  error_code = error;
}

-- The task `id` was there, one row over it was written, and `r` is what was read afterwards.
pub record Wrote (id : String) (write : TaskRecord → TaskRecord → TaskRecord) (db db' : Db)
    (r : TaskRecord) : Type 0 where
  pub task : TaskRecord
  pub found : find_task id db.tasks ≡ some task
  pub tasks : db'.tasks ≡ update_task id task.revision (write task) db.tasks
  pub reread : find_task id db'.tasks ≡ some r

pub transition_effect :
    (id : String) (to : TaskState) (reason : String) (causation : Option String) (now : ℕ)
    (fresh : Fresh) (db db' : Db) (r : TaskRecord)
    → transition id to reason causation now fresh db ≡ ok (r, db')
    → (w : Wrote id (moved to now) db db' r) × (w.task.active_attempt_id ≡ none)
      × (is_allowed w.task.state to ≡ true)
      × (db'.attempts ≡ db.attempts)
unfolding transition
transition_effect id to reason causation now fresh db db' r h =
    let (t, found, h₁) = read-then id _ db db' h in
    let (idle, h₂) =
      require-then (not (is_some t.active_attempt_id)) invalid_transition _ db db' h₁ in
    let (allowed, h₃) = require-then (is_allowed t.state to) invalid_transition _ db db' h₂ in
    let (same, last) = journal_effect _ _ _ _ _ db' r h₃ in
    (
      record { task = t; found = found; tasks = same.tasks; reread = rw same.tasks last },
      none_of_not_some t.active_attempt_id idle,
      allowed,
      same.attempts,
    )

pub retry_effect :
    (id : String) (now : ℕ) (fresh : Fresh) (db db' : Db) (r : TaskRecord)
    → retry id now fresh db ≡ ok (r, db')
    → (w : Wrote id (requeued now) db db' r) × (is_failed w.task.state ≡ true)
      × (w.task.attempts_started < w.task.max_attempts)
      × (db'.attempts ≡ db.attempts)
unfolding retry
retry_effect id now fresh db db' r h =
    let (t, found, h₁) = read-then id _ db db' h in
    let (over, h₂) = require-then (is_failed t.state) invalid_transition _ db db' h₁ in
    let (left, h₃) =
      require-then (ltb t.attempts_started t.max_attempts) invalid_transition _ db db' h₂ in
    let (same, last) = journal_effect _ _ _ _ _ db' r h₃ in
    (
      record { task = t; found = found; tasks = same.tasks; reread = rw same.tasks last },
      over,
      ltb→lt _ _ left,
      same.attempts,
    )
