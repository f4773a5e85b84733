-- ===== src/Kernel/Tasks/Recovery.antt =====
-- harness2/kernel/tasks.py, TaskRepository.recover_expired.
use ultimate_harness.Base.{
  ℕ, ◌+◌, String, Bool, not, ◌&&◌, ◌==◌, ◌=s◌, ltb, leb, min, max, Option, none, some, List, [],
  ◌∷◌, take, mem_text, if◌then◌else◌,
}
use ultimate_harness.Base.Int.{pos}
use ultimate_harness.Base.Result.{Tx, pure, ◌>>=◌, ◌>>◌}
use ultimate_harness.Text.Codes.{codes}
use ultimate_harness.Text.Value.{num, end, field}
use ultimate_harness.Kernel.Events.{option_eq}
use ultimate_harness.Kernel.Tasks.State.{
  TaskState, running, recovering, failed, state_value, is_running, is_failed,
}
use ultimate_harness.Kernel.Tasks.Store.{
  TaskError, TaskRecord, Attempt, AttemptState, is_live, Db, Fresh, find_task, finish_attempt,
  key_text, text_value, task_event, emit, record_transition, write_task, write_attempts,
}

-- A row of the join: the attempt, and the columns of its task.
pub record Expired : Type 0 where
  pub attempt : Attempt
  pub max_attempts : ℕ
  pub attempts_started : ℕ
  pub revision : ℕ

abbrev pub expired_row : Attempt → TaskRecord → Expired
expired_row a t = record {
  attempt = a;
  max_attempts = t.max_attempts;
  attempts_started = t.attempts_started;
  revision = t.revision;
}

-- The WHERE clause.
abbrev pub is_expired : ℕ → List String → Attempt → TaskRecord → Bool
is_expired now legacy a t =
    is_live a.state
    && ltb a.lease_until now
    && is_running t.state
    && option_eq ◌=s◌ t.active_attempt_id (some a.attempt_id)
    && t.current_fence == a.fence_token
    && not (mem_text t.task_id legacy)

-- One row of the join.
abbrev pub add_expired : ℕ → List String → Attempt → Option TaskRecord → List Expired → List Expired
add_expired now legacy a none more = more
add_expired now legacy a (some t) more =
    if is_expired now legacy a t then expired_row a t ∷ more else more

unfoldable pub expired_rows : ℕ → List String → List TaskRecord → List Attempt → List Expired
expired_rows now legacy tasks [] = []
expired_rows now legacy tasks (a ∷ rest) =
    add_expired now legacy a (find_task a.task_id tasks) (expired_rows now legacy tasks rest)

-- ORDER BY a.lease_until
unfoldable pub insert_row : Expired → List Expired → List Expired
insert_row x [] = x ∷ []
insert_row x (y ∷ ys) =
    let rest = insert_row x ys in
    if leb x.attempt.lease_until y.attempt.lease_until then x ∷ y ∷ ys else y ∷ rest

unfoldable pub by_lease : List Expired → List Expired
unfolding insert_row
by_lease [] = []
by_lease (x ∷ xs) = insert_row x (by_lease xs)

abbrev pub recovery_target : Expired → TaskState
recovery_target row = if ltb row.attempts_started row.max_attempts then recovering else failed

-- The body of the loop.
unfoldable pub recover_one : ℕ → Expired → Fresh → Tx TaskError Db (Unit {0})
recover_one now row fresh = do
  let target = recovery_target row
  write_attempts (
      finish_attempt row.attempt.attempt_id (λ a. record a {
        state = AttemptState.expired;
        finished_at = some now;
        error_code = some "lease_expired";
      }))
  let revision = row.revision + 1
  write_task row.attempt.task_id row.revision (λ t. record t {
    state = target;
    active_attempt_id = none;
    error_code = some "lease_expired";
    next_run_at = now;
    updated_at = now;
    terminal_at = if is_failed target then some now else none;
    revision = revision;
  })
  event ←
      emit
        (task_event "task.lease.expired" row.attempt.task_id none
          (key_text row.attempt.attempt_id ":expired")
          (field (codes "attempt_id") (text_value row.attempt.attempt_id) (
            field (codes "fence_token") (num (pos row.attempt.fence_token))
              (field (codes "recovery_state") (text_value (state_value target)) end)))
          fresh)
        fresh.clock
  record_transition (record {
    transition_id = fresh.transition_id;
    task_id = row.attempt.task_id;
    attempt_id = some row.attempt.attempt_id;
    from_state = some running;
    to_state = target;
    reason_code = "lease.expired";
    event_id = event;
    occurred_at = now;
    revision = revision;
  })

-- The loop; the n-th row draws `fresh n`.
unfoldable pub recover_rows : ℕ → (ℕ → Fresh) → ℕ → List Expired → Tx TaskError Db ℕ
unfolding recover_one
recover_rows now fresh recovered [] = pure recovered
recover_rows now fresh recovered (row ∷ rows) = do
  recover_one now row (fresh recovered)
  recover_rows now fresh (recovered + 1) rows

-- TaskRepository.recover_expired
unfoldable pub recover_expired : ℕ → (limit : ℕ) → (ℕ → Fresh) → Tx TaskError Db ℕ
unfolding expired_rows by_lease recover_rows
recover_expired now limit fresh db =
    let rows = by_lease (expired_rows now db.legacy db.tasks db.attempts) in
    recover_rows now fresh 0 (take (max 1 (min limit 1000)) rows) db
