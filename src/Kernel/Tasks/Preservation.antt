-- ===== src/Kernel/Tasks/Preservation.antt =====
-- Every operation that returns keeps the invariant: transition, retry, complete and cancel.
use ultimate_harness.Base.{
  ℕ, String, ◌≡◌, refl, ap, sym, ◌∙◌, inl, inr, Bool, false, Option-cases, is_some, Option, none,
  some, arith,
}
use ultimate_harness.Base.Result.{ok}
use ultimate_harness.Kernel.Tasks.State.{TaskState, is_terminal}
use ultimate_harness.Kernel.Tasks.Store.{
  TaskRecord, Attempt, is_live, Db, Fresh, find_task, find_attempt, update_task,
}
use ultimate_harness.Kernel.Tasks.Control.{transition, terminal_time}
use ultimate_harness.Kernel.Tasks.Lease.{AttemptLease, complete, attempt_outcome}
use ultimate_harness.Kernel.Tasks.Cancel.{cancel, retry}
use ultimate_harness.Kernel.Tasks.Effects.{
  Wrote, moved, called_off, requeued, finished, closed, transition_effect, retry_effect,
}
use ultimate_harness.Kernel.Tasks.LeaseEffects.{
  Stopped, idle, under, stopped, complete_effect, cancel_effect,
}
use ultimate_harness.Kernel.Tasks.Frames.{task_id-find}
use ultimate_harness.Kernel.Tasks.Invariant.{TaskOk, Inv, Inv-retask, Inv-rewrite}
use ultimate_harness.Kernel.Tasks.Puts.{
  Put, task_at, attempt_at, update_task-Put, finish_attempt-Put,
}

-- A row without an active attempt, whose counters are as they were, is in order when its end is dated.
pub idle-TaskOk :
    (t u : TaskRecord)
    → TaskOk t
    → u.active_attempt_id ≡ none
    → u.attempts_started ≡ t.attempts_started
    → u.max_attempts ≡ t.max_attempts
    → u.current_fence ≡ t.current_fence
    → is_some u.terminal_at ≡ is_terminal u.state
    → TaskOk u
idle-TaskOk t u good n s m f d = record {
  active_runs = λ aid e. absurd (cc (n, e));
  budget = omega (arith, good.budget);
  fence = omega (arith, good.fence);
  dated = d;
}

some-eq : (a b : TaskRecord) → some a ≡ some b → a ≡ b
some-eq a b e = cc

pub same_task :
    (id : String) (db : Db) (t t' : TaskRecord)
    → find_task id db.tasks ≡ some t
    → find_task id db.tasks ≡ some t'
    → t ≡ t'
same_task id db t t' e e' = some-eq t t' (sym e ∙ e')

terminal_time-dated : (s : TaskState) (now : ℕ) → is_some (terminal_time s now) ≡ is_terminal s
terminal_time-dated s now = ground arith

-- A task that had no active attempt, written over without starting one.
pub idle-Inv :
    (db db' : Db) (id : String) (write : TaskRecord → TaskRecord → TaskRecord) (r : TaskRecord)
    (w : Wrote id write db db' r)
    → Inv db
    → ((x : TaskRecord) → (write w.task x).task_id ≡ x.task_id)
    → w.task.active_attempt_id ≡ none
    → (write w.task w.task).active_attempt_id ≡ none
    → (write w.task w.task).current_fence ≡ w.task.current_fence
    → TaskOk (write w.task w.task)
    → db'.attempts ≡ db.attempts
    → Inv db'
idle-Inv db db' id write r w v keeps before after fence good same =
    Inv-retask db db' id (write w.task w.task) v
      (update_task-Put db db' id w.task (write w.task) w.found keeps w.tasks) same
      (λ t f.
        let e = same_task id db w.task t w.found f in
        (
          ap (λ (x : TaskRecord). x.active_attempt_id) (sym e) ∙ before,
          ap (λ (x : TaskRecord). x.current_fence) (sym e) ∙ sym fence,
        ))
      after good

pub transition-Inv :
    (id : String) (to : TaskState) (reason : String) (causation : Option String) (now : ℕ)
    (fresh : Fresh) (db db' : Db) (r : TaskRecord)
    → Inv db
    → transition id to reason causation now fresh db ≡ ok (r, db')
    → Inv db'
transition-Inv id to reason causation now fresh db db' r v h =
    let (w, n, allowed, same) = transition_effect id to reason causation now fresh db db' r h in
    let after : (moved to now w.task w.task).active_attempt_id ≡ none = ground arith in
    idle-Inv db db' id (moved to now) r w v (λ x. refl) n after refl
      (idle-TaskOk w.task (moved to now w.task w.task) (v.each id w.task w.found) after refl refl
        refl (terminal_time-dated to now))
      same

pub retry-Inv :
    (id : String) (now : ℕ) (fresh : Fresh) (db db' : Db) (r : TaskRecord)
    → Inv db
    → retry id now fresh db ≡ ok (r, db')
    → Inv db'
retry-Inv id now fresh db db' r v h =
    let (w, over, left, same) = retry_effect id now fresh db db' r h in
    let good = v.each id w.task w.found in
    let n : w.task.active_attempt_id ≡ none = elim (Option-cases w.task.active_attempt_id) [
      | inl n ↦ n
      | inr (a, s) ↦ absurd (ground (arith, good.active_runs a s))
    ] in
    idle-Inv db db' id (requeued now) r w v (λ x. refl) n n refl
      (idle-TaskOk w.task (requeued now w.task w.task) good n refl refl refl refl) same

-- A task whose active attempt is ended with it.
pub close-Inv :
    (db db' : Db) (id aid : String) (t u : TaskRecord) (a b : Attempt)
    → Inv db
    → find_task id db.tasks ≡ some t
    → t.active_attempt_id ≡ some aid
    → find_attempt aid db.attempts ≡ some a
    → a.task_id ≡ id
    → a.fence_token ≡ t.current_fence
    → b.task_id ≡ a.task_id
    → b.fence_token ≡ a.fence_token
    → is_live b.state ≡ false
    → u.active_attempt_id ≡ none
    → u.current_fence ≡ t.current_fence
    → TaskOk u
    → Put id u (task_at db) (task_at db')
    → Put aid b (attempt_at db) (attempt_at db')
    → Inv db'
close-Inv db db' id aid t u a b v ft act fa at_id fence bt bf dead none_now kept good put_task
      put_attempt =
    Inv-rewrite db db' id aid u b v put_task put_attempt
      (record {
        good = good;
        of_task = bt ∙ at_id;
        bounded = omega arith;
        authority = λ l. absurd (cc (l, dead));
        only = λ x e. absurd (cc (e, none_now));
      })
      (λ t' f'.
        let e = same_task id db t t' ft f' in
        (
          λ x ex. cc (ap (λ (y : TaskRecord). y.active_attempt_id) e, ex, act),
          omega (arith, ap (λ (y : TaskRecord). y.current_fence) e),
        ))
      (λ a' f'. cc)

pub complete-Inv :
    (lease : AttemptLease) (success : Bool) (outcome : String) (error : Option String)
    (retryable : Bool) (retry_at : Option ℕ) (now : ℕ) (fresh : Fresh) (db db' : Db)
    (r : TaskRecord)
    → Inv db
    → complete lease success outcome error retryable retry_at now fresh db ≡ ok (r, db')
    → Inv db'
complete-Inv lease success outcome error retryable retry_at now fresh db db' r v h =
    let (t, a₀, ok₀, tasks, attempts, last) =
      complete_effect lease success outcome error retryable retry_at now fresh db db' r h in
    let (a, fa, holds) = v.held lease.task_id t lease.attempt_id ok₀.found_task ok₀.active in
    let write = finished success outcome error retryable retry_at now t in
    let end = closed (attempt_outcome success) now (some outcome) error in
    let at : db'.tasks ≡ update_task lease.task_id t.revision write db.tasks =
      tasks
      ∙ ap (λ i. update_task i t.revision write db.tasks)
          (task_id-find lease.task_id db.tasks t ok₀.found_task) in
    close-Inv db db' lease.task_id lease.attempt_id t (write t) a (end a) v ok₀.found_task
      ok₀.active fa holds.of_task holds.fence refl refl (ground arith) refl refl
      (idle-TaskOk t (write t) (v.each lease.task_id t ok₀.found_task) refl refl refl refl
        (terminal_time-dated _ now))
      (update_task-Put db db' lease.task_id t write ok₀.found_task (λ x. refl) at)
      (finish_attempt-Put db db' lease.attempt_id a end fa holds.live (λ x. refl) attempts)

pub cancel-Inv :
    (id : String) (lease : Option AttemptLease) (now : ℕ) (fresh : Fresh) (db db' : Db)
    (r : TaskRecord)
    → Inv db
    → cancel id lease now fresh db ≡ ok (r, db')
    → Inv db'
cancel-Inv id lease now fresh db db' r v h =
    let (w, allowed, st) = cancel_effect id lease now fresh db db' r h in by_case w st
  where
    by_case :
        (w : Wrote id (called_off now) db db' r)
        → Stopped lease now w.task db db'.attempts
        → Inv db'
    by_case w (idle n same) =
        idle-Inv db db' id (called_off now) r w v (λ x. refl) n refl refl
          (idle-TaskOk w.task (called_off now w.task w.task) (v.each id w.task w.found) refl refl
            refl refl refl)
          same
    by_case w (under aid l t a₀ act e ok₀ attempts) =
        let (a, fa, holds) = v.held id w.task aid w.found act in
        close-Inv db db' id aid w.task (called_off now w.task w.task) a (stopped now a) v w.found
          act fa holds.of_task holds.fence refl refl refl refl refl
          (idle-TaskOk w.task (called_off now w.task w.task) (v.each id w.task w.found) refl refl
            refl refl refl)
          (update_task-Put db db' id w.task (called_off now w.task) w.found (λ x. refl) w.tasks)
          (finish_attempt-Put db db' aid a (stopped now) fa holds.live (λ x. refl) attempts)
