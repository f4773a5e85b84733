-- ===== src/Kernel/Tasks/Recovering.antt =====
-- recover_expired keeps the invariant of the task tables.
use ultimate_harness.Base.{
  ℕ, ◌+◌, ◌<◌, String, ◌≡◌, refl, sym, ap, ◌∙◌, ◌⊎◌, inl, inr, Bool, true, false, ◌=s◌, Bool-cases,
  Option-cases, is_some, none, some, List, arith, eq_iff, if◌then◌else◌,
}
use mathlib.Core.Option
use ultimate_harness.Base.Table.{find, update, find-update}
use ultimate_harness.Base.Result.{ok, >>=-eq-ok}
use ultimate_harness.Kernel.Tasks.State.{TaskState, recovering, failed, is_terminal, is_failed}
use ultimate_harness.Kernel.Tasks.Store.{
  TaskRecord, Attempt, AttemptState, Db, Fresh, find_task, find_attempt, update_task,
  finish_attempt, emit,
}
use ultimate_harness.Kernel.Tasks.Recovery.{Expired, recovery_target, recover_one}
use ultimate_harness.Kernel.Tasks.Frames.{
  SameTables-trans, emit-SameTables, record_transition-SameTables,
}
use ultimate_harness.Kernel.Tasks.Puts.{task_at, attempt_at}
use ultimate_harness.Kernel.Tasks.Invariant.{Inv}
use ultimate_harness.Kernel.Tasks.Preservation.{same_task}
pub mod Preserved

-- The invariant is about what is read.
pub Inv-reads :
    (db db' : Db)
    → ((j : String) → task_at db' j ≡ task_at db j)
    → ((j : String) → attempt_at db' j ≡ attempt_at db j)
    → Inv db
    → Inv db'
Inv-reads db db' tasks attempts v = record {
  each = λ id t f. v.each id t (sym (tasks id) ∙ f);
  owned = λ aid a f.
      let (t, ft, o) = v.owned aid a (sym (attempts aid) ∙ f) in (t, tasks a.task_id ∙ ft, o);
  held = λ id t aid f e.
      let (a, fa, h) = v.held id t aid (sym (tasks id) ∙ f) e in (a, attempts aid ∙ fa, h);
}

-- The rows that recover_one writes.
abbrev pub expire : ℕ → Attempt → Attempt
expire now a = record a {
  state = AttemptState.expired;
  finished_at = some now;
  error_code = some "lease_expired";
}

abbrev pub recovered : ℕ → Expired → TaskRecord → TaskRecord
recovered now row t = record t {
  state = recovery_target row;
  active_attempt_id = none;
  error_code = some "lease_expired";
  next_run_at = now;
  updated_at = now;
  terminal_at = if is_failed (recovery_target row) then some now else none;
  revision = row.revision + 1;
}

pub recover_one_effect :
    (now : ℕ) (row : Expired) (fresh : Fresh) (db db' : Db) (u : Unit {0})
    → recover_one now row fresh db ≡ ok (u, db')
    → (db'.tasks ≡ update_task row.attempt.task_id row.revision (recovered now row) db.tasks)
      × (db'.attempts ≡ finish_attempt row.attempt.attempt_id (expire now) db.attempts)
      × (db'.legacy ≡ db.legacy)
unfolding recover_one
recover_one_effect now row fresh db db' u h =
    let (event, db₁, he, h₁) = >>=-eq-ok (emit _ fresh.clock) _ _ h in
    let same =
      SameTables-trans (emit-SameTables _ fresh.clock _ db₁ event he)
        (record_transition-SameTables _ db₁ db' u h₁) in
    (same.tasks, same.attempts, same.legacy)

-- What the loop knows of a row that it has before it: the task is still under the attempt as the query
-- read it, or another row of the task was recovered before.
pub record Pending (db : Db) (row : Expired) : Type 0 where
  pub task : TaskRecord
  pub found : find_task row.attempt.task_id db.tasks ≡ some task
  pub standing :
      ((task.active_attempt_id ≡ some row.attempt.attempt_id) × (task.revision ≡ row.revision))
      ⊎ ((task.active_attempt_id ≡ none) × (row.revision < task.revision))
  pub mine :
      (a : Attempt)
      → find_attempt row.attempt.attempt_id db.attempts ≡ some a
      → a.task_id ≡ row.attempt.task_id

-- An update that changes nothing at the row that it finds changes nothing that is read.
pub update-reads :
    {R : Type 0} (key : R → String) (k : String) (f : R → R) (rows : List R)
    → ((r : R) → key (f r) ≡ key r)
    → ((r : R) → find key k rows ≡ some r → f r ≡ r)
    → (j : String) → find key j (update key k f rows) ≡ find key j rows
update-reads key k f rows keeps same j =
    find-update key k j f rows keeps ∙ (elim (Bool-cases (k =s j)) [
      | inr n ↦ rw n refl
      | inl e ↦ elim (Option-cases (find key j rows)) [
        | inl a ↦ rw (e, a) refl
        | inr (r, a) ↦
            rw (e, a) (ap (λ x. some x) (same r (ap (λ i. find key i rows) ((eq_iff k j).0 e) ∙ a)))
      ]
    ])

pub target-dated :
    (now : ℕ) (row : Expired)
    → is_some (if is_failed (recovery_target row) then some now else none)
      ≡ is_terminal (recovery_target row)
target-dated now row = ground arith

-- The states that a recovery leaves a task in.
abbrev pub is_recovery_state : TaskState → Bool
is_recovery_state recovering = true
is_recovery_state failed = true
is_recovery_state _ = false

pub target-is_recovery_state : (row : Expired) → is_recovery_state (recovery_target row) ≡ true
target-is_recovery_state row = ground arith

-- How a task reads after some rows were recovered: as before, or without an active attempt at a later
-- revision.
pub data Changed (db db' : Db) (j : String) : Type 0 where
  kept : find_task j db'.tasks ≡ find_task j db.tasks → Changed db db' j
  released :
      (t w : TaskRecord)
      → find_task j db.tasks ≡ some t
      → find_task j db'.tasks ≡ some w
      → w.active_attempt_id ≡ none
      → t.revision < w.revision
      → (aid : String) → t.active_attempt_id ≡ some aid
      → is_recovery_state w.state ≡ true
      → Changed db db' j

-- A task without an active attempt.
abbrev pub Idle : Db → String → Type 0
Idle db id = (t : TaskRecord) × (find_task id db.tasks ≡ some t) × (t.active_attempt_id ≡ none)

pub Changed-Idle : (db db' : Db) (j : String) → Changed db db' j → Idle db j → Idle db' j
Changed-Idle db db' j (kept e) (t, f, n) = (t, e ∙ f, n)
Changed-Idle db db' j (released t w f f' n less aid act end) i = (w, f', n)

pub Changed-Pending :
    (db db' : Db) (row : Expired)
    → Changed db db' row.attempt.task_id
    → ((a : Attempt)
        → find_attempt row.attempt.attempt_id db'.attempts ≡ some a
        → a.task_id ≡ row.attempt.task_id)
    → Pending db row
    → Pending db' row
Changed-Pending db db' row (kept e) mine p = record {
  task = p.task;
  found = e ∙ p.found;
  standing = p.standing;
  mine = mine;
}
Changed-Pending db db' row (released t w f f' n less aid act end) mine p =
    let same : p.task ≡ t = same_task row.attempt.task_id db p.task t p.found f in
    record {
      task = w;
      found = f';
      standing = inr (n, later (ap (λ (x : TaskRecord). x.revision) same) p.standing);
      mine = mine;
    }
  where
    later :
        p.task.revision ≡ t.revision
        → ((p.task.active_attempt_id ≡ some row.attempt.attempt_id)
            × (p.task.revision ≡ row.revision))
          ⊎ ((p.task.active_attempt_id ≡ none) × (row.revision < p.task.revision))
        → row.revision < w.revision
    later e (inl (a, r)) = omega arith
    later e (inr (a, r)) = omega arith
