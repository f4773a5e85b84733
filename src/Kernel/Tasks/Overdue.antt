-- ===== src/Kernel/Tasks/Overdue.antt =====
-- The leases that have run out, described by the rows of the tables and not by the query of
-- recover_expired, and what the query makes of them.
use ultimate_harness.Base.{
  ℕ, ◌+◌, ◌<◌, ◌≤◌, String, ◌≡◌, refl, sym, ap, ◌∙◌, inl, inr, ◌⊎◌, true, false, ◌&&◌, ◌=s◌, ltb,
  All, select, length, mem_text, Bool-cases, eq_iff, eq_refl, Option, none, some, List, [], ◌∷◌,
  ◌++◌, arith, if◌then◌else◌,
}
use ultimate_harness.Base.Table.{find-update}
use ultimate_harness.Base.Result.{ok, >>=-eq-ok}
use ultimate_harness.Kernel.Tasks.State.{TaskState, running, is_running}
use ultimate_harness.Kernel.Tasks.Store.{
  TaskRecord, Attempt, is_live, Db, Fresh, find_task, update_task,
}
use ultimate_harness.Kernel.Tasks.Recovery.{
  Expired, expired_row, is_expired, add_expired, expired_rows, recover_one, recover_rows,
}
use ultimate_harness.Kernel.Tasks.Recovering.{recover_one_effect}
use ultimate_harness.Kernel.Tasks.RecoveryQuery.{expired-active}

-- An attempt under way on a running task of the kernel, under the task's fence, whose lease ended
-- before `now`.
pub record IsOverdue (now : ℕ) (db : Db) (a : Attempt) : Type 0 where
  pub task : TaskRecord
  pub found : find_task a.task_id db.tasks ≡ some task
  pub runs : task.state ≡ running
  pub active : task.active_attempt_id ≡ some a.attempt_id
  pub fenced : task.current_fence ≡ a.fence_token
  pub live : is_live a.state ≡ true
  pub owned : mem_text task.task_id db.legacy ≡ false
  pub over : a.lease_until < now

-- The attempts under way whose lease ended before `now`.
abbrev pub late : ℕ → List Attempt → List Attempt
late now attempts = select (λ a. is_live a.state && ltb a.lease_until now) attempts

-- An attempt of a task that is overdue.
abbrev pub HasOverdue : ℕ → Db → List Attempt → String → Type 0
HasOverdue now db attempts id =
    (a : Attempt) × (before : List Attempt) × (after : List Attempt) × (attempts
      ≡ before ++ a ∷ after)
    × (a.task_id ≡ id)
    × IsOverdue now db a

running_lem : (s : TaskState) → is_running s ≡ true → s ≡ running
running_lem s h = ground arith

some-eq : {A : Type 0} (x y : A) → some x ≡ some y → x ≡ y
some-eq x y e = cc

module _ (now : ℕ) (db : Db) where
  expired-IsOverdue :
      (a : Attempt) (t : TaskRecord)
      → find_task a.task_id db.tasks ≡ some t
      → is_expired now db.legacy a t ≡ true
      → IsOverdue now db a
  expired-IsOverdue a t f h = record {
    task = t;
    found = f;
    runs = running_lem t.state (ground arith);
    active = expired-active now db.legacy a t h;
    fenced = ground arith;
    live = ground arith;
    owned = ground arith;
    over = ground arith;
  }

  IsOverdue-expired :
      (a : Attempt) (t : TaskRecord)
      → find_task a.task_id db.tasks ≡ some t
      → is_expired now db.legacy a t ≡ false
      → ¬ IsOverdue now db a
  IsOverdue-expired a t f h o =
      let same : o.task ≡ t = some-eq o.task t (sym o.found ∙ f) in
      let there : is_expired now db.legacy a o.task ≡ true =
        ground (arith, o.runs, o.active, o.fenced, o.live, o.owned, o.over, eq_refl a.attempt_id) in
      cc (ap (is_expired now db.legacy a) same, there, h)

  -- Where the query finds nothing, no attempt is overdue.
  pub none-IsOverdue :
      (attempts : List Attempt)
      → expired_rows now db.legacy db.tasks attempts ≡ []
      → All (λ a. ¬ IsOverdue now db a) attempts
  unfolding expired_rows
  none-IsOverdue [] h = tt
  none-IsOverdue (a ∷ rest) h = go (find_task a.task_id db.tasks) refl h (none-IsOverdue rest)
    where
      more : List Expired
      more = expired_rows now db.legacy db.tasks rest

      go :
          (o : Option TaskRecord)
          → find_task a.task_id db.tasks ≡ o
          → add_expired now db.legacy a o more ≡ []
          → (more ≡ [] → All (λ a. ¬ IsOverdue now db a) rest)
          → All (λ a. ¬ IsOverdue now db a) (a ∷ rest)
      go none e h ih = (λ o. cc (e, o.found), ih h)
      go (some t) e h ih = elim (Bool-cases (is_expired now db.legacy a t)) [
        | inl there ↦
            absurd (cc (sym (ap (λ b. if b then expired_row a t ∷ more else more) there) ∙ h))
        | inr no_row ↦ (
          IsOverdue-expired a t e no_row,
          ih (sym (ap (λ b. if b then expired_row a t ∷ more else more) no_row) ∙ h),
        )
      ]

  -- The query has no row of a task, or an attempt of it is overdue.
  pub expired_rows-cases :
      (id : String) (attempts : List Attempt)
      → All
          (λ (row : Expired). (row.attempt.task_id =s id) ≡ false)
          (expired_rows now db.legacy db.tasks attempts)
        ⊎ HasOverdue now db attempts id
  unfolding expired_rows
  expired_rows-cases id [] = inl tt
  expired_rows-cases id (a ∷ rest) = elim (expired_rows-cases id rest) [
    | inr (x, before, after, e, same, o) ↦ inr (x, a ∷ before, after, ap (λ xs. a ∷ xs) e, same, o)
    | inl none_there ↦ go (find_task a.task_id db.tasks) refl none_there
  ]
    where
      more : List Expired
      more = expired_rows now db.legacy db.tasks rest

      Absent : List Expired → Type 0
      Absent = All (λ (row : Expired). (row.attempt.task_id =s id) ≡ false)

      go :
          (o : Option TaskRecord)
          → find_task a.task_id db.tasks ≡ o
          → Absent more
          → Absent (add_expired now db.legacy a o more) ⊎ HasOverdue now db (a ∷ rest) id
      go none e absent = inl absent
      go (some t) e absent = elim (Bool-cases (is_expired now db.legacy a t)) [
        | inr no_row ↦ inl (rw no_row absent)
        | inl there ↦ elim (Bool-cases (a.task_id =s id)) [
          | inr other ↦ inl (rw there (other, absent))
          | inl same ↦
              inr (a, [], rest, refl, (eq_iff a.task_id id).0 same, expired-IsOverdue a t e there)
        ]
      ]

  -- The rows of the query are no more than the attempts that are late.
  pub length-expired_rows :
      (attempts : List Attempt)
      → length (expired_rows now db.legacy db.tasks attempts) ≤ length (late now attempts)
  unfolding expired_rows
  length-expired_rows [] = omega arith
  length-expired_rows (a ∷ rest) = go (find_task a.task_id db.tasks) (length-expired_rows rest)
    where
      more : List Expired
      more = expired_rows now db.legacy db.tasks rest

      go :
          (o : Option TaskRecord)
          → length more ≤ length (late now rest)
          → length (add_expired now db.legacy a o more) ≤ length (late now (a ∷ rest))
      go none ih = ground (arith, ih)
      go (some t) ih = ground (arith, ih)

-- A row changes no task but its own.
recover_one-other :
    (now : ℕ) (row : Expired) (fresh : Fresh) (id : String) (db db' : Db) (u : Unit {0})
    → recover_one now row fresh db ≡ ok (u, db')
    → (row.attempt.task_id =s id) ≡ false
    → find_task id db'.tasks ≡ find_task id db.tasks
unfolding find_task update_task
recover_one-other now row fresh id db db' u h other =
    let (tasks, attempts, legacy) = recover_one_effect now row fresh db db' u h in
    ap (find_task id) tasks
    ∙ (find-update (λ (t : TaskRecord). t.task_id) row.attempt.task_id id _ db.tasks
          (λ r. ground arith)
        ∙ rw other refl)

pub recover_rows-other :
    (now : ℕ) (fresh : ℕ → Fresh) (n : ℕ) (rows : List Expired) (id : String) (db db' : Db) (m : ℕ)
    → recover_rows now fresh n rows db ≡ ok (m, db')
    → All (λ (row : Expired). (row.attempt.task_id =s id) ≡ false) rows
    → find_task id db'.tasks ≡ find_task id db.tasks
unfolding recover_rows
recover_rows-other now fresh n [] id db db' m h other =
    let same : db' ≡ db = cc in ap (λ (d : Db). find_task id d.tasks) same
recover_rows-other now fresh n (row ∷ rows) id db db' m h other =
    let (u, db₁, one, rest) =
      >>=-eq-ok (recover_one now row (fresh n)) (λ _. recover_rows now fresh (n + 1) rows) db h in
    recover_rows-other now fresh (n + 1) rows id db₁ db' m rest other.1
    ∙ recover_one-other now row (fresh n) id db db₁ u one other.0
