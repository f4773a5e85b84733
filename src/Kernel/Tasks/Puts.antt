-- ===== src/Kernel/Tasks/Puts.antt =====
-- How the tables of tasks and attempts read after the statements of the operations.
use ultimate_harness.Base.{
  String, ◌≡◌, refl, sym, ◌∙◌, ◌⊎◌, inl, inr, true, false, ◌==◌, ◌=s◌, Bool-cases, Option, none,
  some, [], ◌∷◌, ◌++◌, arith, eq_iff, eq_refl, if◌then◌else◌,
}
use ultimate_harness.Base.Table.{find-update_present, find-append_new}
use ultimate_harness.Kernel.Tasks.Store.{
  TaskRecord, Attempt, is_live, Db, find_task, find_attempt, update_task, update_attempt,
  finish_attempt,
}

-- After a write, the key `k` reads `v` and every other key reads as before.
abbrev pub Put : {V : Type 0} → String → V → (String → Option V) → (String → Option V) → Type 0
Put k v before after = (j : String) → after j ≡ (if k =s j then some v else before j)

pub Put-self :
    {V : Type 0} (k : String) (v : V) (before after : String → Option V)
    → Put k v before after
    → after k ≡ some v
Put-self k v before after p = rw (p k, eq_refl k) refl

-- What is read at another key was there before.
pub Put-other :
    {V : Type 0} (k j : String) (v : V) (before after : String → Option V)
    → Put k v before after
    → (k =s j) ≡ false
    → after j ≡ before j
Put-other k j v before after p ne = rw (p j, ne) refl

pub Put-cases :
    {V : Type 0} (k j : String) (v w : V) (before after : String → Option V)
    → Put k v before after
    → after j ≡ some w
    → ((k ≡ j) × (w ≡ v)) ⊎ (((k =s j) ≡ false) × (before j ≡ some w))
Put-cases k j v w before after p h = elim (Bool-cases (k =s j)) [
  | inl e ↦ inl ((eq_iff k j).0 e, some-eq w v (sym h ∙ p j ∙ rw e refl))
  | inr n ↦ inr (n, sym (Put-other k j v before after p n) ∙ h)
]
  where
    some-eq : {V : Type 0} (a b : V) → some a ≡ some b → a ≡ b
    some-eq a b e = cc

abbrev pub task_at : Db → String → Option TaskRecord
task_at db id = find_task id db.tasks

abbrev pub attempt_at : Db → String → Option Attempt
attempt_at db id = find_attempt id db.attempts

-- How the tables read after the statements of the operations.
pub update_task-Put :
    (db db' : Db) (id : String) (t : TaskRecord) (set : TaskRecord → TaskRecord)
    → find_task id db.tasks ≡ some t
    → ((x : TaskRecord) → (set x).task_id ≡ x.task_id)
    → db'.tasks ≡ update_task id t.revision set db.tasks
    → Put id (set t) (task_at db) (task_at db')
unfolding find_task update_task
update_task-Put db db' id t set f keeps e j = rw e (
    find-update_present (λ (x : TaskRecord). x.task_id) id j
      (λ x. if x.revision == t.revision then set x else x) db.tasks (λ x. ground (arith, keeps x)) f
      (ground arith))

pub finish_attempt-Put :
    (db db' : Db) (id : String) (a : Attempt) (set : Attempt → Attempt)
    → find_attempt id db.attempts ≡ some a
    → is_live a.state ≡ true
    → ((x : Attempt) → (set x).attempt_id ≡ x.attempt_id)
    → db'.attempts ≡ finish_attempt id set db.attempts
    → Put id (set a) (attempt_at db) (attempt_at db')
unfolding find_attempt finish_attempt
finish_attempt-Put db db' id a set f l keeps e j = rw e (
    find-update_present (λ (x : Attempt). x.attempt_id) id j
      (λ x. if is_live x.state then set x else x) db.attempts (λ x. ground (arith, keeps x)) f
      (rw l refl))

pub update_attempt-Put :
    (db db' : Db) (id : String) (a : Attempt) (set : Attempt → Attempt)
    → find_attempt id db.attempts ≡ some a
    → ((x : Attempt) → (set x).attempt_id ≡ x.attempt_id)
    → db'.attempts ≡ update_attempt id set db.attempts
    → Put id (set a) (attempt_at db) (attempt_at db')
unfolding find_attempt update_attempt
update_attempt-Put db db' id a set f keeps e j =
    rw e (find-update_present (λ (x : Attempt). x.attempt_id) id j set db.attempts keeps f refl)

pub insert_attempt-Put :
    (db db' : Db) (id : String) (a : Attempt)
    → a.attempt_id ≡ id
    → find_attempt id db.attempts ≡ none
    → db'.attempts ≡ db.attempts ++ a ∷ []
    → Put id a (attempt_at db) (attempt_at db')
unfolding find_attempt
insert_attempt-Put db db' id a named absent e j =
    rw e (find-append_new (λ (x : Attempt). x.attempt_id) id j a db.attempts named absent)

pub insert_task-Put :
    (db db' : Db) (id : String) (t : TaskRecord)
    → t.task_id ≡ id
    → find_task id db.tasks ≡ none
    → db'.tasks ≡ db.tasks ++ t ∷ []
    → Put id t (task_at db) (task_at db')
unfolding find_task
insert_task-Put db db' id t named absent e j =
    rw e (find-append_new (λ (x : TaskRecord). x.task_id) id j t db.tasks named absent)
