-- ===== src/Kernel/Tasks/Frames.antt =====
-- What the statements of the journal leave alone, and how a task table reads after an update.
use ultimate_harness.Base.{
  ℕ, String, ◌≡◌, refl, ◌∙◌, Bool, true, false, not, is_some, Option, none, some, List, arith,
}
use ultimate_harness.Base.Result.{ok, Tx, require, ◌>>=◌, ◌>>◌, >>=-eq-ok}
use ultimate_harness.Base.Table.{key-find}
use ultimate_harness.Kernel.Events.{TypedEvent}
use ultimate_harness.Kernel.Tasks.Store.{
  TaskError, TaskRecord, Transition, Db, find_task, emit, record_transition, read_task,
}

-- The tables of tasks and attempts are as they were.
pub record SameTables (db db' : Db) : Type 0 where
  pub tasks : db'.tasks ≡ db.tasks
  pub attempts : db'.attempts ≡ db.attempts
  pub legacy : db'.legacy ≡ db.legacy

pub emit-SameTables :
    (e : TypedEvent) (now : ℕ) (db db' : Db) (id : String)
    → emit e now db ≡ ok (id, db')
    → SameTables db db'
unfolding emit
emit-SameTables e now db db' id h = ground arith

pub record_transition-SameTables :
    (t : Transition) (db db' : Db) (u : Unit {0})
    → record_transition t db ≡ ok (u, db')
    → SameTables db db'
unfolding record_transition
record_transition-SameTables t db db' u h = ground arith

pub read_task-ok :
    (id : String) (db db' : Db) (t : TaskRecord)
    → read_task id db ≡ ok (t, db')
    → (find_task id db.tasks ≡ some t) × (db' ≡ db)
unfolding read_task
read_task-ok id db db' t h = ground arith

pub SameTables-trans : {a b c : Db} → SameTables a b → SameTables b c → SameTables a c
SameTables-trans p q = record {
  tasks = q.tasks ∙ p.tasks;
  attempts = q.attempts ∙ p.attempts;
  legacy = q.legacy ∙ p.legacy;
}

-- The end of every operation: the event, the transition, and the task read once more.
pub journal_effect :
    (e : TypedEvent) (now : ℕ) (t : String → Transition) (id : String) (db db' : Db)
    (r : TaskRecord)
    → (emit e now >>= λ event. record_transition (t event) >> read_task id) db ≡ ok (r, db')
    → SameTables db db' × (find_task id db.tasks ≡ some r)
journal_effect e now t id db db' r h =
    let (event, db₁, he, h₁) =
      >>=-eq-ok (emit e now) (λ event. record_transition (t event) >> read_task id) db h in
    let (u, db₂, ht, h₂) = >>=-eq-ok (record_transition (t event)) (λ _. read_task id) db₁ h₁ in
    let (found, last) = read_task-ok id db₂ db' r h₂ in
    let same =
      SameTables-trans (emit-SameTables e now db db₁ event he)
        (record_transition-SameTables (t event) db₁ db₂ u ht) in
    (rw last same, rw (← same.tasks) found)

-- Inversion of a block that begins with a test.
pub require-then :
    {A : Type 0} (b : Bool) (e : TaskError) (k : Tx TaskError Db A) (db db' : Db) {r : A}
    → (require b e >> k) db ≡ ok (r, db')
    → (b ≡ true) × (k db ≡ ok (r, db'))
require-then true e k db db' h = (refl, h)
require-then false e k db db' h = cc

-- Inversion of a block that begins with the read of a task.
pub read-then :
    {A : Type 0} (id : String) (f : TaskRecord → Tx TaskError Db A) (db db' : Db) {r : A}
    → (read_task id >>= f) db ≡ ok (r, db')
    → (t : TaskRecord) × (find_task id db.tasks ≡ some t) × (f t db ≡ ok (r, db'))
read-then id f db db' h =
    let (t, same, found, rest) = >>=-eq-ok (read_task id) f db h in
    let (there, stays) = read_task-ok id db same t found in (t, there, rw stays at rest)

pub none_of_not_some : (o : Option String) → not (is_some o) ≡ true → o ≡ none
none_of_not_some none h = refl
none_of_not_some (some a) h = cc

pub task_id-find :
    (id : String) (tasks : List TaskRecord) (t : TaskRecord)
    → find_task id tasks ≡ some t
    → t.task_id ≡ id
unfolding find_task
task_id-find id tasks t h = key-find (λ (x : TaskRecord). x.task_id) id tasks h
