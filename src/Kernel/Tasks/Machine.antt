-- ===== src/Kernel/Tasks/Machine.antt =====
-- The operations of the repository follow the state machine of a task.
use mathlib.Core.Option
use ultimate_harness.Base.{String, ◌≡◌, ◌⊎◌, Bool, true, Option, some}
use ultimate_harness.Text.Codes.{Codes}
use ultimate_harness.Kernel.Tasks.State.{TaskState}
use ultimate_harness.Kernel.Tasks.Store.{TaskRecord, Db, find_task}

abbrev pub state_at : Db → String → Option TaskState
state_at db id = Option.map (λ (t : TaskRecord). t.state) (find_task id db.tasks)

-- The state of a task stays, or it takes one edge.
abbrev Moved : (Option TaskState → TaskState → Bool) → Option TaskState → Option TaskState → Type 0
Moved may a b = (b ≡ a) ⊎ ((to : TaskState) × (b ≡ some to) × (may a to ≡ true))

abbrev Follows : (Option TaskState → TaskState → Bool) → Db → Db → Type 0
Follows may db db' = (id : String) → Moved may (state_at db id) (state_at db' id)
