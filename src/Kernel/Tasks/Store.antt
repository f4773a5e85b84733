-- ===== src/Kernel/Tasks/Store.antt =====
-- harness2/kernel/tasks.py: the rows of kernel_tasks, kernel_task_attempts and
-- kernel_task_transitions, and the statements that the operations share.
use ultimate_harness.Base.{
  ℕ, ◌+◌, String, Bool, true, false, ◌&&◌, ◌||◌, ◌==◌, ◌=s◌, Option, none, some, List, [], ◌∷◌,
  ◌++◌, if◌then◌else◌, any,
}
use ultimate_harness.Base.Int.{ℤ}
use ultimate_harness.Base.Result.{ok, err, Tx}
use ultimate_harness.Base.Table.{find, update}
use ultimate_harness.Text.Codes.{Codes, codes}
use ultimate_harness.Text.Value.{Value, Fields, null, text, nil, cons, Items, end, show}
use ultimate_harness.Kernel.Events.{EventError, TypedEvent, Bus, check_event, append}
use ultimate_harness.Kernel.Tasks.State.{TaskState}

-- TaskError and its subclasses, the errors of the event bus, and a violated constraint of a table.
pub data TaskError : Type 0 where
  unknown_task invalid_transition stale_lease idempotency_conflict integrity : TaskError
  event_error : EventError → TaskError

-- TaskRecord. `constraints` and `budget` are canonical JSON.
pub record TaskRecord : Type 0 where
  pub task_id : String
  pub task_type : String
  pub state : TaskState
  pub source : String
  pub reason : String
  pub priority : ℤ
  pub authority : String
  pub objective_hash : String
  pub request_hash : String
  pub idempotency_key : Option String
  pub required_capabilities : List String
  pub constraints : Codes
  pub budget : Codes
  pub preferred_runtime : Option String
  pub max_attempts : ℕ
  pub attempts_started : ℕ
  pub current_fence : ℕ
  pub active_attempt_id : Option String
  pub next_run_at : ℕ
  pub result_hash : Option String
  pub error_code : Option String
  pub created_at : ℕ
  pub updated_at : ℕ
  pub terminal_at : Option ℕ
  pub revision : ℕ
  pub schema_version : ℕ

pub data AttemptState : Type 0 where
  in_progress succeeded unsuccessful cancelled expired : AttemptState

-- `state = 'running'` of an attempt.
abbrev pub is_live : AttemptState → Bool
is_live in_progress = true
is_live _ = false

pub record Attempt : Type 0 where
  pub attempt_id : String
  pub task_id : String
  pub attempt_no : ℕ
  pub fence_token : ℕ
  pub state : AttemptState
  pub owner_id : String
  pub lease_until : ℕ
  pub runtime_id : String
  pub plan_id : String
  pub plan_json : Codes
  pub plan_sha256 : String
  pub started_at : ℕ
  pub renewed_at : ℕ
  pub finished_at : Option ℕ
  pub outcome_hash : Option String
  pub error_code : Option String

pub record Transition : Type 0 where
  pub transition_id : String
  pub task_id : String
  pub attempt_id : Option String
  pub from_state : Option TaskState
  pub to_state : TaskState
  pub reason_code : String
  pub event_id : String
  pub occurred_at : ℕ
  pub revision : ℕ

-- The tables that the task repository reads and writes. `legacy` holds the task ids of
-- kernel_legacy_job_tasks.
pub record Db : Type 0 where
  pub tasks : List TaskRecord
  pub attempts : List Attempt
  pub transitions : List Transition
  pub bus : Bus
  pub legacy : List String

-- What one step of an operation draws from outside: identifiers by uuid4, and the clock.
pub record Fresh : Type 0 where
  pub event_id : String
  pub transition_id : String
  pub clock : ℕ

-- SELECT * FROM kernel_tasks WHERE task_id=?
unfoldable pub find_task : String → List TaskRecord → Option TaskRecord
unfolding find
find_task = find (λ t. t.task_id)

unfoldable pub find_attempt : String → List Attempt → Option Attempt
unfolding find
find_attempt = find (λ a. a.attempt_id)

-- UPDATE kernel_tasks SET … WHERE task_id=? AND revision=?
unfoldable pub update_task :
    String → ℕ → (TaskRecord → TaskRecord) → List TaskRecord → List TaskRecord
unfolding update
update_task id revision set =
    update (λ t. t.task_id) id (λ t. if t.revision == revision then set t else t)

-- cursor.rowcount of that statement
unfoldable pub rows_changed : String → ℕ → List TaskRecord → ℕ
rows_changed id revision [] = 0
rows_changed id revision (t ∷ ts) =
    (if t.task_id =s id && t.revision == revision then 1 else 0) + rows_changed id revision ts

-- UPDATE kernel_task_attempts SET … WHERE attempt_id=?
unfoldable pub update_attempt : String → (Attempt → Attempt) → List Attempt → List Attempt
unfolding update
update_attempt = update (λ a. a.attempt_id)

-- UPDATE kernel_task_attempts SET state=… WHERE attempt_id=? AND state='running'
unfoldable pub finish_attempt : String → (Attempt → Attempt) → List Attempt → List Attempt
unfolding update_attempt
finish_attempt id set = update_attempt id (λ a. if is_live a.state then set a else a)

-- The text of a template, such as f"{a}{separator}{n}".
abbrev pub key_text : String → String → Codes
key_text id suffix = codes id ++ codes suffix

abbrev pub key_number : String → String → ℕ → Codes
key_number id separator n = codes id ++ (codes separator ++ show n)

abbrev pub text_value : String → Value
text_value s = text (codes s)

abbrev pub option_value : Option String → Value
option_value none = null
option_value (some s) = text (codes s)

abbrev pub items_of : List String → Items
items_of [] = nil
items_of (s ∷ ss) = cons (text (codes s)) (items_of ss)

abbrev pub task_event :
    (event_type task_id : String) → Option String → Codes → Fields → Fresh → TypedEvent
task_event event_type task_id causation_id dedup_key payload fresh = record {
  event_id = fresh.event_id;
  event_type = event_type;
  schema_version = 1;
  source = "kernel.tasks";
  task_id = some task_id;
  correlation_id = task_id;
  causation_id = causation_id;
  occurred_at = fresh.clock;
  payload = payload;
  metadata = end;
  dedup_key = some dedup_key;
}

-- self.events.append(TypedEvent(…), connection=con); returns the event's id.
unfoldable pub emit : TypedEvent → ℕ → Tx TaskError Db String
emit e recorded db = elim (check_event e) [
  | err x ↦ err (event_error x)
  | ok _ ↦ elim (append e recorded db.bus) [
    | err x ↦ err (event_error x)
    | ok (row, bus') ↦ ok (row.event_id, record db { bus = bus' })
  ]
]

-- TaskRepository._record_transition: `transition_id` and `event_id` are unique.
unfoldable pub record_transition : Transition → Tx TaskError Db (Unit {0})
record_transition t db =
    if any (λ x. x.transition_id =s t.transition_id || x.event_id =s t.event_id) db.transitions
    then err integrity
    else ok (tt, record db { transitions = db.transitions ++ t ∷ [] })

abbrev pub or_unknown : Option TaskRecord → Tx TaskError Db TaskRecord
or_unknown none db = err unknown_task
or_unknown (some t) db = ok (t, db)

-- The row of a task, which has to be there.
unfoldable pub read_task : String → Tx TaskError Db TaskRecord
read_task id db = or_unknown (find_task id db.tasks) db

abbrev pub write_task : String → ℕ → (TaskRecord → TaskRecord) → Tx TaskError Db (Unit {0})
write_task id revision set db = ok (tt, record db { tasks = update_task id revision set db.tasks })

abbrev pub write_attempts : (List Attempt → List Attempt) → Tx TaskError Db (Unit {0})
write_attempts f db = ok (tt, record db { attempts = f db.attempts })
