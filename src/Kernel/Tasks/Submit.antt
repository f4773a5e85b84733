-- ===== src/Kernel/Tasks/Submit.antt =====
-- harness2/kernel/tasks.py, execution_request_hash and TaskRepository._submit.
use ultimate_harness.Base.{
  ℕ, String, ◌&&◌, ◌||◌, not, ◌=s◌, max, Option, none, some, List, [], ◌∷◌, ◌++◌, if◌then◌else◌,
}
use ultimate_harness.Base.Int.{ℤ, pos}
use ultimate_harness.Base.Result.{ok, err, Tx, pure, ◌>>=◌, ◌>>◌}
use ultimate_harness.Text.Codes.{Codes, codes}
use ultimate_harness.Text.Value.{Fields, num, arr, obj, end, field}
use ultimate_harness.Kernel.Events.{canonical_json, max_event_bytes, option_eq}
use ultimate_harness.Kernel.Tasks.State.{created, state_value}
use ultimate_harness.Kernel.Tasks.Store.{
  TaskError, idempotency_conflict, event_error, TaskRecord, Db, Fresh, find_task, key_text,
  text_value, option_value, items_of, task_event, emit, record_transition, read_task,
}

pub record ExecutionRequest : Type 0 where
  pub task_id : String
  pub objective : Codes
  pub required_capabilities : List String
  pub preferred_runtime : Option String
  pub inputs : Fields
  pub constraints : Fields
  pub budget : Fields

-- The keyword arguments of `submit`.
pub record Submission : Type 0 where
  pub task_type : String
  pub source : String
  pub reason : String
  pub priority : ℤ
  pub authority : String
  pub idempotency_key : Option String
  pub max_attempts : ℕ

-- canonical_json(value) inside an operation
abbrev pub encode : Fields → Tx TaskError Db Codes
encode value db = elim (canonical_json max_event_bytes value) [
  | ok s ↦ ok (s, db)
  | err x ↦ err (event_error x)
]

-- SELECT * FROM kernel_tasks WHERE idempotency_key=?
unfoldable pub find_key : String → List TaskRecord → Option TaskRecord
find_key key [] = none
find_key key (t ∷ ts) =
    if option_eq ◌=s◌ t.idempotency_key (some key) then some t else find_key key ts

abbrev pub key_holder : Option String → List TaskRecord → Option TaskRecord
key_holder none tasks = none
key_holder (some key) tasks = find_key key tasks

-- `if idempotency_key:` leaves out the absent and the empty key.
abbrev pub lookup_key : Option String → List TaskRecord → Option TaskRecord
lookup_key none tasks = none
lookup_key (some key) tasks = if key =s "" then none else find_key key tasks

module _ (sha256 : Codes → String) where
  unfoldable pub request_fields : ExecutionRequest → Fields
  request_fields r = field (codes "task_id") (text_value r.task_id) (
      field (codes "objective_hash") (text_value (sha256 r.objective)) (
        field (codes "required_capabilities") (arr (items_of r.required_capabilities)) (
          field (codes "preferred_runtime") (option_value r.preferred_runtime) (
            field (codes "inputs") (obj r.inputs) (
              field (codes "constraints") (obj r.constraints)
                (field (codes "budget") (obj r.budget) end))))))

  unfoldable pub submission_fields : String → Submission → Fields
  submission_fields request_hash s = field (codes "request_hash") (text_value request_hash) (
      field (codes "task_type") (text_value s.task_type) (
        field (codes "source") (text_value s.source) (
          field (codes "reason") (text_value s.reason) (
            field (codes "priority") (num s.priority) (
              field (codes "authority") (text_value s.authority)
                (field (codes "max_attempts") (num (pos (max 1 s.max_attempts))) end))))))

  -- execution_request_hash, and the hash of the whole submission.
  unfoldable pub submission_hash : ExecutionRequest → Submission → Tx TaskError Db String
  unfolding request_fields submission_fields
  submission_hash request s = do
    request_text ← encode (request_fields request)
    submission_text ← encode (submission_fields (sha256 request_text) s)
    pure (sha256 submission_text)

  abbrev pub new_task : ExecutionRequest → Submission → String → Codes → Codes → ℕ → TaskRecord
  new_task request s hash constraints budget now = record {
    task_id = request.task_id;
    task_type = s.task_type;
    state = created;
    source = s.source;
    reason = s.reason;
    priority = s.priority;
    authority = s.authority;
    objective_hash = sha256 request.objective;
    request_hash = hash;
    idempotency_key = s.idempotency_key;
    required_capabilities = request.required_capabilities;
    constraints = constraints;
    budget = budget;
    preferred_runtime = request.preferred_runtime;
    max_attempts = max 1 s.max_attempts;
    attempts_started = 0;
    current_fence = 0;
    active_attempt_id = none;
    next_run_at = now;
    result_hash = none;
    error_code = none;
    created_at = now;
    updated_at = now;
    terminal_at = none;
    revision = 0;
    schema_version = 1;
  }

  -- INSERT of a row whose task id is new. The empty idempotency key is not looked up, and is unique
  -- all the same.
  unfoldable pub insert_task : TaskRecord → Tx TaskError Db (Unit {0})
  insert_task t db = elim (key_holder t.idempotency_key db.tasks) [
    | some other ↦ err TaskError.integrity
    | none ↦ ok (tt, record db { tasks = db.tasks ++ t ∷ [] })
  ]

  unfoldable pub insert_submission :
      String → ExecutionRequest → Submission → ℕ → Fresh → Tx TaskError Db TaskRecord
  unfolding insert_task
  insert_submission hash request s now fresh = do
    constraints ← encode request.constraints
    budget ← encode request.budget
    insert_task (new_task request s hash constraints budget now)
    event ←
        emit
          (task_event "task.created" request.task_id none (key_text request.task_id ":created")
            (field (codes "task_type") (text_value s.task_type) (
              field (codes "state") (text_value (state_value created)) (
                field (codes "objective_hash") (text_value (sha256 request.objective)) (
                  field (codes "request_hash") (text_value hash) (
                    field (codes "priority") (num s.priority)
                      (field (codes "authority") (text_value s.authority) end))))))
            fresh)
          fresh.clock
    record_transition (record {
      transition_id = fresh.transition_id;
      task_id = request.task_id;
      attempt_id = none;
      from_state = none;
      to_state = created;
      reason_code = "submitted";
      event_id = event;
      occurred_at = now;
      revision = 0;
    })
    read_task request.task_id

  -- The part of _submit behind the hash: an identical submission returns the task that is there.
  unfoldable pub submit_hashed :
      String → ExecutionRequest → Submission → ℕ → Fresh → Tx TaskError Db TaskRecord
  unfolding insert_submission
  submit_hashed hash request s now fresh db = elim (find_task request.task_id db.tasks) [
    | some value ↦
        if value.request_hash =s hash && option_eq ◌=s◌ value.idempotency_key s.idempotency_key
        then ok (value, db)
        else err idempotency_conflict
    | none ↦ elim (lookup_key s.idempotency_key db.tasks) [
      | some value ↦
          if not (value.request_hash =s hash) || not (value.task_id =s request.task_id)
          then err idempotency_conflict
          else ok (value, db)
      | none ↦ insert_submission hash request s now fresh db
    ]
  ]

  -- TaskRepository._submit
  unfoldable pub submit : ExecutionRequest → Submission → ℕ → Fresh → Tx TaskError Db TaskRecord
  unfolding submission_hash submit_hashed
  submit request s now fresh = do
    hash ← submission_hash request s
    submit_hashed hash request s now fresh
