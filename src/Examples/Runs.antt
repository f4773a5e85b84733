-- ===== src/Examples/Runs.antt =====
-- One task that is submitted, prepared and claimed.
use ultimate_harness.Base.{
  ℕ, zero, suc, String, none, some, List, [], ◌∷◌, ◌≡◌, refl, true, false, length,
}
use ultimate_harness.Base.Int.{pos}
use ultimate_harness.Base.Result.{Result, ok, err}
use ultimate_harness.Base.Table.{find, update}
use ultimate_harness.Text.Codes.{Codes, codes, codes_eq, is_space, lstrip, strip, join, utf8_size}
use ultimate_harness.Text.Value.{
  end, show_digits, show, codes_lt, insert_field, sort_fields, render, dumps_object,
}
use ultimate_harness.Text.Json.{escape_char, escape, dumps_text}
use ultimate_harness.Kernel.Events.{
  canonical_json, is_blank, check_event, equivalent, find_dedup, find_event, insert, write, append,
  empty,
}
use ultimate_harness.Kernel.Tasks.State.{TaskState}
use ultimate_harness.Kernel.Tasks.Store.{
  TaskError, TaskRecord, Attempt, Db, Fresh, find_task, find_attempt, update_task, rows_changed,
  update_attempt, finish_attempt, emit, record_transition, read_task,
}
use ultimate_harness.Kernel.Tasks.Submit.{
  ExecutionRequest, Submission, find_key, request_fields, submission_fields, submission_hash,
  insert_task, insert_submission, submit_hashed, submit, new_task,
}
use ultimate_harness.Kernel.Tasks.Control.{transition, prepare}
use ultimate_harness.Kernel.Tasks.Lease.{
  ExecutionPlan, AttemptLease, plan_dict, insert_attempt, start_attempt, claim_encoded, claim,
  verify_lease, renew, complete, new_attempt, new_lease,
}
use ultimate_harness.Kernel.Tasks.Cancel.{stop_attempt, cancel}
use ultimate_harness.Kernel.Tasks.Recovery.{
  expired_rows, insert_row, by_lease, recover_one, recover_rows, recover_expired,
}
use ultimate_harness.Kernel.Tasks.Overdue.{late}
use ultimate_harness.Kernel.Tasks.Steps.{new_db}

abbrev pub hash : Codes → String
hash text = "digest"

abbrev pub request : ExecutionRequest
request = record {
  task_id = "a";
  objective = [];
  required_capabilities = [];
  preferred_runtime = none;
  inputs = end;
  constraints = end;
  budget = end;
}

abbrev pub submission : Submission
submission = record {
  task_type = "run";
  source = "cli";
  reason = "user";
  priority = pos 0;
  authority = "user";
  idempotency_key = none;
  max_attempts = 2;
}

abbrev pub fresh : String → String → Fresh
fresh event transition = record { event_id = event; transition_id = transition; clock = 1 }

abbrev pub prepare_fresh : ℕ → Fresh
prepare_fresh zero = fresh "e1" "t1"
prepare_fresh (suc n) = fresh "e2" "t2"

abbrev pub plan : ExecutionPlan
plan = record {
  plan_id = "p";
  task_id = "a";
  runtime_id = "local";
  capabilities = [];
  steps = [];
  verification = [];
  reason = "";
}

-- The value and the state of a block that returned.
abbrev pub state_of : {A : Type 0} → Result TaskError (A × Db) → Db
state_of (ok (a, db)) = db
state_of (err x) = new_db

abbrev pub value_of : {A : Type 0} → A → Result TaskError (A × Db) → A
value_of default (ok (a, db)) = a
value_of default (err x) = default

abbrev pub no_task : TaskRecord
no_task = new_task hash request submission "" [] [] 0

abbrev pub no_lease : AttemptLease
no_lease = new_lease plan "" 0 0 "" no_task

abbrev pub submitted : Result TaskError (TaskRecord × Db)
submitted = submit hash request submission 0 (fresh "e0" "t0") new_db

abbrev pub prepared : Result TaskError (TaskRecord × Db)
prepared = prepare "a" 1 prepare_fresh (state_of submitted)

abbrev pub claimed : Result TaskError (AttemptLease × Db)
claimed = claim hash "a" plan "worker" 60 2 "x" (fresh "e3" "t3") (state_of prepared)

abbrev pub lease : AttemptLease
lease = value_of no_lease claimed

abbrev pub running_db : Db
running_db = state_of claimed

-- Two tasks that run side by side.
abbrev pub running_task : String → String → TaskRecord
running_task id attempt_id = record no_task {
  task_id = id;
  state = TaskState.running;
  attempts_started = 1;
  current_fence = 1;
  active_attempt_id = some attempt_id;
  revision = 3;
}

abbrev pub lease_on : String → String → AttemptLease
lease_on id attempt_id = record no_lease {
  attempt_id = attempt_id;
  task_id = id;
  attempt_no = 1;
  fence_token = 1;
  owner_id = "worker";
  lease_until = 62;
}

abbrev pub attempt_on : String → String → Attempt
attempt_on id attempt_id = new_attempt hash [] (lease_on id attempt_id) 2

abbrev pub both_db : Db
both_db = record {
  tasks = running_task "a" "x" ∷ running_task "b" "y" ∷ [];
  attempts = attempt_on "a" "x" ∷ attempt_on "b" "y" ∷ [];
  transitions = [];
  bus = empty;
  legacy = [];
}

abbrev pub completed : Result TaskError (TaskRecord × Db)
completed = complete (lease_on "a" "x") true "out" none false none 3 (fresh "e4" "t4") both_db

abbrev pub renewed : Result TaskError (AttemptLease × Db)
renewed = renew (lease_on "a" "x") 100 10 (fresh "e4" "t4") both_db

abbrev pub cancelled : Result TaskError (TaskRecord × Db)
cancelled = cancel "a" (some (lease_on "b" "y")) 5 (fresh "f9" "u9") both_db

-- The first task is over, the second runs and is completed.
abbrev pub done_task : TaskRecord
done_task = record (running_task "a" "x") { state = TaskState.completed; active_attempt_id = none }

abbrev pub done_db : Db
done_db = record both_db { tasks = done_task ∷ running_task "b" "y" ∷ [] }

abbrev pub both_done : Result TaskError (TaskRecord × Db)
both_done = complete (lease_on "b" "y") true "out" none false none 3 (fresh "e4" "t4") done_db

-- The blocks of the runs return.
pub runs :
    (submitted ≡ ok (value_of no_task submitted, state_of submitted))
    × (prepared ≡ ok (value_of no_task prepared, state_of prepared))
    × (claimed ≡ ok (lease, running_db))
unfolding codes codes_eq is_space strip lstrip join escape_char escape dumps_text show_digits show
    codes_lt insert_field sort_fields render dumps_object canonical_json is_blank check_event
    equivalent find_dedup find_event insert write append find update find_task find_attempt
    update_task rows_changed update_attempt finish_attempt emit record_transition read_task find_key
    request_fields submission_fields submission_hash insert_task insert_submission submit_hashed
    submit transition prepare plan_dict insert_attempt start_attempt claim_encoded claim utf8_size
runs = (refl, refl, refl)

abbrev pub plan_text : List Attempt → Codes
plan_text [] = []
plan_text (a ∷ rest) = a.plan_json

pub running_attempt :
    find_attempt "x" running_db.attempts
    ≡ some (new_attempt hash (plan_text running_db.attempts) lease 2)
unfolding codes codes_eq is_space strip lstrip join escape_char escape dumps_text show_digits show
    codes_lt insert_field sort_fields render dumps_object canonical_json is_blank check_event
    equivalent find_dedup find_event insert write append find update find_task find_attempt
    update_task rows_changed update_attempt finish_attempt emit record_transition read_task find_key
    request_fields submission_fields submission_hash insert_task insert_submission submit_hashed
    submit transition prepare plan_dict insert_attempt start_attempt claim_encoded claim utf8_size
running_attempt = refl

pub blocks :
    (completed ≡ ok (value_of no_task completed, state_of completed))
    × (renewed ≡ ok (value_of no_lease renewed, state_of renewed))
    × (cancelled ≡ ok (value_of no_task cancelled, state_of cancelled))
    × (both_done ≡ ok (value_of no_task both_done, state_of both_done))
unfolding codes codes_eq is_space strip lstrip join escape_char escape dumps_text show_digits show
    codes_lt insert_field sort_fields render dumps_object canonical_json is_blank check_event
    equivalent find_dedup find_event insert write append find update find_task find_attempt
    update_task rows_changed update_attempt finish_attempt emit record_transition read_task find_key
    request_fields submission_fields submission_hash insert_task insert_submission submit_hashed
    submit transition prepare plan_dict insert_attempt start_attempt claim_encoded claim utf8_size
    verify_lease renew complete stop_attempt cancel
blocks = (refl, refl, refl, refl)

-- Both leases are authoritative.
pub leases :
    (verify_lease (lease_on "a" "x") 5 both_db
      ≡ ok ((running_task "a" "x", attempt_on "a" "x"), both_db))
    × (verify_lease (lease_on "b" "y") 5 both_db
        ≡ ok ((running_task "b" "y", attempt_on "b" "y"), both_db))
unfolding codes codes_eq is_space strip lstrip join escape_char escape dumps_text show_digits show
    codes_lt insert_field sort_fields render dumps_object canonical_json is_blank check_event
    equivalent find_dedup find_event insert write append find update find_task find_attempt
    update_task rows_changed update_attempt finish_attempt emit record_transition read_task find_key
    request_fields submission_fields submission_hash insert_task insert_submission submit_hashed
    submit transition prepare plan_dict insert_attempt start_attempt claim_encoded claim utf8_size
    verify_lease
leases = (refl, refl)

pub done_there : find_task "a" done_db.tasks ≡ some done_task
unfolding find find_task
done_there = refl

pub lease_fence : lease.fence_token ≡ 1
unfolding codes codes_eq is_space strip lstrip join escape_char escape dumps_text show_digits show
    codes_lt insert_field sort_fields render dumps_object canonical_json is_blank check_event
    equivalent find_dedup find_event insert write append find update find_task find_attempt
    update_task rows_changed update_attempt finish_attempt emit record_transition read_task find_key
    request_fields submission_fields submission_hash insert_task insert_submission submit_hashed
    submit transition prepare plan_dict insert_attempt start_attempt claim_encoded claim utf8_size
lease_fence = refl

-- The lease of the claimed task has run out at 100.
abbrev pub recovery : Result TaskError (ℕ × Db)
recovery = recover_expired 100 10 (λ n. fresh "e9" "t9") running_db

pub recovery_returns :
    (recovery ≡ ok (1, state_of recovery)) × (length (late 100 running_db.attempts) ≡ 1)
unfolding codes codes_eq is_space strip lstrip join escape_char escape dumps_text show_digits show
    codes_lt insert_field sort_fields render dumps_object canonical_json is_blank check_event
    equivalent find_dedup find_event insert write append find update find_task find_attempt
    update_task rows_changed update_attempt finish_attempt emit record_transition read_task find_key
    request_fields submission_fields submission_hash insert_task insert_submission submit_hashed
    submit transition prepare plan_dict insert_attempt start_attempt claim_encoded claim utf8_size
    expired_rows insert_row by_lease recover_one recover_rows recover_expired
recovery_returns = (refl, refl)
