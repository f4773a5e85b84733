-- ===== src/Kernel/Tasks/SubmitEffects.antt =====
-- What submit and prepare have done to the tables of tasks and attempts, and that they keep the invariant.
use ultimate_harness.Base.{
  ℕ, String, ◌≡◌, refl, ap, ◌∙◌, ◌⊎◌, inl, inr, Bool, true, false, ◌=s◌, Option-cases, none, some,
  [], ◌∷◌, ◌++◌, arith,
}
use ultimate_harness.Base.Result.{ok, Tx, ◌>>=◌, >>=-eq-ok}
use ultimate_harness.Text.Codes.{Codes}
use ultimate_harness.Text.Value.{Fields}
use ultimate_harness.Kernel.Tasks.State.{TaskState, planned, ready}
use ultimate_harness.Kernel.Tasks.Store.{TaskError, TaskRecord, Db, Fresh, find_task}
use ultimate_harness.Kernel.Tasks.Submit.{
  ExecutionRequest, Submission, encode, key_holder, lookup_key, new_task, insert_task,
  insert_submission, submission_hash, submit_hashed, submit,
}
use ultimate_harness.Kernel.Tasks.Control.{step_if, prepare, is_created, is_planned}
use ultimate_harness.Kernel.Tasks.Frames.{journal_effect, read-then}
use ultimate_harness.Kernel.Tasks.Puts.{insert_task-Put}
use ultimate_harness.Kernel.Tasks.Invariant.{Inv, TaskOk, Inv-retask}
use ultimate_harness.Kernel.Tasks.Preservation.{transition-Inv}

encode-ok : (v : Fields) (db db' : Db) (s : Codes) → encode v db ≡ ok (s, db') → db' ≡ db
encode-ok v db db' s h = ground arith

encode-then :
    {A : Type 0} (v : Fields) (k : Codes → Tx TaskError Db A) (db db' : Db) {r : A}
    → (encode v >>= k) db ≡ ok (r, db')
    → (s : Codes) × (k s db ≡ ok (r, db'))
encode-then v k db db' h =
    let (s, db₁, he, h₁) = >>=-eq-ok (encode v) k db h in (s, rw (encode-ok v db db₁ s he) at h₁)

module _ (sha256 : Codes → String) where
  insert_task-ok :
      (t : TaskRecord) (db db' : Db) (u : Unit {0})
      → insert_task sha256 t db ≡ ok (u, db')
      → (key_holder t.idempotency_key db.tasks ≡ none)
        × (db' ≡ record db { tasks = db.tasks ++ t ∷ [] })
  unfolding insert_task
  insert_task-ok t db db' u h = elim (Option-cases (key_holder t.idempotency_key db.tasks)) [
    | inl n ↦ (n, ground arith)
    | inr (x, s) ↦ absurd (ground arith)
  ]

  -- A submission that was not there is inserted with its journal entries.
  pub insert_submission_effect :
      (hash : String) (q : ExecutionRequest) (s : Submission) (now : ℕ) (fresh : Fresh)
      (db db' : Db) (r : TaskRecord)
      → insert_submission sha256 hash q s now fresh db ≡ ok (r, db')
      → (constraints : Codes) × (budget : Codes) × (db'.tasks
          ≡ db.tasks ++ new_task sha256 q s hash constraints budget now ∷ [])
        × (db'.attempts ≡ db.attempts)
        × (find_task q.task_id db'.tasks ≡ some r)
  unfolding insert_submission
  insert_submission_effect hash q s now fresh db db' r h =
      let (c, h₁) = encode-then q.constraints _ db db' h in
      let (b, h₂) = encode-then q.budget _ db db' h₁ in
      let (u, db₁, hi, h₃) =
        >>=-eq-ok (insert_task sha256 (new_task sha256 q s hash c b now)) _ db h₂ in
      let (free, grown) = insert_task-ok (new_task sha256 q s hash c b now) db db₁ u hi in
      let (same, last) = journal_effect _ _ _ _ _ db' r h₃ in
      (
        c,
        b,
        same.tasks ∙ ap (λ (x : Db). x.tasks) grown,
        same.attempts ∙ ap (λ (x : Db). x.attempts) grown,
        rw same.tasks last,
      )

  -- The two ways in which a submission returns: the identical one that is there, or a new row.
  pub submit_hashed_cases :
      (hash : String) (q : ExecutionRequest) (s : Submission) (now : ℕ) (fresh : Fresh)
      (db db' : Db) (r : TaskRecord)
      → submit_hashed sha256 hash q s now fresh db ≡ ok (r, db')
      → ((db' ≡ db) × ((r.request_hash =s hash) ≡ true))
        ⊎ ((find_task q.task_id db.tasks ≡ none)
            × (insert_submission sha256 hash q s now fresh db ≡ ok (r, db')))
  unfolding submit_hashed
  submit_hashed_cases hash q s now fresh db db' r h =
      elim (Option-cases (find_task q.task_id db.tasks)) [
        | inr (t, f) ↦ inl (ground arith)
        | inl n ↦ elim (Option-cases (lookup_key s.idempotency_key db.tasks)) [
          | inr (t, f) ↦ inl (ground arith)
          | inl m ↦ inr (n, ground arith)
        ]
      ]

  new_task-TaskOk :
      (q : ExecutionRequest) (s : Submission) (hash : String) (c b : Codes) (now : ℕ)
      → TaskOk (new_task sha256 q s hash c b now)
  new_task-TaskOk q s hash c b now = record {
    active_runs = λ aid e. absurd (cc e);
    budget = omega arith;
    fence = refl;
    dated = refl;
  }

  insert_submission-Inv :
      (hash : String) (q : ExecutionRequest) (s : Submission) (now : ℕ) (fresh : Fresh)
      (db db' : Db) (r : TaskRecord)
      → Inv db
      → find_task q.task_id db.tasks ≡ none
      → insert_submission sha256 hash q s now fresh db ≡ ok (r, db')
      → Inv db'
  insert_submission-Inv hash q s now fresh db db' r v n h =
      let (c, b, tasks, same, last) = insert_submission_effect hash q s now fresh db db' r h in
      let t = new_task sha256 q s hash c b now in
      Inv-retask db db' q.task_id t v (insert_task-Put db db' q.task_id t refl n tasks) same
        (λ x f. absurd (cc (n, f))) refl (new_task-TaskOk q s hash c b now)

  submission_hash-keeps :
      (q : ExecutionRequest) (s : Submission) (db db' : Db) (x : String)
      → submission_hash sha256 q s db ≡ ok (x, db')
      → db' ≡ db
  unfolding submission_hash
  submission_hash-keeps q s db db' x h =
      let (a, h₁) = encode-then _ _ db db' h in let (b, h₂) = encode-then _ _ db db' h₁ in cc

  pub submit-cases :
      (q : ExecutionRequest) (s : Submission) (now : ℕ) (fresh : Fresh) (db db' : Db)
      (r : TaskRecord)
      → submit sha256 q s now fresh db ≡ ok (r, db')
      → (hash : String) × (submission_hash sha256 q s db ≡ ok (hash, db))
        × (submit_hashed sha256 hash q s now fresh db ≡ ok (r, db'))
  unfolding submit
  submit-cases q s now fresh db db' r h =
      let (hash, db₁, hh, h₁) =
        >>=-eq-ok (submission_hash sha256 q s) (λ x. submit_hashed sha256 x q s now fresh) db h in
      let same = submission_hash-keeps q s db db₁ hash hh in (hash, rw same at hh, rw same at h₁)

  -- A submission that returns keeps the invariant of the tables.
  pub submit-Inv :
      (q : ExecutionRequest) (s : Submission) (now : ℕ) (fresh : Fresh) (db db' : Db)
      (r : TaskRecord)
      → Inv db
      → submit sha256 q s now fresh db ≡ ok (r, db')
      → Inv db'
  submit-Inv q s now fresh db db' r v h =
      let (hash, hh, h₁) = submit-cases q s now fresh db db' r h in
      elim (submit_hashed_cases hash q s now fresh db db' r h₁) [
        | inl (e, _) ↦ rw e v
        | inr (n, h₂) ↦ insert_submission-Inv hash q s now fresh db db' r v n h₂
      ]

step_if-Inv :
    (b : Bool) (to : TaskState) (reason : String) (now : ℕ) (fresh : Fresh) (t : TaskRecord)
    (db db' : Db) (r : TaskRecord)
    → Inv db
    → step_if b to reason now fresh t db ≡ ok (r, db')
    → Inv db'
step_if-Inv true to reason now fresh t db db' r v h =
    transition-Inv t.task_id to reason none now fresh db db' r v h
step_if-Inv false to reason now fresh t db db' r v h = let e : db' ≡ db = cc in rw e v

pub prepare-Inv :
    (id : String) (now : ℕ) (fresh : ℕ → Fresh) (db db' : Db) (r : TaskRecord)
    → Inv db
    → prepare id now fresh db ≡ ok (r, db')
    → Inv db'
unfolding prepare
prepare-Inv id now fresh db db' r v h =
    let (t, found, h₁) = read-then id _ db db' h in
    let (t₁, db₁, e₁, h₂) =
      >>=-eq-ok (step_if (is_created t.state) planned "plan.created" now (fresh 0) t) _ db h₁ in
    let v₁ = step_if-Inv _ _ _ _ _ _ _ _ _ v e₁ in
    let (t₂, db₂, e₂, h₃) =
      >>=-eq-ok (step_if (is_planned t₁.state) ready "plan.ready" now (fresh 1) t₁) _ db₁ h₂ in
    let v₂ = step_if-Inv _ _ _ _ _ _ _ _ _ v₁ e₂ in step_if-Inv _ _ _ _ _ _ _ _ _ v₂ h₃
