-- ===== src/Kernel/Tasks/Resubmit.antt =====
-- Submitting the same request once more.
use ultimate_harness.Base.{
  ℕ, String, ◌≡◌, refl, ap, ◌∙◌, inl, inr, true, ◌=s◌, Option-cases, Option, none, some, arith,
  eq_refl, eq_iff,
}
use ultimate_harness.Base.Result.{ok, >>=-ok}
use ultimate_harness.Text.Codes.{Codes}
use ultimate_harness.Text.Value.{Fields}
use ultimate_harness.Kernel.Events.{option_eq}
use ultimate_harness.Kernel.Tasks.Store.{TaskRecord, Db, Fresh, find_task}
use ultimate_harness.Kernel.Tasks.Submit.{
  ExecutionRequest, Submission, new_task, lookup_key, encode, insert_submission, submission_hash,
  submit_hashed, submit,
}
use ultimate_harness.Kernel.Tasks.Puts.{task_at, Put-self, insert_task-Put}
use ultimate_harness.Kernel.Tasks.SubmitEffects.{submit-cases, insert_submission_effect}

option_eq_refl : (o : Option String) → option_eq ◌=s◌ o o ≡ true
option_eq_refl none = refl
option_eq_refl (some s) = eq_refl s

encode-anywhere :
    (v : Fields) (db db' : Db) (x : Codes) → encode v db ≡ ok (x, db) → encode v db' ≡ ok (x, db')
encode-anywhere v db db' x h = ground arith

module _ (sha256 : Codes → String) where
  -- The hash of a submission does not depend on the database.
  hash-anywhere :
      (q : ExecutionRequest) (s : Submission) (db db' : Db) (hash : String)
      → submission_hash sha256 q s db ≡ ok (hash, db)
      → submission_hash sha256 q s db' ≡ ok (hash, db')
  unfolding submission_hash
  hash-anywhere q s db db' hash h = ground arith

  by_hash :
      (q : ExecutionRequest) (s : Submission) (now : ℕ) (fresh : Fresh) (db : Db) (hash : String)
      → submission_hash sha256 q s db ≡ ok (hash, db)
      → submit sha256 q s now fresh db ≡ submit_hashed sha256 hash q s now fresh db
  unfolding submit
  by_hash q s now fresh db hash h =
      >>=-ok (submission_hash sha256 q s) (λ x. submit_hashed sha256 x q s now fresh) db db h

  same_again :
      (hash : String) (q : ExecutionRequest) (s : Submission) (db : Db) (r : TaskRecord) (now : ℕ)
      (fresh : Fresh)
      → find_task q.task_id db.tasks ≡ some r
      → r.request_hash ≡ hash
      → r.idempotency_key ≡ s.idempotency_key
      → submit_hashed sha256 hash q s now fresh db ≡ ok (r, db)
  unfolding submit_hashed
  same_again hash q s db r now fresh f h k =
      let a : (r.request_hash =s hash) ≡ true = (eq_iff r.request_hash hash).1 h in
      let b : option_eq ◌=s◌ r.idempotency_key s.idempotency_key ≡ true =
        rw k (option_eq_refl s.idempotency_key) in
      ground arith

  hashed_idempotent :
      (hash : String) (q : ExecutionRequest) (s : Submission) (now later : ℕ) (fresh fresh' : Fresh)
      (db db' : Db) (r : TaskRecord)
      → submit_hashed sha256 hash q s now fresh db ≡ ok (r, db')
      → submit_hashed sha256 hash q s later fresh' db' ≡ ok (r, db')
  unfolding submit_hashed
  hashed_idempotent hash q s now later fresh fresh' db db' r h =
      elim (Option-cases (find_task q.task_id db.tasks)) [
        | inr (t, f) ↦ let e : db' ≡ db = ground arith in rw e (ground arith)
        | inl n ↦ elim (Option-cases (lookup_key s.idempotency_key db.tasks)) [
          | inr (t, f) ↦ let e : db' ≡ db = ground arith in rw e (ground arith)
          | inl m ↦ inserted n (ground arith)
        ]
      ]
    where
      inserted :
          find_task q.task_id db.tasks ≡ none
          → insert_submission sha256 hash q s now fresh db ≡ ok (r, db')
          → submit_hashed sha256 hash q s later fresh' db' ≡ ok (r, db')
      inserted n h₂ =
          let (c, b, tasks, same, last) =
            insert_submission_effect sha256 hash q s now fresh db db' r h₂ in
          let t = new_task sha256 q s hash c b now in
          let at =
            Put-self q.task_id t (task_at db) (task_at db')
              (insert_task-Put db db' q.task_id t refl n tasks) in
          let e : r ≡ t = cc (at, last) in
          same_again hash q s db' r later fresh' last (ap (λ (x : TaskRecord). x.request_hash) e)
            (ap (λ (x : TaskRecord). x.idempotency_key) e)

  -- After a submission that returned, the same submission at any later time returns the same task and
  -- changes nothing; the clock and the identifiers that it draws do not matter.
  pub submit_idempotent :
      (q : ExecutionRequest) (s : Submission) (now later : ℕ) (fresh fresh' : Fresh) (db db' : Db)
      (r : TaskRecord)
      → submit sha256 q s now fresh db ≡ ok (r, db')
      → submit sha256 q s later fresh' db' ≡ ok (r, db')
  submit_idempotent q s now later fresh fresh' db db' r h =
      let (hash, hh, h₁) = submit-cases sha256 q s now fresh db db' r h in
      by_hash q s later fresh' db' hash (hash-anywhere q s db db' hash hh)
      ∙ hashed_idempotent hash q s now later fresh fresh' db db' r h₁
