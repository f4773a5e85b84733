-- ===== src/Kernel/Tasks/Final.antt =====
-- The tasks that are over for good: those completed or cancelled.
use ultimate_harness.Base.{
  ◌+◌, ◌==◌, min, max, List, [], ◌∷◌, take, All, if◌then◌else◌, ℕ, String, ◌≡◌, refl, ap, ◌∙◌, inl,
  inr, Bool, true, false, ◌=s◌, Bool-cases, Option, none, some, arith, eq_iff, ◌++◌,
}
use ultimate_harness.Base.Result.{ok, >>=-eq-ok}
use ultimate_harness.Text.Codes.{Codes, codes}
use ultimate_harness.Kernel.Tasks.State.{
  TaskState, completed, cancelled, planned, ready, is_running, is_failed, is_claimable, is_allowed,
}
use ultimate_harness.Kernel.Tasks.Store.{TaskRecord, Db, Fresh, find_task, update_task}
use ultimate_harness.Kernel.Tasks.Control.{transition, prepare, step_if, is_created, is_planned}
use ultimate_harness.Kernel.Tasks.Effects.{
  Wrote, moved, called_off, requeued, finished, started, transition_effect, retry_effect,
}
use ultimate_harness.Kernel.Tasks.LeaseEffects.{complete_effect, renew_effect, cancel_effect}
use ultimate_harness.Kernel.Tasks.ClaimEffects.{claim_effect}
use ultimate_harness.Kernel.Tasks.Frames.{task_id-find, read-then}
use ultimate_harness.Kernel.Tasks.Puts.{Put, Put-other, task_at, update_task-Put, insert_task-Put}
use ultimate_harness.Kernel.Tasks.SubmitEffects.{
  submit-cases, submit_hashed_cases, insert_submission_effect,
}
use ultimate_harness.Kernel.Tasks.Submit.{new_task}
use ultimate_harness.Kernel.Tasks.Lease.{AttemptLease, complete, fail}
use mathlib.Core.Option
use ultimate_harness.Base.Table.{find-update}
use ultimate_harness.Kernel.Tasks.Store.{Attempt}
use ultimate_harness.Kernel.Tasks.Recovery.{
  Expired, expired_row, is_expired, add_expired, expired_rows, by_lease, recover_one, recover_rows,
  recover_expired,
}
use ultimate_harness.Kernel.Tasks.Recovering.{recovered, recover_one_effect}
use ultimate_harness.Kernel.Tasks.RecoveryQuery.{by_lease-All, take-All}
use ultimate_harness.Kernel.Tasks.Steps.{
  Step, submits, moves, prepares, claims, renews, completes, fails, cancels, retries, recovers,
}

abbrev pub is_final : TaskState → Bool
is_final completed = true
is_final cancelled = true
is_final _ = false

-- A write to a row that was not final leaves the final rows.
stays :
    (db db' : Db) (id k : String) (t u w : TaskRecord)
    → find_task id db.tasks ≡ some t
    → find_task k db.tasks ≡ some w
    → is_final t.state ≡ true
    → is_final w.state ≡ false
    → Put k u (task_at db) (task_at db')
    → find_task id db'.tasks ≡ some t
stays db db' id k t u w ft fw final ongoing put = elim (Bool-cases (k =s id)) [
  | inl e ↦
      let same : t ≡ w = cc (ap (λ i. find_task i db.tasks) ((eq_iff k id).0 e), ft, fw) in
      absurd (ground (arith, ap (λ (x : TaskRecord). is_final x.state) same))
  | inr n ↦ Put-other k id u (task_at db) (task_at db') put n ∙ ft
]

Wrote-stays :
    (db db' : Db) (id k : String) (write : TaskRecord → TaskRecord → TaskRecord) (t r : TaskRecord)
    (w : Wrote k write db db' r)
    → find_task id db.tasks ≡ some t
    → is_final t.state ≡ true
    → is_final w.task.state ≡ false
    → ((x : TaskRecord) → (write w.task x).task_id ≡ x.task_id)
    → find_task id db'.tasks ≡ some t
Wrote-stays db db' id k write t r w ft final ongoing keeps =
    stays db db' id k t (write w.task w.task) w.task ft w.found final ongoing
      (update_task-Put db db' k w.task (write w.task) w.found keeps w.tasks)

-- The tests of the operations.
not_final_allowed : (from to : TaskState) → is_allowed from to ≡ true → is_final from ≡ false
not_final_allowed from to h = ground arith

not_final_running : (s : TaskState) → is_running s ≡ true → is_final s ≡ false
not_final_running s h = ground arith

not_final_claimable : (s : TaskState) → is_claimable s ≡ true → is_final s ≡ false
not_final_claimable s h = ground arith

not_final_failed : (s : TaskState) → is_failed s ≡ true → is_final s ≡ false
not_final_failed s h = ground arith

transition-stays :
    (k : String) (to : TaskState) (reason : String) (causation : Option String) (now : ℕ)
    (fresh : Fresh) (db db' : Db) (r : TaskRecord) (id : String) (t : TaskRecord)
    → transition k to reason causation now fresh db ≡ ok (r, db')
    → find_task id db.tasks ≡ some t
    → is_final t.state ≡ true
    → find_task id db'.tasks ≡ some t
transition-stays k to reason causation now fresh db db' r id t h ft final =
    let (w, idle, allowed, same) = transition_effect k to reason causation now fresh db db' r h in
    Wrote-stays db db' id k (moved to now) t r w ft final
      (not_final_allowed w.task.state to allowed) (λ x. refl)

step_if-stays :
    (b : Bool) (to : TaskState) (reason : String) (now : ℕ) (fresh : Fresh) (u : TaskRecord)
    (db db' : Db) (r : TaskRecord) (id : String) (t : TaskRecord)
    → step_if b to reason now fresh u db ≡ ok (r, db')
    → find_task id db.tasks ≡ some t
    → is_final t.state ≡ true
    → find_task id db'.tasks ≡ some t
step_if-stays true to reason now fresh u db db' r id t h ft final =
    transition-stays u.task_id to reason none now fresh db db' r id t h ft final
step_if-stays false to reason now fresh u db db' r id t h ft final =
    let e : db' ≡ db = cc in rw e ft

prepare-stays :
    (k : String) (now : ℕ) (fresh : ℕ → Fresh) (db db' : Db) (r : TaskRecord) (id : String)
    (t : TaskRecord)
    → prepare k now fresh db ≡ ok (r, db')
    → find_task id db.tasks ≡ some t
    → is_final t.state ≡ true
    → find_task id db'.tasks ≡ some t
unfolding prepare
prepare-stays k now fresh db db' r id t h ft final =
    let (u, found, h₁) = read-then k _ db db' h in
    let (u₁, db₁, e₁, h₂) =
      >>=-eq-ok (step_if (is_created u.state) planned "plan.created" now (fresh 0) u) _ db h₁ in
    let f₁ = step_if-stays _ _ _ _ _ _ _ _ _ id t e₁ ft final in
    let (u₂, db₂, e₂, h₃) =
      >>=-eq-ok (step_if (is_planned u₁.state) ready "plan.ready" now (fresh 1) u₁) _ db₁ h₂ in
    let f₂ = step_if-stays _ _ _ _ _ _ _ _ _ id t e₂ f₁ final in
    step_if-stays _ _ _ _ _ _ _ _ _ id t h₃ f₂ final

complete-stays :
    (lease : AttemptLease) (success : Bool) (outcome : String) (error : Option String)
    (retryable : Bool) (retry_at : Option ℕ) (now : ℕ) (fresh : Fresh) (db db' : Db)
    (r : TaskRecord) (id : String) (t : TaskRecord)
    → complete lease success outcome error retryable retry_at now fresh db ≡ ok (r, db')
    → find_task id db.tasks ≡ some t
    → is_final t.state ≡ true
    → find_task id db'.tasks ≡ some t
complete-stays lease success outcome error retryable retry_at now fresh db db' r id t h ft final =
    let (u, a, v, tasks, attempts, last) =
      complete_effect lease success outcome error retryable retry_at now fresh db db' r h in
    let write = finished success outcome error retryable retry_at now u in
    stays db db' id lease.task_id t (write u) u ft v.found_task final
      (not_final_running u.state v.running)
      (update_task-Put db db' lease.task_id u write v.found_task (λ x. refl)
        (tasks
          ∙ ap (λ i. update_task i u.revision write db.tasks)
              (task_id-find lease.task_id db.tasks u v.found_task)))

-- The query of recover_expired selects no row of a task that is over.
expired_rows-other :
    (now : ℕ) (legacy : List String) (tasks : List TaskRecord) (attempts : List Attempt)
    (id : String) (t : TaskRecord)
    → find_task id tasks ≡ some t
    → is_final t.state ≡ true
    → All
        (λ (row : Expired). (row.attempt.task_id =s id) ≡ false)
        (expired_rows now legacy tasks attempts)
unfolding expired_rows
expired_rows-other now legacy tasks [] id t ft final = tt
expired_rows-other now legacy tasks (a ∷ rest) id t ft final =
    go (find_task a.task_id tasks) refl (expired_rows-other now legacy tasks rest id t ft final)
  where
    other :
        (u : TaskRecord)
        → find_task a.task_id tasks ≡ some u
        → is_expired now legacy a u ≡ true
        → (a.task_id =s id) ≡ false
    other u f e = elim (Bool-cases (a.task_id =s id)) [
      | inr n ↦ n
      | inl same ↦
          let eq : u ≡ t = cc (ap (λ i. find_task i tasks) ((eq_iff a.task_id id).0 same), f, ft) in
          let ongoing = not_final_running u.state (ground arith) in
          absurd (cc (ap (λ (x : TaskRecord). is_final x.state) eq, ongoing, final))
    ]

    add :
        (u : TaskRecord) (b : Bool)
        → (b ≡ true → (a.task_id =s id) ≡ false)
        → All
            (λ (row : Expired). (row.attempt.task_id =s id) ≡ false)
            (expired_rows now legacy tasks rest)
        → All
            (λ (row : Expired). (row.attempt.task_id =s id) ≡ false)
            (if b
              then expired_row a u ∷ expired_rows now legacy tasks rest
              else expired_rows now legacy tasks rest)
    add u true h ih = (h refl, ih)
    add u false h ih = ih

    go :
        (o : Option TaskRecord)
        → find_task a.task_id tasks ≡ o
        → All
            (λ (row : Expired). (row.attempt.task_id =s id) ≡ false)
            (expired_rows now legacy tasks rest)
        → All
            (λ (row : Expired). (row.attempt.task_id =s id) ≡ false)
            (add_expired now legacy a o (expired_rows now legacy tasks rest))
    go none e ih = ih
    go (some u) e ih = add u (is_expired now legacy a u) (other u e) ih

recover_rows-other :
    (now : ℕ) (fresh : ℕ → Fresh) (n : ℕ) (rows : List Expired) (db db' : Db) (m : ℕ) (id : String)
    → All (λ (row : Expired). (row.attempt.task_id =s id) ≡ false) rows
    → recover_rows now fresh n rows db ≡ ok (m, db')
    → find_task id db'.tasks ≡ find_task id db.tasks
unfolding recover_rows find_task update_task
recover_rows-other now fresh n [] db db' m id others h =
    let e : db' ≡ db = cc in ap (λ (d : Db). find_task id d.tasks) e
recover_rows-other now fresh n (row ∷ rows) db db' m id others h =
    let (u, db₁, one, rest) =
      >>=-eq-ok (recover_one now row (fresh n)) (λ _. recover_rows now fresh (n + 1) rows) db h in
    let (tasks, attempts, legacy) = recover_one_effect now row (fresh n) db db₁ u one in
    recover_rows-other now fresh (n + 1) rows db₁ db' m id others.1 rest
    ∙ ap (find_task id) tasks
    ∙ find-update (λ (x : TaskRecord). x.task_id) row.attempt.task_id id
        (λ x. if x.revision == row.revision then recovered now row x else x) db.tasks
        (λ x. ground arith)
    ∙ ap
        (λ b.
          if b
          then Option.map (λ x. if x.revision == row.revision then recovered now row x else x)
              (find_task id db.tasks)
          else find_task id db.tasks)
        others.0

recover-stays :
    (now limit : ℕ) (fresh : ℕ → Fresh) (db db' : Db) (n : ℕ) (id : String) (t : TaskRecord)
    → recover_expired now limit fresh db ≡ ok (n, db')
    → find_task id db.tasks ≡ some t
    → is_final t.state ≡ true
    → find_task id db'.tasks ≡ some t
unfolding recover_expired
recover-stays now limit fresh db db' n id t h ft final =
    let P = λ (row : Expired). (row.attempt.task_id =s id) ≡ false in
    let rows = expired_rows now db.legacy db.tasks db.attempts in
    let taken = take (max 1 (min limit 1000)) (by_lease rows) in
    recover_rows-other now fresh 0 taken db db' n id
      (take-All P (max 1 (min limit 1000)) (by_lease rows)
        (by_lease-All P rows (expired_rows-other now db.legacy db.tasks db.attempts id t ft final)))
      h
    ∙ ft

-- A completed or a cancelled task is over: no operation that returns changes its row.
pub final_tasks_stay :
    (sha256 : Codes → String) (db db' : Db) (id : String) (t : TaskRecord)
    → Step sha256 db db'
    → find_task id db.tasks ≡ some t
    → is_final t.state ≡ true
    → find_task id db'.tasks ≡ some t
unfolding fail
final_tasks_stay sha256 db db' id t (submits q s now fresh _ _ r h) ft final =
    let (hash, hh, h₁) = submit-cases sha256 q s now fresh db db' r h in
    elim (submit_hashed_cases sha256 hash q s now fresh db db' r h₁) [
      | inl (e, _) ↦ rw e ft
      | inr (n, h₂) ↦
          let (c, b, tasks, same, last) =
            insert_submission_effect sha256 hash q s now fresh db db' r h₂ in
          let u = new_task sha256 q s hash c b now in
          elim (Bool-cases (q.task_id =s id)) [
            | inl e ↦
                absurd (cc (ap (λ i. find_task i db.tasks) ((eq_iff q.task_id id).0 e), ft, n))
            | inr ne ↦
                Put-other q.task_id id u (task_at db) (task_at db')
                  (insert_task-Put db db' q.task_id u refl n tasks) ne
                ∙ ft
          ]
    ]
final_tasks_stay sha256 db db' id t (moves k to reason causation now fresh _ _ r h) ft final =
    transition-stays k to reason causation now fresh db db' r id t h ft final
final_tasks_stay sha256 db db' id t (prepares k now fresh _ _ r h) ft final =
    prepare-stays k now fresh db db' r id t h ft final
final_tasks_stay sha256 db db' id t (claims k plan owner seconds now aid fresh _ _ r h) ft final =
    let c = claim_effect sha256 k plan owner seconds now aid fresh db db' r h in
    stays db db' id k t (started aid now c.task c.task) c.task ft c.found final
      (not_final_claimable c.task.state c.claimable)
      (update_task-Put db db' k c.task (started aid now c.task) c.found (λ x. refl) c.tasks)
final_tasks_stay sha256 db db' id t (renews lease seconds now fresh _ _ r h) ft final =
    let (u, a, v, tasks, attempts, granted) = renew_effect lease seconds now fresh db db' r h in
    rw tasks ft
final_tasks_stay sha256 db db' id t
      (completes lease success outcome error retryable retry_at now fresh _ _ r h) ft final =
    complete-stays lease success outcome error retryable retry_at now fresh db db' r id t h ft final
final_tasks_stay sha256 db db' id t (fails lease error retryable retry_at now fresh _ _ r h) ft
      final =
    complete-stays lease false (sha256 (codes "failure:" ++ codes error)) (some error) retryable
      retry_at now fresh db db' r id t h ft final
final_tasks_stay sha256 db db' id t (cancels k lease now fresh _ _ r h) ft final =
    let (w, allowed, st) = cancel_effect k lease now fresh db db' r h in
    Wrote-stays db db' id k (called_off now) t r w ft final
      (not_final_allowed w.task.state cancelled allowed) (λ x. refl)
final_tasks_stay sha256 db db' id t (retries k now fresh _ _ r h) ft final =
    let (w, failed, left, same) = retry_effect k now fresh db db' r h in
    Wrote-stays db db' id k (requeued now) t r w ft final (not_final_failed w.task.state failed)
      (λ x. refl)
final_tasks_stay sha256 db db' id t (recovers now limit fresh _ _ n h) ft final =
    recover-stays now limit fresh db db' n id t h ft final
