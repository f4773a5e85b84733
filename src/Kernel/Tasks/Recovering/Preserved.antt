-- ===== src/Kernel/Tasks/Recovering/Preserved.antt =====
-- harness2/kernel/tasks.py, recover_expired: a row of the query, and all of them, keep the
-- invariant.
use ultimate_harness.Base.{
  ℕ, ◌+◌, ◌<◌, String, ◌≡◌, refl, sym, ap, ◌∙◌, ◌⊎◌, inl, inr, Bool, true, false, ◌==◌, ◌=s◌,
  Bool-cases, Option, none, some, List, [], ◌∷◌, All, arith, eq_iff, if◌then◌else◌,
}
use mathlib.Core.Option
use ultimate_harness.Base.Table.{find-update}
use ultimate_harness.Base.Result.{ok, >>=-eq-ok}
use ultimate_harness.Kernel.Tasks.Store.{
  TaskRecord, Attempt, is_live, Db, Fresh, find_task, find_attempt, update_task, update_attempt,
  finish_attempt,
}
use ultimate_harness.Kernel.Tasks.Recovery.{Expired, recover_one, recover_rows}
use ultimate_harness.Kernel.Tasks.Puts.{
  Put, Put-self, Put-other, task_at, attempt_at, update_task-Put, finish_attempt-Put,
}
use ultimate_harness.Kernel.Tasks.Invariant.{Inv}
use ultimate_harness.Kernel.Tasks.Preservation.{close-Inv, idle-TaskOk, same_task}
use ultimate_harness.Kernel.Tasks.Recovering.{
  Inv-reads, expire, recovered, recover_one_effect, update-reads, target-dated,
  target-is_recovery_state, kept, released, Idle, Changed-Idle, Changed-Pending, Pending, Changed,
}

module _ (now : ℕ) (row : Expired) (fresh : Fresh) (db db' : Db) (u : Unit {0}) (v : Inv db)
    (done : recover_one now row fresh db ≡ ok (u, db')) where
  -- The task is as the query read it.
  recover-standing :
      (t : TaskRecord)
      → find_task row.attempt.task_id db.tasks ≡ some t
      → t.active_attempt_id ≡ some row.attempt.attempt_id
      → t.revision ≡ row.revision
      → Inv db' × Put row.attempt.task_id (recovered now row t) (task_at db) (task_at db')
  recover-standing t f act rev =
      let (tasks, attempts, legacy) = recover_one_effect now row fresh db db' u done in
      let (a, fa, holds) = v.held row.attempt.task_id t row.attempt.attempt_id f act in
      let write = recovered now row in
      let put =
        update_task-Put db db' row.attempt.task_id t write f (λ x. refl)
          (tasks ∙ ap (λ n. update_task row.attempt.task_id n write db.tasks) (sym rev)) in
      (
        close-Inv db db' row.attempt.task_id row.attempt.attempt_id t (write t) a (expire now a) v f
            act fa holds.of_task holds.fence refl refl refl refl refl
            (idle-TaskOk t (write t) (v.each row.attempt.task_id t f) refl refl refl refl
              (target-dated now row))
            put
            (finish_attempt-Put db db' row.attempt.attempt_id a (expire now) fa holds.live
              (λ x. refl) attempts),
        put,
      )

  -- The task was recovered before: nothing that is read changes.
  recover-idle :
      (t : TaskRecord)
      → find_task row.attempt.task_id db.tasks ≡ some t
      → t.active_attempt_id ≡ none
      → row.revision < t.revision
      → ((a : Attempt)
          → find_attempt row.attempt.attempt_id db.attempts ≡ some a
          → a.task_id ≡ row.attempt.task_id)
      → Inv db' × ((j : String) → task_at db' j ≡ task_at db j)
  unfolding find_task find_attempt update_task finish_attempt update_attempt
  recover-idle t f n less mine =
      let (tasks, attempts, legacy) = recover_one_effect now row fresh db db' u done in
      let read_tasks : (j : String) → task_at db' j ≡ task_at db j = λ j.
        ap (find_task j) tasks
        ∙ update-reads (λ (x : TaskRecord). x.task_id) row.attempt.task_id
            (λ x. if x.revision == row.revision then recovered now row x else x) db.tasks
            (λ x. task_keeps x) (λ x e. task_same x (some-eq x t (sym e ∙ f))) j in
      let read_attempts : (j : String) → attempt_at db' j ≡ attempt_at db j = λ j.
        ap (find_attempt j) attempts
        ∙ update-reads (λ (x : Attempt). x.attempt_id) row.attempt.attempt_id
            (λ x. if is_live x.state then expire now x else x) db.attempts (λ x. attempt_keeps x)
            (λ x e. attempt_same x e) j in
      (Inv-reads db db' read_tasks read_attempts v, read_tasks)
    where
      some-eq : {A : Type 0} (x y : A) → some x ≡ some y → x ≡ y
      some-eq x y e = cc

      task_keeps :
          (x : TaskRecord)
          → (if x.revision == row.revision then recovered now row x else x).task_id ≡ x.task_id
      task_keeps x = ground arith

      task_same :
          (x : TaskRecord)
          → x ≡ t
          → (if x.revision == row.revision then recovered now row x else x) ≡ x
      task_same x e =
          let later : row.revision < x.revision =
            omega (arith, less, ap (λ (y : TaskRecord). y.revision) e) in
          let no : (x.revision == row.revision) ≡ false = ground arith in
          ap (λ b. if b then recovered now row x else x) no

      attempt_keeps :
          (x : Attempt) → (if is_live x.state then expire now x else x).attempt_id ≡ x.attempt_id
      attempt_keeps x = ground arith

      attempt_same :
          (x : Attempt)
          → find_attempt row.attempt.attempt_id db.attempts ≡ some x
          → (if is_live x.state then expire now x else x) ≡ x
      attempt_same x e = elim (Bool-cases (is_live x.state)) [
        | inr dead ↦ ap (λ b. if b then expire now x else x) dead
        | inl live ↦
            let (t', ft, o) = v.owned row.attempt.attempt_id x e in
            let same : t' ≡ t =
              same_task row.attempt.task_id db t' t
                (ap (λ i. find_task i db.tasks) (sym (mine x e)) ∙ ft) f in
            absurd (cc ((o.authority live).0, ap (λ (y : TaskRecord). y.active_attempt_id) same, n))
      ]

  -- Every attempt is of the task that it was of.
  attempts-stay :
      (j id : String)
      → ((a : Attempt) → find_attempt j db.attempts ≡ some a → a.task_id ≡ id)
      → (a : Attempt) → find_attempt j db'.attempts ≡ some a
      → a.task_id ≡ id
  unfolding find_attempt finish_attempt update_attempt
  attempts-stay j id mine a f =
      let (tasks, attempts, legacy) = recover_one_effect now row fresh db db' u done in
      let e : find_attempt j db'.attempts ≡ (
          if row.attempt.attempt_id =s j
          then Option.map (λ x. if is_live x.state then expire now x else x)
              (find_attempt j db.attempts)
          else find_attempt j db.attempts) =
        ap (find_attempt j) attempts
        ∙ find-update (λ (x : Attempt). x.attempt_id) row.attempt.attempt_id j
            (λ x. if is_live x.state then expire now x else x) db.attempts (λ x. ground arith) in
      go (row.attempt.attempt_id =s j) (find_attempt j db.attempts) mine (sym e ∙ f)
    where
      go :
          (b : Bool) (o : Option Attempt)
          → ((a : Attempt) → o ≡ some a → a.task_id ≡ id)
          → (if b then Option.map (λ x. if is_live x.state then expire now x else x) o else o)
            ≡ some a
          → a.task_id ≡ id
      go false o m h = m a h
      go true none m h = absurd (cc h)
      go true (some x) m h = ap (λ (y : Attempt). y.task_id) (sym (some-eq h)) ∙ same x ∙ m x refl
        where
          some-eq :
              some (if is_live x.state then expire now x else x) ≡ some a
              → (if is_live x.state then expire now x else x) ≡ a
          some-eq h = cc

          same : (x : Attempt) → (if is_live x.state then expire now x else x).task_id ≡ x.task_id
          same x = ground arith

  recover_one-Inv :
      Pending db row → Inv db' × ((j : String) → Changed db db' j) × Idle db' row.attempt.task_id
  recover_one-Inv p = go p.standing
    where
      go :
          ((p.task.active_attempt_id ≡ some row.attempt.attempt_id)
              × (p.task.revision ≡ row.revision))
            ⊎ ((p.task.active_attempt_id ≡ none) × (row.revision < p.task.revision))
          → Inv db' × ((j : String) → Changed db db' j) × Idle db' row.attempt.task_id
      go (inl (act, rev)) =
          let (v', put) = recover-standing p.task p.found act rev in
          let w = recovered now row p.task in
          let at = Put-self row.attempt.task_id w (task_at db) (task_at db') put in
          (
            v',
            λ j. elim (Bool-cases (row.attempt.task_id =s j)) [
              | inr n ↦ kept (Put-other row.attempt.task_id j w (task_at db) (task_at db') put n)
              | inl e ↦
                  let same = (eq_iff row.attempt.task_id j).0 e in
                  released p.task w (ap (λ i. find_task i db.tasks) (sym same) ∙ p.found)
                    (ap (λ i. find_task i db'.tasks) (sym same) ∙ at) refl (omega (arith, rev))
                    row.attempt.attempt_id act (target-is_recovery_state row)
            ],
            (w, at, refl),
          )
      go (inr (n, less)) =
          let (v', reads) = recover-idle p.task p.found n less p.mine in
          (v', λ j. kept (reads j), (p.task, reads row.attempt.task_id ∙ p.found, n))

Changed-trans : (a b c : Db) (j : String) → Changed a b j → Changed b c j → Changed a c j
Changed-trans a b c j (kept e) (kept e') = kept (e' ∙ e)
Changed-trans a b c j (kept e) (released t w f f' n less aid act end) =
    released t w (sym e ∙ f) f' n less aid act end
Changed-trans a b c j (released t w f f' n less aid act end) (kept e) =
    released t w f (e ∙ f') n less aid act end
Changed-trans a b c j (released t w f f' n less aid act end)
      (released t' w' g g' n' less' aid' act' end') =
    absurd (cc (ap (λ (x : TaskRecord). x.active_attempt_id) (same_task j b w t' f' g), n, act'))

-- The loop keeps the invariant, and leaves the task of every row without an active attempt.
pub recover_rows-Inv :
    (now : ℕ) (fresh : ℕ → Fresh) (n : ℕ) (rows : List Expired) (db db' : Db) (m : ℕ)
    → Inv db
    → All (Pending db) rows
    → recover_rows now fresh n rows db ≡ ok (m, db')
    → Inv db' × ((j : String) → Changed db db' j) × All (λ row. Idle db' row.attempt.task_id) rows
unfolding recover_rows
recover_rows-Inv now fresh n [] db db' m v p h =
    let e : db' ≡ db = cc in (rw e v, λ j. kept (ap (λ (d : Db). find_task j d.tasks) e), tt)
recover_rows-Inv now fresh n (row ∷ rows) db db' m v p h =
    let (u, db₁, one, rest) =
      >>=-eq-ok (recover_one now row (fresh n)) (λ _. recover_rows now fresh (n + 1) rows) db h in
    let (v₁, changed, idle) = recover_one-Inv now row (fresh n) db db₁ u v one p.0 in
    let (v', changed', idles) =
      recover_rows-Inv now fresh (n + 1) rows db₁ db' m v₁ (pending u db₁ one changed rows p.1)
        rest in
    (
      v',
      λ j. Changed-trans db db₁ db' j (changed j) (changed' j),
      (Changed-Idle db₁ db' row.attempt.task_id (changed' row.attempt.task_id) idle, idles),
    )
  where
    pending :
        (u : Unit {0}) (db₁ : Db)
        → recover_one now row (fresh n) db ≡ ok (u, db₁)
        → ((j : String) → Changed db db₁ j)
        → (others : List Expired) → All (Pending db) others
        → All (Pending db₁) others
    pending u db₁ one changed [] q = tt
    pending u db₁ one changed (y ∷ ys) q = (
      Changed-Pending db db₁ y (changed y.attempt.task_id)
          (attempts-stay now row (fresh n) db db₁ u v one y.attempt.attempt_id y.attempt.task_id
            q.0.mine)
          q.0,
      pending u db₁ one changed ys q.1,
    )
