-- ===== src/Kernel/Tasks/Recovered.antt =====
-- A recovery that has room for every expired lease leaves none.
use ultimate_harness.Base.{
  ℕ, ◌+◌, ◌≤◌, String, ◌≡◌, refl, sym, ap, ◌∙◌, inl, inr, ◌⊎◌, Bool, true, false, ◌=s◌, min, max,
  Bool-cases, Option, none, some, List, [], ◌∷◌, take, length, All, arith, if◌then◌else◌,
}
use ultimate_harness.Base.Result.{ok, >>=-eq-ok}
use ultimate_harness.Text.Codes.{Codes}
use ultimate_harness.Kernel.Tasks.Store.{
  TaskRecord, Attempt, is_live, Db, Fresh, find_task, finish_attempt, update_attempt,
}
use ultimate_harness.Base.Table.{update}
use ultimate_harness.Kernel.Tasks.Recovery.{
  Expired, expired_row, is_expired, add_expired, expired_rows, by_lease, recover_one, recover_rows,
  recover_expired,
}
use ultimate_harness.Kernel.Tasks.Recovering.Preserved.{recover_rows-Inv}
use ultimate_harness.Kernel.Tasks.Recovering.{
  expire, recover_one_effect, Pending, Changed, kept, released, Idle, is_recovery_state,
}
use ultimate_harness.Kernel.Tasks.RecoveryQuery.{
  by_lease-All, by_lease-All_back, length-by_lease, take_all, take-All, recover_expired-Inv,
  expired-active, expired_rows-Pending,
}
use ultimate_harness.Kernel.Tasks.State.{TaskState, recovering, failed}
use ultimate_harness.Kernel.Tasks.Invariant.{Inv}
use ultimate_harness.Kernel.Tasks.Overdue.{
  IsOverdue, HasOverdue, late, none-IsOverdue, expired_rows-cases, length-expired_rows,
  recover_rows-other,
}
use ultimate_harness.Kernel.Tasks.Steps.{Reach, Reach-Inv}

some-eq : {A : Type 0} (x y : A) → some x ≡ some y → x ≡ y
some-eq x y e = cc

-- An attempt whose task has no active attempt is not selected.
idle-not_expired :
    (now : ℕ) (legacy : List String) (a : Attempt) (t : TaskRecord)
    → t.active_attempt_id ≡ none
    → is_expired now legacy a t ≡ false
idle-not_expired now legacy a t n = elim (Bool-cases (is_expired now legacy a t)) [
  | inr no_row ↦ no_row
  | inl there ↦ absurd (cc (n, expired-active now legacy a t there))
]

module _ (now : ℕ) (legacy : List String) where
  add-none :
      (a : Attempt) (t : TaskRecord) (more : List Expired)
      → is_expired now legacy a t ≡ false
      → more ≡ []
      → add_expired now legacy a (some t) more ≡ []
  add-none a t more no_row e = ap (λ b. if b then expired_row a t ∷ more else more) no_row ∙ e

  -- The attempts of the database before the loop, with its tasks after it.
  none_left :
      (db db' : Db) (attempts : List Attempt)
      → ((j : String) → Changed db db' j)
      → All
          (λ (row : Expired). Idle db' row.attempt.task_id)
          (expired_rows now legacy db.tasks attempts)
      → expired_rows now legacy db'.tasks attempts ≡ []
  unfolding expired_rows
  none_left db db' [] changed idle = refl
  none_left db db' (a ∷ rest) changed idle =
      go (find_task a.task_id db.tasks) refl (changed a.task_id) idle
        (none_left db db' rest changed)
    where
      more : List Expired
      more = expired_rows now legacy db'.tasks rest

      before : List Expired
      before = expired_rows now legacy db.tasks rest

      IdleRow : Expired → Type 0
      IdleRow row = Idle db' row.attempt.task_id

      still :
          (t : TaskRecord) (b : Bool)
          → find_task a.task_id db'.tasks ≡ some t
          → is_expired now legacy a t ≡ b
          → All IdleRow (if b then expired_row a t ∷ before else before)
          → (All IdleRow before → more ≡ [])
          → add_expired now legacy a (some t) more ≡ []
      still t false f e idle ih = add-none a t more e (ih idle)
      still t true f e idle ih =
          let (t', f', n) = idle.0 in
          absurd (cc (some-eq t t' (sym f ∙ f'), n, expired-active now legacy a t e))

      tail :
          (o : Option TaskRecord)
          → All IdleRow (add_expired now legacy a o before)
          → All IdleRow before
      tail none idle = idle
      tail (some t) idle = tail_if (is_expired now legacy a t) idle
        where
          tail_if :
              (b : Bool)
              → All IdleRow (if b then expired_row a t ∷ before else before)
              → All IdleRow before
          tail_if true idle = idle.1
          tail_if false idle = idle

      go :
          (o : Option TaskRecord)
          → find_task a.task_id db.tasks ≡ o
          → Changed db db' a.task_id
          → All IdleRow (add_expired now legacy a o before)
          → (All IdleRow before → more ≡ [])
          → add_expired now legacy a (find_task a.task_id db'.tasks) more ≡ []
      go o e (released t w f f' n less aid act end) idle ih =
          ap (λ x. add_expired now legacy a x more) f'
          ∙ add-none a w more (idle-not_expired now legacy a w n) (ih (tail o idle))
      go none e (kept same) idle ih = ap (λ x. add_expired now legacy a x more) (same ∙ e) ∙ ih idle
      go (some t) e (kept same) idle ih =
          ap (λ x. add_expired now legacy a x more) (same ∙ e)
          ∙ still t (is_expired now legacy a t) (same ∙ e) refl idle ih

  split :
      (a : Attempt) (o : Option TaskRecord) (more : List Expired)
      → add_expired now legacy a o more ≡ []
      → (more ≡ []) × ((t : TaskRecord) → o ≡ some t → is_expired now legacy a t ≡ false)
  split a none more h = (h, λ t e. cc)
  split a (some t) more h = elim (Bool-cases (is_expired now legacy a t)) [
    | inl there ↦ absurd (cc (sym (ap (λ b. if b then expired_row a t ∷ more else more) there) ∙ h))
    | inr no_row ↦ (
      sym (ap (λ b. if b then expired_row a t ∷ more else more) no_row) ∙ h,
      λ u e. ap (λ x. is_expired now legacy a x) (sym (some-eq t u e)) ∙ no_row,
    )
  ]

  join_none :
      (a : Attempt) (o : Option TaskRecord) (more : List Expired)
      → more ≡ []
      → ((t : TaskRecord) → o ≡ some t → is_expired now legacy a t ≡ false)
      → add_expired now legacy a o more ≡ []
  join_none a none more e h = e
  join_none a (some t) more e h = add-none a t more (h t refl) e

  ended-not_expired :
      (a : Attempt) (t : TaskRecord) → is_expired now legacy (expire now a) t ≡ false
  ended-not_expired a t = refl

  -- An attempt that is ended is selected no more.
  finish-none :
      (tasks : List TaskRecord) (x : String) (attempts : List Attempt)
      → expired_rows now legacy tasks attempts ≡ []
      → expired_rows now legacy tasks (finish_attempt x (expire now) attempts) ≡ []
  unfolding expired_rows finish_attempt update_attempt update
  finish-none tasks x [] h = refl
  finish-none tasks x (a ∷ rest) h =
      let (e, not_there) =
        split a (find_task a.task_id tasks) (expired_rows now legacy tasks rest) h in
      let ih = finish-none tasks x rest e in go (a.attempt_id =s x) (is_live a.state) not_there ih
    where
      more : List Expired
      more = expired_rows now legacy tasks (finish_attempt x (expire now) rest)

      go :
          (b l : Bool)
          → ((t : TaskRecord)
              → find_task a.task_id tasks ≡ some t
              → is_expired now legacy a t ≡ false)
          → more ≡ []
          → (let a' = if b then (if l then expire now a else a) else a in
              add_expired now legacy a' (find_task a'.task_id tasks) more)
            ≡ []
      go false l h e = join_none a (find_task a.task_id tasks) more e h
      go true false h e = join_none a (find_task a.task_id tasks) more e h
      go true true h e =
          join_none (expire now a) (find_task a.task_id tasks) more e (λ t f. ended-not_expired a t)

  recover_rows-none :
      (fresh : ℕ → Fresh) (n : ℕ) (rows : List Expired) (db db' : Db) (m : ℕ)
      (tasks : List TaskRecord)
      → recover_rows now fresh n rows db ≡ ok (m, db')
      → expired_rows now legacy tasks db.attempts ≡ []
      → expired_rows now legacy tasks db'.attempts ≡ []
  unfolding recover_rows
  recover_rows-none fresh n [] db db' m tasks h e =
      let same : db' ≡ db = cc in ap (λ (d : Db). expired_rows now legacy tasks d.attempts) same ∙ e
  recover_rows-none fresh n (row ∷ rows) db db' m tasks h e =
      let (u, db₁, one, rest) =
        >>=-eq-ok (recover_one now row (fresh n)) (λ _. recover_rows now fresh (n + 1) rows) db h in
      let (t, attempts, l) = recover_one_effect now row (fresh n) db db₁ u one in
      recover_rows-none fresh (n + 1) rows db₁ db' m tasks rest (
        ap (expired_rows now legacy tasks) attempts
        ∙ finish-none tasks row.attempt.attempt_id db.attempts e)

recover_rows-legacy :
    (now : ℕ) (fresh : ℕ → Fresh) (n : ℕ) (rows : List Expired) (db db' : Db) (m : ℕ)
    → recover_rows now fresh n rows db ≡ ok (m, db')
    → db'.legacy ≡ db.legacy
unfolding recover_rows
recover_rows-legacy now fresh n [] db db' m h =
    let same : db' ≡ db = cc in ap (λ (d : Db). d.legacy) same
recover_rows-legacy now fresh n (row ∷ rows) db db' m h =
    let (u, db₁, one, rest) =
      >>=-eq-ok (recover_one now row (fresh n)) (λ _. recover_rows now fresh (n + 1) rows) db h in
    let (t, attempts, l) = recover_one_effect now row (fresh n) db db₁ u one in
    recover_rows-legacy now fresh (n + 1) rows db₁ db' m rest ∙ l

recovery_state_lem : (s : TaskState) → is_recovery_state s ≡ true → (s ≡ recovering) ⊎ (s ≡ failed)
recovery_state_lem recovering h = inl refl
recovery_state_lem failed h = inr refl
recovery_state_lem _ h = ground arith

-- A recovery with room for all its rows finds none afterwards.
recover_expired-none :
    (now limit : ℕ) (fresh : ℕ → Fresh) (db db' : Db) (m : ℕ)
    → Inv db
    → length (expired_rows now db.legacy db.tasks db.attempts) ≤ max 1 (min limit 1000)
    → recover_expired now limit fresh db ≡ ok (m, db')
    → expired_rows now db'.legacy db'.tasks db'.attempts ≡ []
unfolding recover_expired
recover_expired-none now limit fresh db db' m v room h =
    let rows = expired_rows now db.legacy db.tasks db.attempts in
    let cap = max 1 (min limit 1000) in
    let all_taken : take cap (by_lease rows) ≡ by_lease rows =
      take_all cap (by_lease rows) (omega (arith, length-by_lease rows)) in
    let h' : recover_rows now fresh 0 (by_lease rows) db ≡ ok (m, db') =
      ap (λ l. recover_rows now fresh 0 l db) (sym all_taken) ∙ h in
    let (v', changed, idle) =
      recover_rows-Inv now fresh 0 (by_lease rows) db db' m v
        (by_lease-All (Pending db) rows (expired_rows-Pending now db.legacy db db.attempts v)) h' in
    ap (λ l. expired_rows now l db'.tasks db'.attempts)
      (recover_rows-legacy now fresh 0 (by_lease rows) db db' m h')
    ∙ recover_rows-none now db.legacy fresh 0 (by_lease rows) db db' m db'.tasks h' (
        none_left now db.legacy db db' db.attempts changed
          (by_lease-All_back (λ (row : Expired). Idle db' row.attempt.task_id) rows idle))

-- A task without rows in the query reads as before.
recover_expired-other :
    (now limit : ℕ) (fresh : ℕ → Fresh) (id : String) (db db' : Db) (m : ℕ)
    → All
        (λ (row : Expired). (row.attempt.task_id =s id) ≡ false)
        (expired_rows now db.legacy db.tasks db.attempts)
    → recover_expired now limit fresh db ≡ ok (m, db')
    → find_task id db'.tasks ≡ find_task id db.tasks
unfolding recover_expired
recover_expired-other now limit fresh id db db' m absent h =
    let rows = expired_rows now db.legacy db.tasks db.attempts in
    let cap = max 1 (min limit 1000) in
    let Absent : Expired → Type 0 = λ row. (row.attempt.task_id =s id) ≡ false in
    recover_rows-other now fresh 0 (take cap (by_lease rows)) id db db' m h
      (take-All Absent cap (by_lease rows) (by_lease-All Absent rows absent))

-- In a database that a sequence of operations reached, a recovery whose limit is not below the number
-- of attempts under way whose lease has ended leaves no overdue attempt: none under way on a running
-- task of the kernel, active and under its fence, with a lease that ended before now. And it keeps the
-- row of every task, unless an attempt of the task was overdue: then the task is recovering or failed
-- and has no active attempt.
pub recover_expired-empties :
    (sha256 : Codes → String) (now limit : ℕ) (fresh : ℕ → Fresh) (db db' : Db) (m : ℕ)
    (id : String)
    → Reach sha256 db
    → length (late now db.attempts) ≤ max 1 (min limit 1000)
    → recover_expired now limit fresh db ≡ ok (m, db')
    → All (λ a. ¬ IsOverdue now db' a) db'.attempts
      × ((find_task id db'.tasks ≡ find_task id db.tasks)
          ⊎ (HasOverdue now db db.attempts id
              × ((w : TaskRecord) × (find_task id db'.tasks ≡ some w)
                  × ((w.state ≡ recovering) ⊎ (w.state ≡ failed))
                  × (w.active_attempt_id ≡ none))))
recover_expired-empties sha256 now limit fresh db db' m id reached room h =
    let v = Reach-Inv sha256 db reached in
    let few = length-expired_rows now db db.attempts in
    let none_there = recover_expired-none now limit fresh db db' m v (omega arith) h in
    (
      none-IsOverdue now db' db'.attempts none_there,
      elim ((recover_expired-Inv now limit fresh db db' m v h).1 id) [
        | kept e ↦ inl e
        | released t w f f' n less aid act end ↦ elim (expired_rows-cases now db id db.attempts) [
          | inl absent ↦ inl (recover_expired-other now limit fresh id db db' m absent h)
          | inr overdue ↦ inr (overdue, (w, f', recovery_state_lem w.state end, n))
        ]
      ],
    )
