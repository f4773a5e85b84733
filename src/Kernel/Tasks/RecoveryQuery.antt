-- ===== src/Kernel/Tasks/RecoveryQuery.antt =====
-- What the query of recover_expired selects, and what is left of it after the loop.
use ultimate_harness.Base.{
  ℕ, zero, suc, ◌≤◌, String, ◌≡◌, refl, ap, inl, inr, Bool, true, false, ◌=s◌, leb, min, max,
  Bool-cases, Option, none, some, List, [], ◌∷◌, take, length, All, arith, eq_iff, if◌then◌else◌,
}
use ultimate_harness.Base.Result.{ok}
use ultimate_harness.Kernel.Events.{option_eq}
use ultimate_harness.Kernel.Tasks.Store.{TaskRecord, Attempt, Db, Fresh, find_task}
use ultimate_harness.Kernel.Tasks.Recovery.{
  Expired, expired_row, is_expired, add_expired, expired_rows, insert_row, by_lease,
  recover_expired,
}
use ultimate_harness.Kernel.Tasks.Invariant.{Inv}
use ultimate_harness.Kernel.Tasks.Recovering.Preserved.{recover_rows-Inv}
use ultimate_harness.Kernel.Tasks.Recovering.{Pending, Changed}

-- The order of a list is of no account to what holds of all its elements.
module _ (P : Expired → Type 0) where
  insert_row-All : (x : Expired) (ys : List Expired) → P x → All P ys → All P (insert_row x ys)
  unfolding insert_row
  insert_row-All x [] px h = (px, tt)
  insert_row-All x (y ∷ ys) px h =
      elim (Bool-cases (leb x.attempt.lease_until y.attempt.lease_until)) [
        | inl e ↦ rw e (px, (h.0, h.1))
        | inr e ↦ rw e (h.0, insert_row-All x ys px h.1)
      ]

  pub by_lease-All : (xs : List Expired) → All P xs → All P (by_lease xs)
  unfolding by_lease
  by_lease-All [] h = tt
  by_lease-All (x ∷ xs) h = insert_row-All x (by_lease xs) h.0 (by_lease-All xs h.1)

  insert_row-All_back : (x : Expired) (ys : List Expired) → All P (insert_row x ys) → P x × All P ys
  unfolding insert_row
  insert_row-All_back x [] h = (h.0, tt)
  insert_row-All_back x (y ∷ ys) h =
      go (leb x.attempt.lease_until y.attempt.lease_until) h (insert_row-All_back x ys)
    where
      go :
          (b : Bool)
          → All P (if b then x ∷ y ∷ ys else y ∷ insert_row x ys)
          → (All P (insert_row x ys) → P x × All P ys)
          → P x × All P (y ∷ ys)
      go true h ih = h
      go false h ih = let (px, hs) = ih h.1 in (px, (h.0, hs))

  pub by_lease-All_back : (xs : List Expired) → All P (by_lease xs) → All P xs
  unfolding by_lease
  by_lease-All_back [] h = tt
  by_lease-All_back (x ∷ xs) h =
      let (px, hs) = insert_row-All_back x (by_lease xs) h in (px, by_lease-All_back xs hs)

  pub take-All : (n : ℕ) (xs : List Expired) → All P xs → All P (take n xs)
  take-All zero xs h = tt
  take-All (suc n) [] h = tt
  take-All (suc n) (x ∷ xs) h = (h.0, take-All n xs h.1)

length-insert_row : (x : Expired) (ys : List Expired) → length (insert_row x ys) ≡ suc (length ys)
unfolding insert_row
length-insert_row x [] = refl
length-insert_row x (y ∷ ys) = ground (arith, length-insert_row x ys)

pub length-by_lease : (xs : List Expired) → length (by_lease xs) ≡ length xs
unfolding by_lease
length-by_lease [] = refl
length-by_lease (x ∷ xs) = omega (arith, length-insert_row x (by_lease xs), length-by_lease xs)

pub take_all : (n : ℕ) (xs : List Expired) → length xs ≤ n → take n xs ≡ xs
take_all zero [] h = refl
take_all zero (x ∷ xs) h = absurd (omega arith)
take_all (suc n) [] h = refl
take_all (suc n) (x ∷ xs) h = ap (λ ys. x ∷ ys) (take_all n xs (omega arith))

pub expired-active :
    (now : ℕ) (legacy : List String) (a : Attempt) (t : TaskRecord)
    → is_expired now legacy a t ≡ true
    → t.active_attempt_id ≡ some a.attempt_id
expired-active now legacy a t h = go t.active_attempt_id (ground arith)
  where
    go : (o : Option String) → option_eq ◌=s◌ o (some a.attempt_id) ≡ true → o ≡ some a.attempt_id
    go none e = cc
    go (some x) e = ap (λ y. some y) ((eq_iff x a.attempt_id).0 e)

-- The rows of the query are pending.
pub expired_rows-Pending :
    (now : ℕ) (legacy : List String) (db : Db) (attempts : List Attempt)
    → Inv db
    → All (Pending db) (expired_rows now legacy db.tasks attempts)
unfolding expired_rows
expired_rows-Pending now legacy db [] v = tt
expired_rows-Pending now legacy db (a ∷ rest) v =
    go (find_task a.task_id db.tasks) refl (expired_rows-Pending now legacy db rest v)
  where
    row :
        (t : TaskRecord)
        → find_task a.task_id db.tasks ≡ some t
        → is_expired now legacy a t ≡ true
        → Pending db (expired_row a t)
    row t f there =
        let act = expired-active now legacy a t there in
        let (a', fa, holds) = v.held a.task_id t a.attempt_id f act in
        record {
          task = t;
          found = f;
          standing = inl (act, refl);
          mine = λ x fx. cc (holds.of_task);
        }

    add :
        (t : TaskRecord) (b : Bool)
        → (b ≡ true → Pending db (expired_row a t))
        → All (Pending db) (expired_rows now legacy db.tasks rest)
        → All (Pending db) (
            if b
            then expired_row a t ∷ expired_rows now legacy db.tasks rest
            else expired_rows now legacy db.tasks rest)
    add t true h ih = (h refl, ih)
    add t false h ih = ih

    go :
        (o : Option TaskRecord)
        → find_task a.task_id db.tasks ≡ o
        → All (Pending db) (expired_rows now legacy db.tasks rest)
        → All (Pending db) (add_expired now legacy a o (expired_rows now legacy db.tasks rest))
    go none e ih = ih
    go (some t) e ih = add t (is_expired now legacy a t) (row t e) ih

pub recover_expired-Inv :
    (now limit : ℕ) (fresh : ℕ → Fresh) (db db' : Db) (m : ℕ)
    → Inv db
    → recover_expired now limit fresh db ≡ ok (m, db')
    → Inv db' × ((j : String) → Changed db db' j)
unfolding recover_expired
recover_expired-Inv now limit fresh db db' m v h =
    let rows = expired_rows now db.legacy db.tasks db.attempts in
    let (v', changed, idle) =
      recover_rows-Inv now fresh 0 (take (max 1 (min limit 1000)) (by_lease rows)) db db' m v
        (take-All (Pending db) (max 1 (min limit 1000)) (by_lease rows)
          (by_lease-All (Pending db) rows (expired_rows-Pending now db.legacy db db.attempts v)))
        h in
    (v', changed)
