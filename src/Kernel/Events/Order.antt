-- ===== src/Kernel/Events/Order.antt =====
-- The order and the keys of the event log.
use ultimate_harness.Base.{
  ℕ, ◌+◌, ◌≤◌, ◌<◌, String, ◌≡◌, refl, ap, false, ◌=s◌, inl, inr, Option-cases, Option, none, some,
  List, [], ◌∷◌, ◌++◌, arith, eq_iff, All, All-append,
}
use ultimate_harness.Base.Result.{ok}
use ultimate_harness.Base.Table.{find, find-append_one}
use ultimate_harness.Text.Codes.{Codes}
use ultimate_harness.Text.Codes.Laws.{codes_eq_refl, eq_of_codes_eq}
use ultimate_harness.Kernel.Events.{
  TypedEvent, EventRow, Bus, empty, has_key, find_dedup, find_event, known, append,
}
use ultimate_harness.Kernel.Events.Append.{
  Written, seen, added, write_cases, append_steps, find_dedup-append_one,
}

-- Sequence numbers above `low`, each above the one before.
abbrev pub Ascending : ℕ → List EventRow → Type 0
Ascending low [] = Unit
Ascending low (r ∷ rs) = (low < r.seq) × Ascending r.seq rs

abbrev pub DistinctIds : List EventRow → Type 0
DistinctIds [] = Unit
DistinctIds (r ∷ rs) = (find_event r.event_id rs ≡ none) × DistinctIds rs

abbrev pub DistinctKeys : List EventRow → Type 0
DistinctKeys [] = Unit
DistinctKeys (r ∷ rs) = (known r.dedup_key r.source rs ≡ none) × DistinctKeys rs

-- Rows stand in the order of their numbers, no number is above the counter, and no event and no dedup
-- key of a source stands twice.
pub record IsLog (bus : Bus) : Type 0 where
  pub ordered : Ascending 0 bus.rows
  pub bounded : All (λ r. r.seq ≤ bus.last_seq) bus.rows
  pub ids : DistinctIds bus.rows
  pub keys : DistinctKeys bus.rows

Ascending-append_one :
    (low top : ℕ) (rows : List EventRow) (r : EventRow)
    → Ascending low rows
    → All (λ x. x.seq ≤ top) rows
    → low ≤ top
    → top < r.seq
    → Ascending low (rows ++ r ∷ [])
Ascending-append_one low top [] r a b l h = (omega arith, tt)
Ascending-append_one low top (x ∷ rows) r a b l h =
    (a.0, Ascending-append_one x.seq top rows r a.1 b.1 b.0 h)

All-le_suc :
    (top : ℕ) (rows : List EventRow) → All (λ x. x.seq ≤ top) rows → All (λ x. x.seq ≤ top + 1) rows
All-le_suc top [] h = tt
All-le_suc top (x ∷ rows) h = (omega arith, All-le_suc top rows h.1)

find_event-ne :
    (id : String) (rows : List EventRow) (r : EventRow)
    → find_event id rows ≡ none
    → (r.event_id =s id) ≡ false
    → find_event id (rows ++ r ∷ []) ≡ none
unfolding find_event
find_event-ne id rows r n e = rw (find-append_one (λ x. x.event_id) id r rows) (ground arith)

DistinctIds-append_one :
    (rows : List EventRow) (r : EventRow)
    → DistinctIds rows
    → find_event r.event_id rows ≡ none
    → DistinctIds (rows ++ r ∷ [])
unfolding find_event find
DistinctIds-append_one [] r d n = (refl, tt)
DistinctIds-append_one (x ∷ rows) r d n = (
  find_event-ne x.event_id rows r d.0
      (ground (arith, eq_iff x.event_id r.event_id, eq_iff r.event_id x.event_id)),
  DistinctIds-append_one rows r d.1 (ground arith),
)

known-ne :
    (key : Option Codes) (source : String) (rows : List EventRow) (r : EventRow)
    → known key source rows ≡ none
    → ((k : Codes) → key ≡ some k → has_key source k r ≡ false)
    → known key source (rows ++ r ∷ []) ≡ none
known-ne none source rows r n h = refl
known-ne (some k) source rows r n h =
    rw (find_dedup-append_one source k r rows) (ground (arith, h k refl))

-- A row that does not hold the key of another is not held by that row's key.
has_key-sym :
    (x r : EventRow) (k : Codes)
    → x.dedup_key ≡ some k
    → ((j : Codes) → r.dedup_key ≡ some j → has_key r.source j x ≡ false)
    → has_key x.source k r ≡ false
has_key-sym x r k dx h = elim (Option-cases r.dedup_key) [
  | inl n ↦ ground arith
  | inr (j, s) ↦ ground (
    arith,
    h j s,
    eq_iff x.source r.source,
    eq_iff r.source x.source,
    eq_of_codes_eq j k,
    codes_eq_refl k,
  )
]

known-tail :
    (r x : EventRow) (rows : List EventRow)
    → known r.dedup_key r.source (x ∷ rows) ≡ none
    → (known r.dedup_key r.source rows ≡ none)
      × ((j : Codes) → r.dedup_key ≡ some j → has_key r.source j x ≡ false)
unfolding find_dedup
known-tail r x rows h = elim (Option-cases r.dedup_key) [
  | inl n ↦ (rw n refl, λ j s. cc)
  | inr (k, s) ↦ (ground arith, λ j t. ground arith)
]

DistinctKeys-append_one :
    (rows : List EventRow) (r : EventRow)
    → DistinctKeys rows
    → known r.dedup_key r.source rows ≡ none
    → DistinctKeys (rows ++ r ∷ [])
unfolding find_dedup
DistinctKeys-append_one [] r d n = (n, tt)
DistinctKeys-append_one (x ∷ rows) r d n =
    let (later, apart) = known-tail r x rows n in
    (
      known-ne x.dedup_key x.source rows r d.0 (λ k s. has_key-sym x r k s apart),
      DistinctKeys-append_one rows r d.1 later,
    )

DistinctIds-added :
    (rows : List EventRow) (row : EventRow) (id : String)
    → row.event_id ≡ id
    → find_event id rows ≡ none
    → DistinctIds rows
    → DistinctIds (rows ++ row ∷ [])
DistinctIds-added rows row id e n d = DistinctIds-append_one rows row d (rw e n)

Written-IsLog :
    (e : TypedEvent) (payload metadata : Codes) (r : ℕ) (bus bus' : Bus) (row : EventRow)
    → IsLog bus
    → Written e payload metadata r bus bus' row
    → IsLog bus'
Written-IsLog e payload metadata r bus bus' row v (seen same stays k) = rw stays v
Written-IsLog e payload metadata r bus bus' row v (added k f pos made grown) =
    let number : row.seq ≡ bus.last_seq + 1 = ap (λ (x : EventRow). x.seq) made in
    rw grown (record {
      ordered =
          Ascending-append_one 0 bus.last_seq bus.rows row v.ordered v.bounded (omega arith)
            (omega arith);
      bounded =
          All-append (λ x. x.seq ≤ bus.last_seq + 1) bus.rows (row ∷ [])
            (All-le_suc bus.last_seq bus.rows v.bounded) (omega arith, tt);
      ids =
          DistinctIds-added bus.rows row e.event_id (ap (λ (x : EventRow). x.event_id) made) f
            v.ids;
      keys = DistinctKeys-append_one bus.rows row v.keys (rw made k);
    })

-- Every append that returns, of a new event or of a known one, keeps the log in order and without
-- duplicates.
pub append-IsLog :
    (e : TypedEvent) (recorded : ℕ) (bus bus' : Bus) (row : EventRow)
    → IsLog bus
    → append e recorded bus ≡ ok (row, bus')
    → IsLog bus'
append-IsLog e recorded bus bus' row v h =
    let (payload, metadata, p, m, w) = append_steps e recorded bus bus' row h in
    Written-IsLog e payload metadata recorded bus bus' row v
      (write_cases e payload metadata recorded bus bus' row w)

pub empty-IsLog : IsLog empty
empty-IsLog = record { ordered = tt; bounded = tt; ids = tt; keys = tt }
