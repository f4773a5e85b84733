-- ===== src/Kernel/Events/Append.antt =====
-- Appending to the event log: it happens at most once for an event, and the log only grows.
use ultimate_harness.Base.{
  ℕ, ◌+◌, String, ◌≡◌, refl, ap, ◌∙◌, true, false, ◌=s◌, ◌⊎◌, inl, inr, ltb, Option-cases, Option,
  none, some, List, [], ◌∷◌, ◌++◌, arith, eq_iff, eq_refl, if◌then◌else◌,
}
use ultimate_harness.Base.Result.{Result, ok, err}
use ultimate_harness.Base.Table.{find-append_one}
use ultimate_harness.Text.Codes.{Codes, codes_eq}
use ultimate_harness.Text.Codes.Laws.{codes_eq_refl}
use ultimate_harness.Kernel.Events.{
  EventError, TypedEvent, EventRow, Bus, canonical_json, max_event_bytes, max_metadata_bytes,
  option_eq, equivalent, has_key, find_dedup, find_event, new_row, known, insert, write, append,
}

option_text_refl : (o : Option String) → option_eq ◌=s◌ o o ≡ true
option_text_refl none = refl
option_text_refl (some s) = eq_refl s

option_codes_refl : (o : Option Codes) → option_eq codes_eq o o ≡ true
option_codes_refl none = refl
option_codes_refl (some s) = codes_eq_refl s

equivalent-new_row :
    (e : TypedEvent) (payload metadata : Codes) (recorded seq : ℕ)
    → equivalent e payload metadata (new_row e payload metadata recorded seq) ≡ true
unfolding equivalent
equivalent-new_row e payload metadata recorded seq =
    rw (eq_refl e.event_id, eq_refl e.event_type, eq_refl e.source, eq_refl e.correlation_id)
      (ground (
        arith,
        option_text_refl e.task_id,
        option_text_refl e.causation_id,
        option_codes_refl e.dedup_key,
        codes_eq_refl payload,
        codes_eq_refl metadata,
        eq_refl e.event_id,
        eq_refl e.event_type,
        eq_refl e.source,
        eq_refl e.correlation_id,
      ))

pub find_dedup-append_one :
    (source : String) (key : Codes) (r : EventRow) (rows : List EventRow)
    → find_dedup source key (rows ++ r ∷ []) ≡ (elim (find_dedup source key rows) [
      | some x ↦ some x
      | none ↦ if has_key source key r then some r else none
    ])
unfolding find_dedup
find_dedup-append_one source key r [] = refl
find_dedup-append_one source key r (x ∷ rows) =
    ground (arith, find_dedup-append_one source key r rows)

-- What `write` does: it finds the event, or it adds one row.
pub data Written (e : TypedEvent) (payload metadata : Codes) (recorded : ℕ) (bus bus' : Bus)
    (row : EventRow) : Type 0 where
  seen :
      equivalent e payload metadata row ≡ true
      → bus' ≡ bus
      → (known e.dedup_key e.source bus.rows ≡ some row)
        ⊎ ((known e.dedup_key e.source bus.rows ≡ none)
            × (find_event e.event_id bus.rows ≡ some row))
      → Written e payload metadata recorded bus bus' row
  added :
      known e.dedup_key e.source bus.rows ≡ none
      → find_event e.event_id bus.rows ≡ none
      → ltb e.schema_version 1 ≡ false
      → row ≡ new_row e payload metadata recorded (bus.last_seq + 1)
      → bus' ≡ record bus { rows = bus.rows ++ row ∷ []; last_seq = bus.last_seq + 1 }
      → Written e payload metadata recorded bus bus' row

insert_cases :
    (e : TypedEvent) (payload metadata : Codes) (recorded : ℕ) (bus bus' : Bus) (row : EventRow)
    → known e.dedup_key e.source bus.rows ≡ none
    → insert e payload metadata recorded bus ≡ ok (row, bus')
    → Written e payload metadata recorded bus bus' row
unfolding insert
insert_cases e payload metadata recorded bus bus' row unknown h =
    elim (Option-cases (find_event e.event_id bus.rows)) [
      | inl n ↦ added unknown n (ground arith) (ground arith) (ground arith)
      | inr (x, s) ↦ seen (ground arith) (ground arith) (inr (unknown, ground arith))
    ]

pub write_cases :
    (e : TypedEvent) (payload metadata : Codes) (recorded : ℕ) (bus bus' : Bus) (row : EventRow)
    → write e payload metadata recorded bus ≡ ok (row, bus')
    → Written e payload metadata recorded bus bus' row
unfolding write
write_cases e payload metadata recorded bus bus' row h =
    elim (Option-cases (known e.dedup_key e.source bus.rows)) [
      | inl n ↦ insert_cases e payload metadata recorded bus bus' row n (rw (n, write) at h)
      | inr (x, s) ↦ seen (ground arith) (ground arith) (inl (ground arith))
    ]

write-known :
    (e : TypedEvent) (payload metadata : Codes) (recorded : ℕ) (bus : Bus) (row : EventRow)
    → equivalent e payload metadata row ≡ true
    → known e.dedup_key e.source bus.rows ≡ some row
    → write e payload metadata recorded bus ≡ ok (row, bus)
unfolding write
write-known e payload metadata recorded bus row same k = rw (k, write) (rw same refl)

write_present :
    (e : TypedEvent) (payload metadata : Codes) (recorded : ℕ) (bus : Bus) (row : EventRow)
    → equivalent e payload metadata row ≡ true
    → known e.dedup_key e.source bus.rows ≡ none
    → find_event e.event_id bus.rows ≡ some row
    → write e payload metadata recorded bus ≡ ok (row, bus)
unfolding write insert
write_present e payload metadata recorded bus row same k f =
    rw (k, write) (rw (f, insert) (rw same refl))

known-added :
    (key : Option Codes) (source : String) (rows : List EventRow) (row : EventRow)
    → known key source rows ≡ none
    → row.source ≡ source
    → row.dedup_key ≡ key
    → known key source (rows ++ row ∷ []) ≡ (elim key [ none ↦ none | some k ↦ some row ])
known-added none source rows row n s d = refl
known-added (some k) source rows row n s d =
    rw (find_dedup-append_one source k row rows)
      (ground (arith, eq_iff row.source source, codes_eq_refl k))

find_event-added :
    (id : String) (rows : List EventRow) (row : EventRow)
    → find_event id rows ≡ none
    → row.event_id ≡ id
    → find_event id (rows ++ row ∷ []) ≡ some row
unfolding find_event
find_event-added id rows row n e =
    rw (find-append_one (λ r. r.event_id) id row rows) (ground (arith, eq_iff row.event_id id))

write_again :
    (e : TypedEvent) (payload metadata : Codes) (r r' : ℕ) (bus bus' : Bus) (row : EventRow)
    → Written e payload metadata r bus bus' row
    → write e payload metadata r' bus' ≡ ok (row, bus')
write_again e payload metadata r r' bus bus' row (seen same stays (inl k)) =
    write-known e payload metadata r' bus' row same (rw stays k)
write_again e payload metadata r r' bus bus' row (seen same stays (inr (k, f))) =
    write_present e payload metadata r' bus' row same (rw stays k) (rw stays f)
write_again e payload metadata r r' bus bus' row (added k f v made grown) =
    let same : equivalent e payload metadata row ≡ true =
      rw made (equivalent-new_row e payload metadata r (bus.last_seq + 1)) in
    let present : find_event e.event_id bus'.rows ≡ some row =
      rw grown
        (find_event-added e.event_id bus.rows row f (ap (λ (x : EventRow). x.event_id) made)) in
    let now_known =
      known-added e.dedup_key e.source bus.rows row k (ap (λ (x : EventRow). x.source) made)
        (ap (λ (x : EventRow). x.dedup_key) made) in
    elim (Option-cases e.dedup_key) [
      | inl n ↦ write_present e payload metadata r' bus' row same (rw n refl) present
      | inr (key, s) ↦
          write-known e payload metadata r' bus' row same (rw grown (now_known ∙ rw s refl))
    ]

-- `append` in its two steps: the encoding, and the write.
pub append_steps :
    (e : TypedEvent) (recorded : ℕ) (bus bus' : Bus) (row : EventRow)
    → append e recorded bus ≡ ok (row, bus')
    → (payload metadata : Codes) × (canonical_json max_event_bytes e.payload ≡ ok payload)
      × (canonical_json max_metadata_bytes e.metadata ≡ ok metadata)
      × (write e payload metadata recorded bus ≡ ok (row, bus'))
unfolding append
append_steps e recorded bus bus' row h =
    go (canonical_json max_event_bytes e.payload) (canonical_json max_metadata_bytes e.metadata)
      refl refl
  where
    go :
        (p m : Result EventError Codes)
        → canonical_json max_event_bytes e.payload ≡ p
        → canonical_json max_metadata_bytes e.metadata ≡ m
        → (payload metadata : Codes) × (canonical_json max_event_bytes e.payload ≡ ok payload)
          × (canonical_json max_metadata_bytes e.metadata ≡ ok metadata)
          × (write e payload metadata recorded bus ≡ ok (row, bus'))
    go (ok payload) (ok metadata) p m = (payload, metadata, p, m, rw (p, m, append) at h)
    go (ok payload) (err x) p m = absurd (ground arith)
    go (err x) (ok metadata) p m = absurd (ground arith)
    go (err x) (err y) p m = absurd (ground arith)

append_of_write :
    (e : TypedEvent) (payload metadata : Codes) (recorded : ℕ) (bus : Bus)
    (r : Result EventError (EventRow × Bus))
    → canonical_json max_event_bytes e.payload ≡ ok payload
    → canonical_json max_metadata_bytes e.metadata ≡ ok metadata
    → write e payload metadata recorded bus ≡ r
    → append e recorded bus ≡ r
unfolding append
append_of_write e payload metadata recorded bus r p m w = rw (p, append) (rw m w)

-- An event that was appended is found again: a second append, at any time, returns the same row and
-- leaves the log as it is.
pub append_idempotent :
    (e : TypedEvent) (recorded recorded' : ℕ) (bus bus' : Bus) (row : EventRow)
    → append e recorded bus ≡ ok (row, bus')
    → append e recorded' bus' ≡ ok (row, bus')
append_idempotent e recorded recorded' bus bus' row h =
    let (payload, metadata, p, m, w) = append_steps e recorded bus bus' row h in
    append_of_write e payload metadata recorded' bus' (ok (row, bus')) p m (
      write_again e payload metadata recorded recorded' bus bus' row
        (write_cases e payload metadata recorded bus bus' row w))
