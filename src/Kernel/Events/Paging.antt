-- ===== src/Kernel/Events/Paging.antt =====
-- Reading the log in pages, and the cursor of a consumer.
use ultimate_harness.Base.{
  ℕ, zero, suc, ◌≤◌, ◌<◌, String, ◌≡◌, refl, sym, subst, ap, ◌∙◌, true, false, ◌=s◌, max,
  Bool-cases, inl, inr, Option, List, [], ◌∷◌, ◌++◌, arith, eq_iff, eq_refl, take, select,
  if◌then◌else◌,
}
use ultimate_harness.Base.Result.{ok}
use ultimate_harness.Base.Table.{find-update, find-append_one}
use ultimate_harness.Kernel.Events.{
  EventRow, Bus, Consumer, wanted, replay, page_size, high_water, cursor, ack, advance_consumer,
  find_consumer,
}
use ultimate_harness.Kernel.Events.Order.{Ascending, IsLog}

-- The number of the last row of a page, from which a reader goes on.
abbrev pub last_seen : ℕ → List EventRow → ℕ
last_seen after [] = after
last_seen after (r ∷ rs) = last_seen r.seq rs

module _ (event_type task_id : Option String) where
  select-above :
      (low a b : ℕ) (rows : List EventRow)
      → Ascending low rows
      → a ≤ low
      → b ≤ low
      → select (wanted a event_type task_id) rows ≡ select (wanted b event_type task_id) rows
  select-above low a b [] h p q = refl
  select-above low a b (r ∷ rows) h p q = ground (arith, select-above r.seq a b rows h.1)

  wanted-later :
      (after : ℕ) (r : EventRow) → wanted after event_type task_id r ≡ true → after < r.seq
  wanted-later after r h = ground arith

  wanted-seen :
      (before after : ℕ) (r : EventRow) → r.seq ≤ after → wanted after event_type task_id r ≡ false
  wanted-seen before after r h = ground arith

  wanted-skipped :
      (after later : ℕ) (r : EventRow)
      → wanted after event_type task_id r ≡ false
      → after ≤ later
      → wanted later event_type task_id r ≡ false
  wanted-skipped after later r h le = ground arith

  last_seen-le :
      (n low after : ℕ) (rows : List EventRow)
      → Ascending low rows
      → after ≤ last_seen after (take n (select (wanted after event_type task_id) rows))
  last_seen-le zero low after rows h = omega arith
  last_seen-le (suc n) low after [] h = omega arith
  last_seen-le (suc n) low after (r ∷ rows) h =
      elim (Bool-cases (wanted after event_type task_id r)) [
        | inl w ↦ rw w (
            rw
              (select-above r.seq after r.seq rows h.1 (omega (arith, wanted-later after r w))
                (omega arith))
              (omega (arith, wanted-later after r w, last_seen-le n r.seq r.seq rows h.1)))
        | inr s ↦ rw s (last_seen-le (suc n) r.seq after rows h.1)
      ]

  -- Whether reading on behind the first n + 1 rows of `found` gives the rest of `found`.
  abbrev Resumes : ℕ → ℕ → List EventRow → List EventRow → Type 0
  Resumes n after rows found =
      let page = take n found in
      page ++ select (wanted (last_seen after page) event_type task_id) rows ≡ found

  resume_found :
      (n after : ℕ) (r : EventRow) (rows : List EventRow)
      → Ascending r.seq rows
      → Resumes n r.seq rows (select (wanted r.seq event_type task_id) rows)
      → Resumes (suc n) after (r ∷ rows) (r ∷ select (wanted r.seq event_type task_id) rows)
  resume_found n after r rows h rest =
      rw
        (wanted-seen after
          (last_seen r.seq (take n (select (wanted r.seq event_type task_id) rows))) r
          (last_seen-le n r.seq r.seq rows h))
        (ap (λ l. r ∷ l) rest)

  resume_skipped :
      (n after : ℕ) (r : EventRow) (rows : List EventRow)
      → wanted after event_type task_id r ≡ false
      → Ascending r.seq rows
      → Resumes n after rows (select (wanted after event_type task_id) rows)
      → Resumes n after (r ∷ rows) (select (wanted after event_type task_id) rows)
  resume_skipped n after r rows s h rest =
      rw
        (wanted-skipped after
          (last_seen after (take n (select (wanted after event_type task_id) rows))) r s
          (last_seen-le n r.seq after rows h))
        rest

  resume_rows :
      (n low after : ℕ) (rows : List EventRow)
      → Ascending low rows
      → Resumes n after rows (select (wanted after event_type task_id) rows)
  resume_rows zero low after rows h = refl
  resume_rows (suc n) low after [] h = refl
  resume_rows (suc n) low after (r ∷ rows) h =
      let found = select (wanted after event_type task_id) (r ∷ rows) in
      let rest = resume_rows n r.seq r.seq rows h.1 in
      let same = resume_rows (suc n) r.seq after rows h.1 in
      elim (Bool-cases (wanted after event_type task_id r)) [
        | inl w ↦
            let e : found ≡ r ∷ select (wanted r.seq event_type task_id) rows = rw w (
              ap (λ l. r ∷ l)
                (select-above r.seq after r.seq rows h.1 (omega (arith, wanted-later after r w))
                  (omega arith))) in
            subst (Resumes (suc n) after (r ∷ rows)) (sym e) (resume_found n after r rows h.1 rest)
        | inr s ↦
            let e : found ≡ select (wanted after event_type task_id) rows = rw s refl in
            subst (Resumes (suc n) after (r ∷ rows)) (sym e)
              (resume_skipped (suc n) after r rows s h.1 same)
      ]

  -- A page of `replay`, and all that `replay` would find behind its last event, are together all that
  -- it would find in one page without a limit: reading on from the last event seen loses none and
  -- repeats none.
  pub replay_resumes :
      (bus : Bus) (after limit : ℕ)
      → IsLog bus
      → let page = replay after limit event_type task_id bus in
        page ++ select (wanted (last_seen after page) event_type task_id) bus.rows
        ≡ select (wanted after event_type task_id) bus.rows
  unfolding replay
  replay_resumes bus after limit v = resume_rows (page_size limit) 0 after bus.rows v.ordered

cursor-advance :
    (id other : String) (through now : ℕ) (consumers : List Consumer) (rows : List EventRow)
    (top : ℕ)
    → let before : Bus = record { rows = rows; last_seq = top; consumers = consumers } in
      let after : Bus = record {
        rows = rows;
        last_seq = top;
        consumers = advance_consumer id through now consumers;
      } in
      cursor other after
      ≡ (if id =s other then max (cursor other before) through else cursor other before)
unfolding cursor advance_consumer find_consumer
cursor-advance id other through now consumers rows top = ground (
  arith,
  eq_iff id other,
  find-append_one (λ (r : Consumer). r.consumer_id) other
      (record { consumer_id = id; last_seq = through; updated_at = now }) consumers,
  find-update (λ (r : Consumer). r.consumer_id) id other
      (λ r. record r { last_seq = max r.last_seq through; updated_at = now }) consumers (λ r. refl),
)

abbrev advanced : String → ℕ → ℕ → Bus → Bus
advanced id through now bus = record bus {
  consumers = advance_consumer id through now bus.consumers;
}

ack_accepted :
    (id : String) (through now n : ℕ) (bus bus' : Bus)
    → ack id through now bus ≡ ok (n, bus')
    → (through ≤ high_water bus.rows)
      × (n ≡ cursor id (advanced id through now bus))
      × (bus' ≡ advanced id through now bus)
unfolding ack
ack_accepted id through now n bus bus' h = (ground arith, ground arith, ground arith)

-- An acknowledgement is never above the newest event, moves its consumer forward or leaves it, and
-- moves no other consumer.
pub ack_effect :
    (id other : String) (through now n : ℕ) (bus bus' : Bus)
    → ack id through now bus ≡ ok (n, bus')
    → (through ≤ high_water bus.rows)
      × (n ≡ max (cursor id bus) through)
      × (cursor id bus' ≡ n)
      × (cursor other bus' ≡ (if id =s other then n else cursor other bus))
      × (bus'.rows ≡ bus.rows)
ack_effect id other through now n bus bus' h =
    let (bound, value, after) = ack_accepted id through now n bus bus' h in
    let moved =
      λ (who : String). cursor-advance id who through now bus.consumers bus.rows bus.last_seq in
    let greatest : n ≡ max (cursor id bus) through = value ∙ rw (moved id, eq_refl id) refl in
    (
      bound,
      greatest,
      rw after (sym value),
      elim (Bool-cases (id =s other)) [
        | inl e ↦
            rw (after, moved other, e)
              (ap (λ w. max (cursor w bus) through) (sym ((eq_iff id other).0 e)) ∙ sym greatest)
        | inr ne ↦ rw (after, moved other, ne) refl
      ],
      rw after refl,
    )
