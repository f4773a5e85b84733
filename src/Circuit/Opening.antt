-- ===== src/Circuit/Opening.antt =====
-- When circuits open, for how long, and what a write to one leaves alone.
use ultimate_harness.Base.{
  ℕ, ◌+◌, ◌*◌, ◌≤◌, ◌<◌, String, ◌≡◌, refl, sym, subst, ap, ◌∙◌, Bool, true, false, not, ◌||◌, ◌=s◌,
  leb, min, max, some, List, [], ◌∷◌, length, arith,
}
use ultimate_harness.Circuit.{
  closed, opened, half_open, Circuit, CircuitView, CircuitBreaker, circuit_breaker, circuit,
  is_opened, is_half_open, is_over, view, save_circuit, reset, before_when, before, success,
  failed_once, failure,
}
use ultimate_harness.Circuit.Rows.{
  key-circuit, saved, save_self, save_other, before_when-other, key-failed_once,
}

module _ (redact : String → ℕ → String) where
  -- A failure or a success of one circuit, and a look at it, leave every other circuit as it was.
  pub circuits_are_separate :
      (breaker : CircuitBreaker) (key other error : String) (now : ℕ) (table : List Circuit)
      → (key =s other) ≡ false
      → (circuit other (success redact breaker key now table) ≡ circuit other table)
        × (circuit other (before redact key now table).1 ≡ circuit other table)
        × (circuit other (failure redact breaker key error now table).1 ≡ circuit other table)
  unfolding success failure before
  circuits_are_separate breaker key other error now table n =
      let value = circuit key table in
      let named = key-circuit key table in
      let row = failed_once redact breaker error now value in
      let table' = save_circuit redact now row table in
      (
        save_other redact now (reset redact breaker value) other table (rw named n),
        before_when-other redact _ key other now value table (rw named n),
        before_when-other redact _ key other now (circuit key table') table'
              (rw (key-circuit key table') n)
            ∙ save_other redact now row other table
                (rw (key-failed_once redact breaker error now value, named) n),
      )

  -- The state of a circuit that counts failures.
  abbrev Counting : CircuitBreaker → ℕ → Circuit → Type 0
  Counting breaker n c =
      (c.state ≡ closed) × (c.failures ≡ n) × (c.cooldown ≡ breaker.base_cooldown)

  -- What a failure returns and stores when the cooldown of the row that it writes is not over.
  failure-reads :
      (breaker : CircuitBreaker) (key error : String) (now : ℕ) (table : List Circuit)
      → is_over now (saved redact now (failed_once redact breaker error now (circuit key table)))
        ≡ false
      → let row = saved redact now (failed_once redact breaker error now (circuit key table)) in
        ((failure redact breaker key error now table).0 ≡ view key row)
        × (circuit key (failure redact breaker key error now table).1 ≡ row)
  unfolding failure before before_when
  failure-reads breaker key error now table waits =
      let row = failed_once redact breaker error now (circuit key table) in
      let table' = save_circuit redact now row table in
      let reads : circuit key table' ≡ saved redact now row =
        save_self redact now row key table
          (key-failed_once redact breaker error now (circuit key table) ∙ key-circuit key table) in
      (
        ap (λ c. (before_when redact (is_over now c) key now c table').0) reads
            ∙ ap (λ b. (before_when redact b key now (saved redact now row) table').0) waits,
        ap (λ c. circuit key (before_when redact (is_over now c) key now c table').1) reads
            ∙ ap (λ b. circuit key (before_when redact b key now (saved redact now row) table').1)
                waits
            ∙ reads,
      )

  -- The row of a closed circuit below the threshold, and of one that opens.
  row_counts :
      (breaker : CircuitBreaker) (error : String) (now n : ℕ) (c : Circuit)
      → Counting breaker n c
      → n + 1 < breaker.threshold
      → Counting breaker (n + 1) (saved redact now (failed_once redact breaker error now c))
        × (is_over now (saved redact now (failed_once redact breaker error now c)) ≡ false)
  row_counts breaker error now n c (s, f, d) less = ground (arith, s, f, d)

  row_opens :
      (t b m : ℕ) (error : String) (now : ℕ) (c : Circuit)
      → (leb (circuit_breaker t b m).threshold (c.failures + 1) || is_half_open c.state) ≡ true
      → let breaker = circuit_breaker t b m in
        let row = saved redact now (failed_once redact breaker error now c) in
        (row.state ≡ opened)
        × (row.opened_at ≡ some now)
        × (row.cooldown ≡ min breaker.max_cooldown (max breaker.base_cooldown (c.cooldown * 2)))
        × (is_over now row ≡ false)
  row_opens t b m error now c h = ground (arith, h)

  -- The failures of a run, each with its error and its time.
  abbrev pub failures_of :
      CircuitBreaker → (key : String) → List (String × ℕ) → List Circuit → List Circuit
  failures_of breaker key [] table = table
  failures_of breaker key ((error, now) ∷ rest) table =
      failures_of breaker key rest (failure redact breaker key error now table).1

  counting :
      (breaker : CircuitBreaker) (key : String) (errors : List (String × ℕ)) (n : ℕ)
      (table : List Circuit)
      → Counting breaker n (circuit key table)
      → n + length errors < breaker.threshold
      → Counting breaker (n + length errors) (circuit key (failures_of breaker key errors table))
  counting breaker key [] n table (s, f, d) less = (s, omega (arith, f), d)
  counting breaker key ((error, now) ∷ rest) n table c less =
      let (next, waits) = row_counts breaker error now n (circuit key table) c (omega arith) in
      let reads = (failure-reads breaker key error now table waits).1 in
      subst
        (λ k.
          Counting breaker k (circuit key (failures_of breaker key ((error, now) ∷ rest) table)))
        (omega arith)
        (counting breaker key rest (n + 1) (failure redact breaker key error now table).1
          (subst (Counting breaker (n + 1)) (sym reads) next) (omega arith))

  -- From a success on, a circuit stays closed and counts as long as its failures are fewer than the
  -- threshold; the failure that reaches the threshold opens it, for a cooldown within the bounds of
  -- the breaker, and the call is refused.
  pub opens_at_threshold :
      (t b m : ℕ) (key : String) (start : ℕ) (errors : List (String × ℕ)) (error : String) (now : ℕ)
      (table : List Circuit)
      → length errors + 1 ≡ (circuit_breaker t b m).threshold
      → let breaker = circuit_breaker t b m in
        let before_last = failures_of breaker key errors (success redact breaker key start table) in
        ((circuit key before_last).state ≡ closed)
        × ((circuit key before_last).failures ≡ length errors)
        × ((failure redact breaker key error now before_last).0.allowed ≡ false)
        × ((circuit key (failure redact breaker key error now before_last).1).state ≡ opened)
        × (breaker.base_cooldown
            ≤ (circuit key (failure redact breaker key error now before_last).1).cooldown)
        × ((circuit key (failure redact breaker key error now before_last).1).cooldown
            ≤ breaker.max_cooldown)
  unfolding success
  opens_at_threshold t b m key start errors error now table last =
      let breaker = circuit_breaker t b m in
      let table₀ = success redact breaker key start table in
      let fresh =
        save_self redact start (reset redact breaker (circuit key table)) key table
          (key-circuit key table) in
      let begun : Counting breaker 0 (circuit key table₀) = rw fresh (refl, refl, refl) in
      let (s, f, d) = counting breaker key errors 0 table₀ begun (omega (arith, last)) in
      let c = circuit key (failures_of breaker key errors table₀) in
      let full : (leb breaker.threshold (c.failures + 1) || is_half_open c.state) ≡ true =
        ground (arith, f, last) in
      let (o, at, cool, waits) = row_opens t b m error now c full in
      let (v, r) =
        failure-reads breaker key error now (failures_of breaker key errors table₀) waits in
      (
        s,
        omega (arith, f),
        ap (λ (x : CircuitView). x.allowed) v ∙ ap (λ state. not (is_opened state)) o,
        ap (λ (x : Circuit). x.state) r ∙ o,
        omega (arith, ap (λ (x : Circuit). x.cooldown) r, cool),
        omega (arith, ap (λ (x : Circuit). x.cooldown) r, cool),
      )

  over-opened :
      (now at : ℕ) (c : Circuit)
      → c.state ≡ opened
      → c.opened_at ≡ some at
      → is_over now c ≡ leb (at + c.cooldown) now
  over-opened now at c s e = ground (arith, s, e)

  allowed-opened :
      (b : Bool) (key : String) (now : ℕ) (c : Circuit) (table : List Circuit)
      → c.state ≡ opened
      → (before_when redact b key now c table).0.allowed ≡ b
  unfolding before_when
  allowed-opened true key now c table s = refl
  allowed-opened false key now c table s = ap (λ state. not (is_opened state)) s

  -- A look at an open circuit allows the call exactly when its cooldown is over.
  pub refuses_until_cooldown :
      (key : String) (opened_at now : ℕ) (table : List Circuit)
      → (circuit key table).state ≡ opened
      → (circuit key table).opened_at ≡ some opened_at
      → (before redact key now table).0.allowed ≡ leb (opened_at + (circuit key table).cooldown) now
  unfolding before
  refuses_until_cooldown key opened_at now table s at =
      allowed-opened _ key now (circuit key table) table s
      ∙ over-opened now opened_at (circuit key table) s at

  probed-reads :
      (key : String) (opened_at now : ℕ) (table : List Circuit)
      → (circuit key table).state ≡ opened
      → (circuit key table).opened_at ≡ some opened_at
      → leb (opened_at + (circuit key table).cooldown) now ≡ true
      → circuit key (before redact key now table).1
        ≡ saved redact now (record (circuit key table) { state = half_open })
  unfolding before before_when
  probed-reads key opened_at now table s at over =
      ap (λ b. circuit key (before_when redact b key now (circuit key table) table).1)
        (over-opened now opened_at (circuit key table) s at ∙ over)
      ∙ save_self redact now (record (circuit key table) { state = half_open }) key table
          (key-circuit key table)

  half_open-full :
      (threshold : ℕ) (c : Circuit)
      → c.state ≡ half_open
      → (leb threshold (c.failures + 1) || is_half_open c.state) ≡ true
  half_open-full threshold c s = ground (arith, s)

  -- Once the cooldown of an open circuit is over it is half open and lets a call probe it; a failure
  -- of the probe, whenever it comes, opens it at once, from then on and for twice the cooldown within
  -- the bounds of the breaker, and a success, whenever it comes, closes it.
  pub probes_after_cooldown :
      (t b m : ℕ) (key error : String) (opened_at now failed_at succeeded_at : ℕ)
      (table : List Circuit)
      → (circuit key table).state ≡ opened
      → (circuit key table).opened_at ≡ some opened_at
      → leb (opened_at + (circuit key table).cooldown) now ≡ true
      → let breaker = circuit_breaker t b m in
        let probed = (before redact key now table).1 in
        ((before redact key now table).0.allowed ≡ true)
        × ((circuit key probed).state ≡ half_open)
        × ((failure redact breaker key error failed_at probed).0.allowed ≡ false)
        × ((circuit key (failure redact breaker key error failed_at probed).1).state ≡ opened)
        × ((circuit key (failure redact breaker key error failed_at probed).1).opened_at
            ≡ some failed_at)
        × ((circuit key (failure redact breaker key error failed_at probed).1).cooldown
            ≡ min breaker.max_cooldown
                (max breaker.base_cooldown ((circuit key table).cooldown * 2)))
        × ((circuit key (success redact breaker key succeeded_at probed)).state ≡ closed)
  unfolding before success
  probes_after_cooldown t b m key error opened_at now failed_at succeeded_at table s at over =
      let value = circuit key table in
      let probe = record value { state = half_open } in
      let probed = (before redact key now table).1 in
      let breaker = circuit_breaker t b m in
      let r = probed-reads key opened_at now table s at over in
      let full : (leb breaker.threshold ((circuit key probed).failures + 1)
            || is_half_open (circuit key probed).state)
          ≡ true =
        half_open-full breaker.threshold (circuit key probed) (ap (λ (x : Circuit). x.state) r) in
      let (o, since, cool, waits) = row_opens t b m error failed_at (circuit key probed) full in
      let (v, r') = failure-reads breaker key error failed_at probed waits in
      (
        refuses_until_cooldown key opened_at now table s at ∙ over,
        ap (λ (x : Circuit). x.state) r,
        ap (λ (x : CircuitView). x.allowed) v ∙ ap (λ state. not (is_opened state)) o,
        ap (λ (x : Circuit). x.state) r' ∙ o,
        ap (λ (x : Circuit). x.opened_at) r' ∙ since,
        ap (λ (x : Circuit). x.cooldown) r'
            ∙ cool
            ∙ ap
                (λ (x : Circuit).
                  min breaker.max_cooldown (max breaker.base_cooldown (x.cooldown * 2)))
                r,
        ap (λ (x : Circuit). x.state)
            (save_self redact succeeded_at (reset redact breaker (circuit key probed)) key probed
              (key-circuit key probed)),
      )
