-- ===== src/Circuit/Rows.antt =====
-- harness2/circuit.py over the table of circuits: what is read of it after a row was saved.
use ultimate_harness.Base.{
  ℕ, String, ◌≡◌, refl, ap, ◌∙◌, Bool, true, false, ◌=s◌, Option, none, some, List, [], ◌∷◌, ◌++◌,
  arith, eq_refl, if◌then◌else◌,
}
use ultimate_harness.Base.Table.{find, update, find-update_present, find-append_new, key-find}
use ultimate_harness.Circuit.{
  half_open, Circuit, CircuitBreaker, or_new, circuit, upsert, text_of, save_circuit, before_when,
  failed_once,
}

upsert-find :
    (row : Circuit) (k : String) (table : List Circuit)
    → find (λ (c : Circuit). c.key) k (upsert row table)
      ≡ (if row.key =s k then some row else find (λ c. c.key) k table)
unfolding upsert
upsert-find row k table = go (find (λ (c : Circuit). c.key) row.key table) refl
  where
    go :
        (o : Option Circuit)
        → find (λ (c : Circuit). c.key) row.key table ≡ o
        → find
            (λ (c : Circuit). c.key)
            k
            (elim o [
              | none ↦ table ++ row ∷ []
              | some old ↦ update (λ c. c.key) row.key (λ c. record row { key = c.key }) table
            ])
          ≡ (if row.key =s k then some row else find (λ c. c.key) k table)
    go none e = find-append_new (λ (c : Circuit). c.key) row.key k row table refl e
    go (some old) e =
        find-update_present (λ (c : Circuit). c.key) row.key k (λ c. record row { key = c.key })
          table (λ c. refl) e
          (ap (λ i. record row { key = i }) (key-find (λ (c : Circuit). c.key) row.key table e))

pub key-circuit : (k : String) (table : List Circuit) → (circuit k table).key ≡ k
unfolding circuit
key-circuit k table = go (find (λ (c : Circuit). c.key) k table) refl
  where
    go : (o : Option Circuit) → find (λ (c : Circuit). c.key) k table ≡ o → (or_new k o).key ≡ k
    go none e = refl
    go (some c) e = key-find (λ (c : Circuit). c.key) k table e

module _ (redact : String → ℕ → String) where
  abbrev pub saved : ℕ → Circuit → Circuit
  saved now value = record value {
    last_error = some (redact (text_of value.last_error) 200);
    updated_at = now;
  }

  circuit-save :
      (now : ℕ) (value : Circuit) (k : String) (table : List Circuit)
      → circuit k (save_circuit redact now value table)
        ≡ (if value.key =s k then saved now value else circuit k table)
  unfolding circuit save_circuit
  circuit-save now value k table =
      ap (or_new k) (upsert-find (saved now value) k table) ∙ branch (value.key =s k)
    where
      branch :
          (b : Bool)
          → or_new k (if b then some (saved now value) else find (λ c. c.key) k table)
            ≡ (if b then saved now value else or_new k (find (λ c. c.key) k table))
      branch true = refl
      branch false = refl

  -- A circuit that was saved is read back.
  pub save_self :
      (now : ℕ) (value : Circuit) (k : String) (table : List Circuit)
      → value.key ≡ k
      → circuit k (save_circuit redact now value table) ≡ saved now value
  save_self now value k table e = circuit-save now value k table ∙ rw (e, eq_refl k) refl

  pub save_other :
      (now : ℕ) (value : Circuit) (k : String) (table : List Circuit)
      → (value.key =s k) ≡ false
      → circuit k (save_circuit redact now value table) ≡ circuit k table
  save_other now value k table e = circuit-save now value k table ∙ rw e refl

  pub before_when-other :
      (b : Bool) (key other : String) (now : ℕ) (value : Circuit) (table : List Circuit)
      → (value.key =s other) ≡ false
      → circuit other (before_when redact b key now value table).1 ≡ circuit other table
  unfolding before_when
  before_when-other true key other now value table n =
      save_other now (record value { state = half_open }) other table n
  before_when-other false key other now value table n = refl

  pub key-failed_once :
      (breaker : CircuitBreaker) (error : String) (now : ℕ) (value : Circuit)
      → (failed_once redact breaker error now value).key ≡ value.key
  key-failed_once breaker error now value = ground arith
