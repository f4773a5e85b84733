-- ===== src/Circuit.antt =====
-- harness2/circuit.py, CircuitBreaker, over the table `circuits` of harness2/store.py (circuit and
-- save_circuit). Times are natural numbers of seconds; one call reads the clock once. `redact` of
-- harness2/security.py shortens the text of an error and is a parameter.
use ultimate_harness.Base.{
  ℕ, ◌+◌, ◌-◌, ◌*◌, String, Bool, true, false, not, ◌&&◌, ◌||◌, leb, min, max, Option, none, some,
  List, [], ◌∷◌, ◌++◌, if◌then◌else◌,
}
use ultimate_harness.Base.Table.{find, update}
pub mod Rows
pub mod Opening

pub data CircuitState : Type 0 where
  closed opened half_open : CircuitState

pub record Circuit : Type 0 where
  pub key : String
  pub state : CircuitState
  pub failures : ℕ
  pub opened_at : Option ℕ
  pub cooldown : ℕ
  pub last_error : Option String
  pub updated_at : ℕ

pub record CircuitView : Type 0 where
  pub key : String
  pub state : CircuitState
  pub failures : ℕ
  pub allowed : Bool
  pub cooldown : ℕ

pub record CircuitBreaker : Type 0 where
  pub threshold : ℕ
  pub base_cooldown : ℕ
  pub max_cooldown : ℕ

-- CircuitBreaker.__init__
abbrev pub circuit_breaker : (threshold base_cooldown max_cooldown : ℕ) → CircuitBreaker
circuit_breaker threshold base_cooldown max_cooldown = record {
  threshold = max 1 threshold;
  base_cooldown = max 1 base_cooldown;
  max_cooldown = max (max 1 base_cooldown) max_cooldown;
}

-- Store.circuit
abbrev pub new_circuit : String → Circuit
new_circuit key = record {
  key = key;
  state = closed;
  failures = 0;
  opened_at = none;
  cooldown = 30;
  last_error = none;
  updated_at = 0;
}

abbrev pub or_new : String → Option Circuit → Circuit
or_new key none = new_circuit key
or_new key (some value) = value

unfoldable pub circuit : String → List Circuit → Circuit
unfolding find
circuit key table = or_new key (find (λ c. c.key) key table)

-- Store.save_circuit: INSERT … ON CONFLICT(key) DO UPDATE
unfoldable pub upsert : Circuit → List Circuit → List Circuit
unfolding find update
upsert row table = elim (find (λ c. c.key) row.key table) [
  | none ↦ table ++ row ∷ []
  | some old ↦ update (λ c. c.key) row.key (λ c. record row { key = c.key }) table
]

abbrev pub text_of : Option String → String
text_of none = ""
text_of (some s) = s

abbrev pub is_opened : CircuitState → Bool
is_opened opened = true
is_opened _ = false

abbrev pub is_half_open : CircuitState → Bool
is_half_open half_open = true
is_half_open _ = false

-- The circuit is open and its cooldown is over.
abbrev pub is_over : ℕ → Circuit → Bool
is_over now c = is_opened c.state && waited now c.cooldown c.opened_at
  where
    waited : ℕ → ℕ → Option ℕ → Bool
    waited now cooldown none = false
    waited now cooldown (some at) = leb (at + cooldown) now

abbrev pub view : String → Circuit → CircuitView
view key c = record {
  key = key;
  state = c.state;
  failures = c.failures;
  allowed = not (is_opened c.state);
  cooldown = c.cooldown;
}

module _ (redact : String → ℕ → String) where
  unfoldable pub save_circuit : ℕ → Circuit → List Circuit → List Circuit
  unfolding upsert
  save_circuit now value =
      upsert (record value {
        last_error = some (redact (text_of value.last_error) 200);
        updated_at = now;
      })

  -- A circuit whose cooldown is over lets one call probe it.
  unfoldable pub before_when :
      Bool → (key : String) (now : ℕ) → Circuit → List Circuit → CircuitView × List Circuit
  unfolding save_circuit
  before_when true key now value table =
      let probe = record value { state = half_open } in
      (view key probe, save_circuit now probe table)
  before_when false key now value table = (view key value, table)

  -- CircuitBreaker.before
  unfoldable pub before : (key : String) (now : ℕ) → List Circuit → CircuitView × List Circuit
  unfolding circuit before_when
  before key now table =
      let value = circuit key table in before_when (is_over now value) key now value table

  abbrev pub reset : CircuitBreaker → Circuit → Circuit
  reset breaker value = record value {
    state = closed;
    failures = 0;
    opened_at = none;
    cooldown = breaker.base_cooldown;
    last_error = some "";
  }

  -- CircuitBreaker.success
  unfoldable pub success : CircuitBreaker → (key : String) (now : ℕ) → List Circuit → List Circuit
  unfolding circuit save_circuit
  success breaker key now table = save_circuit now (reset breaker (circuit key table)) table

  -- The circuit after one more failure.
  abbrev pub failed_once : CircuitBreaker → (error : String) (now : ℕ) → Circuit → Circuit
  failed_once breaker error now value =
      let counted = record value { failures = value.failures + 1; last_error = some error } in
      if leb breaker.threshold (value.failures + 1) || is_half_open value.state
      then record counted {
        state = opened;
        opened_at = some now;
        cooldown = min breaker.max_cooldown (max breaker.base_cooldown (value.cooldown * 2));
      }
      else counted

  -- CircuitBreaker.failure
  unfoldable pub failure :
      CircuitBreaker → (key error : String) (now : ℕ) → List Circuit → CircuitView × List Circuit
  unfolding before
  failure breaker key error now table =
      before key now (save_circuit now (failed_once breaker error now (circuit key table)) table)
