-- ===== src/Examples/Circuits.antt =====
-- The theorems on circuits, applied to a breaker with the defaults.
use ultimate_harness.Base.{
  ℕ, ◌*◌, ◌≤◌, String, ◌≡◌, refl, true, false, min, max, some, List, [], ◌∷◌,
}
use ultimate_harness.Base.Table.{find}
use ultimate_harness.Circuit.{
  closed, opened, half_open, Circuit, circuit_breaker, circuit, before, success, failure,
  CircuitBreaker, new_circuit,
}
use ultimate_harness.Circuit.Opening.{
  failures_of, circuits_are_separate, opens_at_threshold, probes_after_cooldown,
}

abbrev keep : String → ℕ → String
keep text n = text

abbrev breaker : CircuitBreaker
breaker = circuit_breaker 3 30 600

circuits_are_separate_example :
    (circuit "b" (success keep breaker "a" 1 []) ≡ circuit "b" [])
    × (circuit "b" (before keep "a" 1 []).1 ≡ circuit "b" [])
    × (circuit "b" (failure keep breaker "a" "boom" 1 []).1 ≡ circuit "b" [])
circuits_are_separate_example = circuits_are_separate keep breaker "a" "b" "boom" 1 [] refl

abbrev errors : List (String × ℕ)
errors = ("one", 2) ∷ ("two", 3) ∷ []

abbrev twice_failed : List Circuit
twice_failed = failures_of keep breaker "a" errors (success keep breaker "a" 1 [])

opens_at_threshold_example :
    ((circuit "a" twice_failed).state ≡ closed)
    × ((circuit "a" twice_failed).failures ≡ 2)
    × ((failure keep breaker "a" "three" 4 twice_failed).0.allowed ≡ false)
    × ((circuit "a" (failure keep breaker "a" "three" 4 twice_failed).1).state ≡ opened)
    × (30 ≤ (circuit "a" (failure keep breaker "a" "three" 4 twice_failed).1).cooldown)
    × ((circuit "a" (failure keep breaker "a" "three" 4 twice_failed).1).cooldown ≤ 600)
opens_at_threshold_example = opens_at_threshold keep 3 30 600 "a" 1 errors "three" 4 [] refl

abbrev open_table : List Circuit
open_table =
    record (new_circuit "a") { state = opened; failures = 3; opened_at = some 4; cooldown = 60 }
    ∷ []

open_row :
    circuit "a" open_table
    ≡ record (new_circuit "a") { state = opened; failures = 3; opened_at = some 4; cooldown = 60 }
unfolding find circuit
open_row = refl

probes_after_cooldown_example :
    ((before keep "a" 64 open_table).0.allowed ≡ true)
    × ((circuit "a" (before keep "a" 64 open_table).1).state ≡ half_open)
    × ((failure keep breaker "a" "again" 70 (before keep "a" 64 open_table).1).0.allowed ≡ false)
    × ((circuit "a" (failure keep breaker "a" "again" 70 (before keep "a" 64 open_table).1).1).state
        ≡ opened)
    × ((circuit "a"
          (failure keep breaker "a" "again" 70 (before keep "a" 64 open_table).1).1).opened_at
        ≡ some 70)
    × ((circuit "a"
          (failure keep breaker "a" "again" 70 (before keep "a" 64 open_table).1).1).cooldown
        ≡ min 600 (max 30 ((circuit "a" open_table).cooldown * 2)))
    × ((circuit "a" (success keep breaker "a" 75 (before keep "a" 64 open_table).1)).state ≡ closed)
unfolding find circuit
probes_after_cooldown_example =
    probes_after_cooldown keep 3 30 600 "a" "again" 4 64 70 75 open_table refl refl refl
