-- ===== src/Text/Codes/Laws.antt =====
-- Equality of texts.
use ultimate_harness.Base.{◌≡◌, refl, true, [], ◌∷◌, arith}
use ultimate_harness.Text.Codes.{Codes, codes_eq}

pub codes_eq_refl : (s : Codes) → codes_eq s s ≡ true
unfolding codes_eq
codes_eq_refl [] = refl
codes_eq_refl (c ∷ cs) = ground (arith, codes_eq_refl cs)

pub eq_of_codes_eq : (s t : Codes) → codes_eq s t ≡ true → s ≡ t
unfolding codes_eq
eq_of_codes_eq [] [] h = refl
eq_of_codes_eq [] (d ∷ ds) h = cc
eq_of_codes_eq (c ∷ cs) [] h = cc
eq_of_codes_eq (c ∷ cs) (d ∷ ds) h = ground (arith, eq_of_codes_eq cs ds)
