-- ===== src/Text/Lines.antt =====
-- `str.splitlines`.
pub mod Laws
use ultimate_harness.Base.{ℕ, Bool, true, false, ◌&&◌, ◌||◌, List, [], ◌∷◌, leb, ◌==◌}
use ultimate_harness.Text.Codes.{Codes}

-- NEL, LINE SEPARATOR and PARAGRAPH SEPARATOR: the line breaks that JSON does not escape.
abbrev pub is_separator : ℕ → Bool
is_separator c = c == 133 || c == 8232 || c == 8233

abbrev pub is_break : ℕ → Bool
is_break c = (leb 10 c && leb c 13) || (leb 28 c && leb c 30) || is_separator c

unfoldable pub push : ℕ → List Codes → List Codes
push c [] = (c ∷ []) ∷ []
push c (l ∷ ls) = (c ∷ l) ∷ ls

-- The flag says that the character before was CR, whose LF does not end another line.
unfoldable pub lines_from : Bool → Codes → List Codes
lines_from after_cr [] = []
lines_from after_cr (c ∷ cs) = elim (after_cr && c == 10) [
  | true ↦ lines_from false cs
  | false ↦ elim (is_break c) [
    | true ↦ [] ∷ lines_from (c == 13) cs
    | false ↦ push c (lines_from false cs)
  ]
]

unfoldable pub splitlines : Codes → List Codes
unfolding lines_from push
splitlines s = lines_from false s
