-- ===== src/Text/Json/Laws.antt =====
-- What `json.dumps` of a text guarantees.
use mathlib.Core.Option
use mathlib.Core.List.{append-nil, append_assoc}
use ultimate_harness.Base.{
  ℕ, ◌<◌, ◌≡◌, refl, sym, ap, ◌∙◌, Bool, true, false, ◌&&◌, ◌||◌, not, Option, none, some, List, [],
  ◌∷◌, ◌++◌, map, arith, ltb, ◌==◌, any, all, all-append,
}
use ultimate_harness.Text.Codes.{Codes}
use ultimate_harness.Text.Lines.{is_separator}
use ultimate_harness.Text.Lines.Laws.{no_break}
use ultimate_harness.Text.Json.{
  quote, CodeUnit, plain, escape_char, escape, dumps_text, scan, scan_step, join_pairs, loads_text,
}

-- Whether `json.dumps` writes a character as \uXXXX.
abbrev as_hex : ℕ → Bool
as_hex c = ltb c 32 && not (c == 8 || c == 9 || c == 10 || c == 12 || c == 13)

abbrev unit_of : ℕ → CodeUnit
unit_of c = (as_hex c, c)

scan-escape_char :
    (c : ℕ) (rest : Codes)
    → scan plain (escape_char c ++ rest) ≡ Option.map (λ r. unit_of c ∷ r) (scan plain rest)
unfolding escape_char scan scan_step
scan-escape_char c rest = ground arith

join_pairs-units : (cs : Codes) → join_pairs (map unit_of cs) ≡ cs
unfolding join_pairs
join_pairs-units [] = refl
join_pairs-units (c ∷ []) = refl
join_pairs-units (c ∷ d ∷ cs) = ground (arith, join_pairs-units (d ∷ cs))

abbrev prefixed : List CodeUnit → Option (List CodeUnit) → Option (List CodeUnit)
prefixed us o = Option.map (λ r. us ++ r) o

scan-escape :
    (cs rest : Codes) → scan plain (escape cs ++ rest) ≡ prefixed (map unit_of cs) (scan plain rest)
unfolding escape
scan-escape [] rest = ground arith
scan-escape (c ∷ cs) rest =
    rw (append_assoc (escape_char c) (escape cs) rest)
      (rw (scan-escape_char c (escape cs ++ rest)) (ground (arith, scan-escape cs rest)))

scan-end : scan plain (quote ∷ []) ≡ some []
unfolding scan scan_step
scan-end = refl

-- What `json.dumps` writes for a text, `json.loads` reads back, for every text.
pub loads_text-dumps_text : (s : Codes) → loads_text (dumps_text s) ≡ some s
unfolding loads_text dumps_text
loads_text-dumps_text s =
    rw (scan-escape s (quote ∷ []), scan-end, append-nil) (ap some (join_pairs-units s))

-- A raw control character inside a JSON string is refused, whatever stands before and behind it.
pub loads_text-control :
    (s rest : Codes) (c : ℕ) → c < 32 → loads_text (quote ∷ (escape s ++ c ∷ rest)) ≡ none
unfolding loads_text scan scan_step
loads_text-control s rest c h = rw (scan-escape s (c ∷ rest)) (ground arith)

escape_char-no_break : (c : ℕ) → is_separator c ≡ false → all no_break (escape_char c) ≡ true
unfolding escape_char
escape_char-no_break c h = ground arith

-- `json.dumps` leaves no line break in a text but the separators that the text has itself.
pub escape-no_break : (s : Codes) → any is_separator s ≡ false → all no_break (escape s) ≡ true
unfolding escape
escape-no_break [] h = refl
escape-no_break (c ∷ s) h = ground (
  arith,
  all-append no_break (escape_char c) (escape s),
  escape_char-no_break c,
  escape-no_break s,
)

pub escape-append : (s t : Codes) → escape (s ++ t) ≡ escape s ++ escape t
unfolding escape
escape-append [] t = refl
escape-append (c ∷ s) t =
    ap (λ x. escape_char c ++ x) (escape-append s t)
    ∙ sym (append_assoc (escape_char c) (escape s) (escape t))

-- A separator is written as it stands.
pub escape-separator : (c : ℕ) (t : Codes) → is_separator c ≡ true → escape (c ∷ t) ≡ c ∷ escape t
unfolding escape escape_char
escape-separator c t h = ground arith
