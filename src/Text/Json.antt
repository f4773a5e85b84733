-- ===== src/Text/Json.antt =====
-- JSON text: `json.dumps` of a string with ensure_ascii=False, and `json.loads` of a text that is
-- wanted as a string.
pub mod Laws
use mathlib.Core.Option
use ultimate_harness.Base.{
  ℕ, ◌+◌, ◌-◌, ◌*◌, ◌/◌, ◌%◌, Bool, true, false, ◌&&◌, Option, none, some, List, [], ◌∷◌, ◌++◌, leb,
  ltb, ◌==◌, if◌then◌else◌,
}
use ultimate_harness.Text.Codes.{Codes}

abbrev pub quote : ℕ
quote = b'"'

abbrev pub backslash : ℕ
backslash = 92

abbrev hex_digit : ℕ → ℕ
hex_digit d = if ltb d 10 then 48 + d else 87 + d

-- One character inside a JSON string.
unfoldable pub escape_char : ℕ → Codes
escape_char c =
    if c == quote
    then backslash ∷ quote ∷ []
    else if c == backslash
    then backslash ∷ backslash ∷ []
    else if c == 10
    then backslash ∷ b'n' ∷ []
    else if c == 13
    then backslash ∷ b'r' ∷ []
    else if c == 9
    then backslash ∷ b't' ∷ []
    else if c == 12
    then backslash ∷ b'f' ∷ []
    else if c == 8
    then backslash ∷ b'b' ∷ []
    else if ltb c 32
    then backslash ∷ b'u' ∷ 48 ∷ 48 ∷ hex_digit (c / 16) ∷ hex_digit (c % 16) ∷ []
    else c ∷ []

unfoldable pub escape : Codes → Codes
escape [] = []
escape (c ∷ cs) = escape_char c ++ escape cs

-- json.dumps(text, ensure_ascii=False)
unfoldable pub dumps_text : Codes → Codes
dumps_text s = quote ∷ (escape s ++ quote ∷ [])

-- Where the scanner of a JSON string stands: between characters, after a backslash, inside the four
-- digits of \uXXXX, or behind the closing quote.
pub data Mode : Type 0 where
  plain escaped closed : Mode
  hex : (left acc : ℕ) → Mode

-- A unit of the result, and whether it was written as \uXXXX.
abbrev pub CodeUnit : Type 0
CodeUnit = Bool × ℕ

unfoldable pub hex_value : ℕ → Option ℕ
hex_value c =
    if leb 48 c && leb c 57
    then some (c - 48)
    else if leb 97 c && leb c 102
    then some (c - 87)
    else if leb 65 c && leb c 70
    then some (c - 55)
    else none

unfoldable pub after_backslash : ℕ → Option (Mode × List CodeUnit)
after_backslash c =
    if c == quote
    then some (plain, (false, quote) ∷ [])
    else if c == backslash
    then some (plain, (false, backslash) ∷ [])
    else if c == b'/'
    then some (plain, (false, b'/') ∷ [])
    else if c == b'n'
    then some (plain, (false, 10) ∷ [])
    else if c == b'r'
    then some (plain, (false, 13) ∷ [])
    else if c == b't'
    then some (plain, (false, 9) ∷ [])
    else if c == b'f'
    then some (plain, (false, 12) ∷ [])
    else if c == b'b'
    then some (plain, (false, 8) ∷ [])
    else if c == b'u'
    then some (hex 4 0, [])
    else none

-- Control characters are refused inside a string (strict mode).
unfoldable pub scan_step : Mode → ℕ → Option (Mode × List CodeUnit)
unfolding after_backslash hex_value
scan_step plain c =
    if c == quote
    then some (closed, [])
    else if c == backslash
    then some (escaped, [])
    else if ltb c 32
    then none
    else some (plain, (false, c) ∷ [])
scan_step escaped c = after_backslash c
scan_step closed c = none
scan_step (hex left acc) c = elim (hex_value c) [
  | none ↦ none
  | some v ↦
      if left == 1
      then some (plain, (true, acc * 16 + v) ∷ [])
      else some (hex (left - 1) (acc * 16 + v), [])
]

unfoldable pub scan : Mode → Codes → Option (List CodeUnit)
scan closed [] = some []
scan plain [] = none
scan escaped [] = none
scan (hex left acc) [] = none
scan m (c ∷ cs) = elim (scan_step m c) [
  | none ↦ none
  | some (m', units) ↦ Option.map (λ rest. units ++ rest) (scan m' cs)
]

-- Two \uXXXX escapes that form a surrogate pair are one character.
unfoldable pub join_pairs : List CodeUnit → Codes
join_pairs [] = []
join_pairs ((e, u) ∷ []) = u ∷ []
join_pairs ((e, u) ∷ (d, v) ∷ us) =
    let alone = join_pairs ((d, v) ∷ us) in
    let paired = (65536 + (u - 55296) * 1024 + (v - 56320)) ∷ join_pairs us in
    if e && d && leb 55296 u && leb u 56319 && leb 56320 v && leb v 57343 then paired else u ∷ alone

-- json.loads(text), wanted as a string; `none` when it is no JSON value or one of another type. The
-- text is stripped, so there is no white space around the value.
unfoldable pub loads_text : Codes → Option Codes
loads_text [] = none
loads_text (c ∷ cs) = if c == quote then Option.map join_pairs (scan plain cs) else none
