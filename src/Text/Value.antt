-- ===== src/Text/Value.antt =====
-- JSON values and their canonical text, `json.dumps(value, ensure_ascii=False, sort_keys=True,
-- separators=(",", ":"))`. Numbers are the integers.
use ultimate_harness.Base.{
  ℕ, zero, suc, ◌+◌, ◌/◌, ◌%◌, Bool, true, false, [], ◌∷◌, ◌++◌, ltb, ◌==◌, if◌then◌else◌,
}
use ultimate_harness.Base.Int.{ℤ, pos, negsuc}
use ultimate_harness.Text.Codes.{Codes, codes}
use ultimate_harness.Text.Json.{dumps_text}

mutual
  pub data Value : Type 0 where
    null : Value
    flag : Bool → Value
    num : ℤ → Value
    text : Codes → Value
    arr : Items → Value
    obj : Fields → Value

  pub data Items : Type 0 where
    nil : Items
    cons : Value → Items → Items

  pub data Fields : Type 0 where
    end : Fields
    field : Codes → Value → Fields → Fields

-- str(n). The fuel n + 1 is enough, since n / 10 < n.
unfoldable pub show_digits : ℕ → ℕ → Codes
show_digits zero n = []
show_digits (suc fuel) n =
    let rest = show_digits fuel (n / 10) in
    let digit = (48 + n % 10) ∷ [] in if ltb n 10 then digit else rest ++ digit

unfoldable pub show : ℕ → Codes
unfolding show_digits
show n = show_digits (n + 1) n

-- The order of Python on texts.
unfoldable pub codes_lt : Codes → Codes → Bool
codes_lt s [] = false
codes_lt [] (d ∷ ds) = true
codes_lt (c ∷ cs) (d ∷ ds) =
    let rest = codes_lt cs ds in if ltb c d then true else if c == d then rest else false

unfoldable pub insert_field : Codes → Value → Fields → Fields
insert_field k v end = field k v end
insert_field k v (field j w fs) =
    let rest = insert_field k v fs in
    if codes_lt k j then field k v (field j w fs) else field j w rest

unfoldable mutual
  unfolding insert_field codes_lt

  pub sort_keys : Value → Value
  sort_keys null = null
  sort_keys (flag b) = flag b
  sort_keys (num n) = num n
  sort_keys (text s) = text s
  sort_keys (arr xs) = arr (sort_items xs)
  sort_keys (obj fs) = obj (sort_fields fs)

  pub sort_items : Items → Items
  sort_items nil = nil
  sort_items (cons x xs) = cons (sort_keys x) (sort_items xs)

  pub sort_fields : Fields → Fields
  sort_fields end = end
  sort_fields (field k v fs) = insert_field k (sort_keys v) (sort_fields fs)

unfoldable mutual
  unfolding codes show dumps_text

  pub render : Value → Codes
  render null = codes "null"
  render (flag true) = codes "true"
  render (flag false) = codes "false"
  render (num (pos n)) = show n
  render (num (negsuc n)) = b'-' ∷ show (n + 1)
  render (text s) = dumps_text s
  render (arr nil) = codes "[]"
  render (arr (cons x xs)) = b'[' ∷ (render x ++ render_items xs)
  render (obj end) = codes "{}"
  render (obj (field k v fs)) = b'{' ∷ (dumps_text k ++ b':' ∷ (render v ++ render_fields fs))

  pub render_items : Items → Codes
  render_items nil = b']' ∷ []
  render_items (cons x xs) = b',' ∷ (render x ++ render_items xs)

  pub render_fields : Fields → Codes
  render_fields end = b'}' ∷ []
  render_fields (field k v fs) = b',' ∷ (dumps_text k ++ b':' ∷ (render v ++ render_fields fs))

-- The canonical text of an object.
unfoldable pub dumps_object : Fields → Codes
unfolding sort_fields render
dumps_object fs = render (obj (sort_fields fs))
