-- ===== src/Failures/Taxonomy.antt =====
-- The categories that normalize_failure answers with.
use ultimate_harness.Base.{
  String, ◌≡◌, ◌≢◌, ◌↔◌, refl, ap, ◌∙◌, sym, subst, ◌⊎◌, Bool, true, false, ◌&&◌, ◌=s◌, is_some,
  Bool-cases, Option-cases, inl, inr, mem_text, all, All, not, Option, none, some, List, [], ◌∷◌,
  arith,
}
use ultimate_harness.Text.Codes.{Codes, codes, strip}
use ultimate_harness.Policy.Decide.{mentions}
use ultimate_harness.Failures.{
  failure_unknown, failure_categories, failure_patterns, failure_code_map, get, mapped, is_text,
  codes_of, is_empty, or_unknown, first_category, failure_text, normalize_failure,
}
use ultimate_harness.Failures.Words.{
  spaced, failure_text-spaced, HasNone, first_category_lem, mapped_lem, is_text_lem,
}

module _ (p : String → Bool) where
  get-all :
      (key : String) (table : List (String × String)) {value : String}
      → all (λ e. p e.1) table ≡ true
      → get key table ≡ some value
      → p value ≡ true
  unfolding get
  get-all key [] k h = cc
  get-all key ((name, v) ∷ rest) {value} k h = elim (Bool-cases (name =s key)) [
    | inl e ↦ ground arith
    | inr e ↦ get-all key rest (ground arith) (ground arith)
  ]

  first_category-all :
      (table : List (String × List String)) (text : Codes) {category : String}
      → all (λ e. p e.0) table ≡ true
      → first_category table text ≡ some category
      → p category ≡ true
  unfolding first_category
  first_category-all [] text k h = cc
  first_category-all ((name, needles) ∷ rest) text {category} k h =
      elim (Bool-cases (mentions needles text)) [
        | inl e ↦ ground arith
        | inr e ↦ first_category-all rest text (ground arith) (ground arith)
      ]

-- One of the categories, but not the unknown one.
is_known : String → Bool
is_known category = mem_text category failure_categories && not (category =s failure_unknown)

patterns_known : all (λ e. is_known e.0) failure_patterns ≡ true
unfolding is_known
patterns_known = refl

codes_known : all (λ e. is_known e.1) failure_code_map ≡ true
unfolding is_known
codes_known = refl

mapped-is_known :
    (code : Option String) {category : String}
    → mapped code ≡ some category
    → is_known category ≡ true
unfolding mapped
mapped-is_known none h = cc
mapped-is_known (some code) h = get-all is_known code failure_code_map codes_known h

known-ne-unknown : (category : String) → is_known category ≡ true → category ≢ failure_unknown
unfolding is_known
known-ne-unknown category h e = cc (subst (λ c. is_known c ≡ true) e h)

known-mem :
    (category : String) → is_known category ≡ true → mem_text category failure_categories ≡ true
unfolding is_known
known-mem category h =
    go (mem_text category failure_categories) (not (category =s failure_unknown)) h
  where
    go : (a b : Bool) → (a && b) ≡ true → a ≡ true
    go true b h = refl
    go false b h = cc

or_unknown-mem :
    (code : Option String) → mem_text (or_unknown (mapped code)) failure_categories ≡ true
or_unknown-mem code = elim (Option-cases (mapped code)) [
  | inl e ↦ rw e refl
  | inr (c, e) ↦ rw e (known-mem c (mapped-is_known code e))
]

or_unknown-none :
    (code : Option String) → or_unknown (mapped code) ≡ failure_unknown → mapped code ≡ none
or_unknown-none code h = elim (Option-cases (mapped code)) [
  | inl e ↦ e
  | inr (c, e) ↦ absurd (known-ne-unknown c (mapped-is_known code e) (ap or_unknown (sym e) ∙ h))
]

-- A failure without a text has no code that the table knows.
failure_text-empty :
    (code message : Option String) → failure_text code message ≡ [] → mapped code ≡ none
unfolding failure_text mapped
failure_text-empty none message h = refl
failure_text-empty (some String.[]) message h = refl
failure_text-empty (some (String.◌∷◌ c s)) none h = cc
failure_text-empty (some (String.◌∷◌ c s)) (some String.[]) h = cc
failure_text-empty (some (String.◌∷◌ c s)) (some (String.◌∷◌ d t)) h = cc

no_category-empty : first_category failure_patterns [] ≡ none
unfolding first_category codes
no_category-empty = refl

module _ (lower : Codes → Codes) (keeps : (text : Codes) → lower text ≡ [] → text ≡ [])
    (code message : Option String) where
  abbrev text : Codes
  text = lower (failure_text code message)

  text_cases : (is_empty text ≡ false) ⊎ (text ≡ [])
  text_cases = go text
    where
      go : (t : Codes) → (is_empty t ≡ false) ⊎ (t ≡ [])
      go [] = inr refl
      go (c ∷ cs) = inl refl

  abbrev blank : Bool
  blank = is_some (mapped code) && is_empty (strip (codes_of message))

  -- The branches of the code, in its order.
  data Branch : Type 0 where
    circuit : is_text "circuit_open" code ≡ true → Branch
    by_code :
        (c : String)
        → is_text "circuit_open" code ≡ false
        → blank ≡ true
        → mapped code ≡ some c
        → Branch
    no_text : is_text "circuit_open" code ≡ false → blank ≡ false → text ≡ [] → Branch
    by_pattern :
        (c : String)
        → is_text "circuit_open" code ≡ false
        → blank ≡ false
        → is_empty text ≡ false
        → first_category failure_patterns text ≡ some c
        → Branch
    no_pattern :
        is_text "circuit_open" code ≡ false
        → blank ≡ false
        → is_empty text ≡ false
        → first_category failure_patterns text ≡ none
        → Branch

  blank-some : blank ≡ true → (c : String) × (mapped code ≡ some c)
  blank-some b = elim (Option-cases (mapped code)) [
    | inl e ↦ absurd (ground arith)
    | inr (c, e) ↦ (c, e)
  ]

  branch : Branch
  branch = elim (Bool-cases (is_text "circuit_open" code)) [
    | inl e ↦ circuit e
    | inr e ↦ elim (Bool-cases blank) [
      | inl b ↦ let (c, k) = blank-some b in by_code c e b k
      | inr b ↦ elim text_cases [
        | inr t ↦ no_text e b t
        | inl t ↦ elim (Option-cases (first_category failure_patterns text)) [
          | inl f ↦ no_pattern e b t f
          | inr (c, f) ↦ by_pattern c e b t f
        ]
      ]
    ]
  ]

  abbrev value : Branch → String
  value (circuit e) = "provider_unavailable"
  value (by_code c e b k) = or_unknown (mapped code)
  value (no_text e b t) = failure_unknown
  value (by_pattern c e b t f) = c
  value (no_pattern e b t f) = or_unknown (mapped code)

  normalize_failure-value : (b : Branch) → normalize_failure lower code message ≡ value b
  unfolding normalize_failure
  normalize_failure-value (circuit e) = rw e refl
  normalize_failure-value (by_code c e b k) = rw (e, b) refl
  normalize_failure-value (no_text e b t) = rw (e, b, t) refl
  normalize_failure-value (by_pattern c e b t f) = rw (e, b, t, f) refl
  normalize_failure-value (no_pattern e b t f) = rw (e, b, t, f) refl

  value-mem : (b : Branch) → mem_text (value b) failure_categories ≡ true
  value-mem (circuit e) = refl
  value-mem (by_code c e b k) = or_unknown-mem code
  value-mem (no_text e b t) = refl
  value-mem (by_pattern c e b t f) =
      known-mem c (first_category-all is_known failure_patterns text patterns_known f)
  value-mem (no_pattern e b t f) = or_unknown-mem code

  -- The category of a failure is one of the fourteen of the taxonomy, for every code and message.
  pub normalize_failure-mem :
      mem_text (normalize_failure lower code message) failure_categories ≡ true
  normalize_failure-mem = rw (normalize_failure-value branch) (value-mem branch)

  abbrev Unclassified : Type 0
  Unclassified =
      (is_text "circuit_open" code ≡ false)
      × (mapped code ≡ none)
      × (first_category failure_patterns (lower (failure_text code message)) ≡ none)

  value-Unclassified : (b : Branch) → value b ≡ failure_unknown → Unclassified
  value-Unclassified (circuit e) h =
      absurd (known-ne-unknown "provider_unavailable" (unfold is_known in refl) h)
  value-Unclassified (by_code c e b k) h =
      absurd (known-ne-unknown c (mapped-is_known code k) (ap or_unknown (sym k) ∙ h))
  value-Unclassified (no_text e b t) h =
      (e, failure_text-empty code message (keeps _ t), rw t no_category-empty)
  value-Unclassified (by_pattern c e b t f) h =
      absurd
        (known-ne-unknown c (first_category-all is_known failure_patterns text patterns_known f) h)
  value-Unclassified (no_pattern e b t f) h = (e, or_unknown-none code h, f)

  Unclassified-value : (b : Branch) → Unclassified → value b ≡ failure_unknown
  Unclassified-value (circuit e) (u, k, f) = cc
  Unclassified-value (by_code c e b k) (u, k', f) = rw k' refl
  Unclassified-value (no_text e b t) (u, k, f) = refl
  Unclassified-value (by_pattern c e b t f) (u, k, f') = cc
  Unclassified-value (no_pattern e b t f) (u, k, f') = rw k refl

  unclassified_lem : (normalize_failure lower code message ≡ failure_unknown) ↔ Unclassified
  unclassified_lem =
      rw (normalize_failure-value branch) (value-Unclassified branch, Unclassified-value branch)

  -- Where lower casing empties no text, a failure is classified as unknown exactly when its code is not
  -- `circuit_open` and none of the codes in the table, and none of the words of the patterns occurs in
  -- its lower-cased text, which is the code and the message with a blank between them, or the one of
  -- them that is not empty.
  pub normalize_failure-unknown : (normalize_failure lower code message ≡ failure_unknown) ↔ (
      (code ≢ some "circuit_open")
      × All (λ entry. code ≢ some entry.0) failure_code_map
      × All
          (λ entry. HasNone (lower (spaced (codes_of code) (codes_of message))) entry.1)
          failure_patterns)
  normalize_failure-unknown =
      let unclassified = unclassified_lem in
      let circuit_open = is_text_lem "circuit_open" code in
      let in_table = mapped_lem code in
      let text : lower (failure_text code message)
          ≡ lower (spaced (codes_of code) (codes_of message)) =
        ap lower (failure_text-spaced code message) in
      let words =
        first_category_lem failure_patterns (lower (spaced (codes_of code) (codes_of message))) in
      let same : first_category failure_patterns (lower (failure_text code message))
          ≡ first_category failure_patterns (lower (spaced (codes_of code) (codes_of message))) =
        ap (first_category failure_patterns) text in
      (
        λ h.
            let (c, m, f) = unclassified.0 h in
            (circuit_open.0 c, in_table.0 m, words.0 (sym same ∙ f)),
        λ (c, m, f). unclassified.1 (circuit_open.1 c, in_table.1 m, same ∙ words.1 f),
      )
