-- ===== src/Failures/Words.antt =====
-- What normalize_failure reads, described without its loops: the text of a failure, the codes of the
-- table, and the patterns that a text has.
use ultimate_harness.Base.{
  ℕ, String, ◌≡◌, ◌≢◌, ◌↔◌, refl, sym, ap, ◌∙◌, inl, inr, Bool, true, false, ◌||◌, ◌=s◌, All-every,
  All, Bool-cases, Option, none, some, List, [], ◌∷◌, ◌++◌, eq_iff, arith, if◌then◌else◌,
}
use ultimate_harness.Text.Codes.{Codes, codes, codes_eq, join}
use ultimate_harness.Text.Codes.Laws.{codes_eq_refl, eq_of_codes_eq}
use ultimate_harness.Policy.Decide.{is_prefix, occurs, mentions}
use ultimate_harness.Failures.{
  failure_code_map, get, mapped, codes_of, nonempty_parts, first_category, failure_text, is_text,
}

-- The code and the message with a blank between them; one of them where the other is missing or empty.
abbrev pub spaced : Codes → Codes → Codes
spaced [] message = message
spaced (c ∷ cs) [] = c ∷ cs
spaced (c ∷ cs) (d ∷ ds) = (c ∷ cs) ++ 32 ∷ d ∷ ds

pub failure_text-spaced :
    (code message : Option String)
    → failure_text code message ≡ spaced (codes_of code) (codes_of message)
unfolding failure_text join nonempty_parts
failure_text-spaced code message = go (codes_of code) (codes_of message)
  where
    go : (c m : Codes) → join (32 ∷ []) (nonempty_parts (c ∷ m ∷ [])) ≡ spaced c m
    go [] [] = refl
    go [] (d ∷ ds) = refl
    go (c ∷ cs) [] = refl
    go (c ∷ cs) (d ∷ ds) = refl

-- A text has a word somewhere in it.
abbrev pub Has : Codes → Codes → Type 0
Has text word = (before : Codes) × (after : Codes) × (text ≡ before ++ (word ++ after))

one_code : (c d : ℕ) → codes_eq (c ∷ []) (d ∷ []) ≡ true → c ≡ d
one_code c d h = let e = eq_of_codes_eq (c ∷ []) (d ∷ []) h in cc e

-- The tail of an equation of lists.
tail-eq : (c d : ℕ) (cs ds : Codes) → ◌≡◌ {A = Codes} (c ∷ cs) (d ∷ ds) → cs ≡ ds
tail-eq c d cs ds e = cc e

prefix_lem :
    (word text : Codes) → (is_prefix word text ≡ true) ↔ ((after : Codes) × (text ≡ word ++ after))
prefix_lem [] text = (λ h. (text, refl), λ h. refl)
prefix_lem (c ∷ cs) [] = (λ h. cc, λ (after, e). cc)
prefix_lem (c ∷ cs) (d ∷ ds) =
    let ih = prefix_lem cs ds in
    (
      λ h.
          let same = one_code c d (ground (arith, h)) in
          let (after, e) = ih.0 (ground (arith, h)) in (after, cc (same, e)),
      λ (after, e).
          let same : c ≡ d = cc e in
          let rest = ih.1 (after, tail-eq d c ds (cs ++ after) e) in
          rw (same, codes_eq_refl (d ∷ [])) rest,
    )

occurs_lem : (word text : Codes) → (occurs word text ≡ true) ↔ Has text word
occurs_lem word [] = (
  λ h. let (after, e) = (prefix_lem word []).0 h in ([], after, e),
  λ (before, after, e). empty_lem before after e,
)
  where
    empty_lem : (before after : Codes) → [] ≡ before ++ (word ++ after) → is_prefix word [] ≡ true
    empty_lem [] after e = (prefix_lem word []).1 (after, e)
    empty_lem (c ∷ cs) after e = cc e
occurs_lem word (d ∷ ds) =
    let ih = occurs_lem word ds in
    let start = prefix_lem word (d ∷ ds) in
    (
      λ h. elim (Bool-cases (is_prefix word (d ∷ ds))) [
        | inl p ↦ let (after, e) = start.0 p in ([], after, e)
        | inr n ↦
            let (before, after, e) = ih.0 (sym (ap (λ b. b || occurs word ds) n) ∙ h) in
            (d ∷ before, after, ap (λ xs. d ∷ xs) e)
      ],
      λ (before, after, e). back before after e start.1 ih.1,
    )
  where
    back :
        (before after : Codes)
        → d ∷ ds ≡ before ++ (word ++ after)
        → ((after : Codes) × (d ∷ ds ≡ word ++ after) → is_prefix word (d ∷ ds) ≡ true)
        → (Has ds word → occurs word ds ≡ true)
        → (is_prefix word (d ∷ ds) || occurs word ds) ≡ true
    back [] after e p o = ap (λ b. b || occurs word ds) (p (after, e))
    back (c ∷ cs) after e p o =
        let found = o (cs, after, tail-eq d c ds (cs ++ (word ++ after)) e) in
        or_true (is_prefix word (d ∷ ds)) (occurs word ds) found
      where
        or_true : (a b : Bool) → b ≡ true → (a || b) ≡ true
        or_true true b h = refl
        or_true false b h = h

-- No word of a list is in a text.
abbrev pub HasNone : Codes → List String → Type 0
HasNone text words = All (λ word. ¬ Has text (codes word)) words

mentions_lem :
    (words : List String) (text : Codes) → (mentions words text ≡ false) ↔ HasNone text words
mentions_lem [] text = (λ h. tt, λ h. refl)
mentions_lem (word ∷ words) text =
    let ih = mentions_lem words text in
    let first = occurs_lem (codes word) text in
    elim (Bool-cases (occurs (codes word) text)) [
      | inl e ↦ (
        λ h. absurd (cc (sym (ap (λ b. b || mentions words text) e) ∙ h)),
        λ h. absurd (h.0 (first.0 e)),
      )
      | inr n ↦ (
        λ h. (λ x. cc (first.1 x, n), ih.0 (sym (ap (λ b. b || mentions words text) n) ∙ h)),
        λ h. ap (λ b. b || mentions words text) n ∙ ih.1 h.1,
      )
    ]

pub first_category_lem :
    (table : List (String × List String)) (text : Codes)
    → (first_category table text ≡ none) ↔ All (λ entry. HasNone text entry.1) table
unfolding first_category
first_category_lem [] text = (λ h. tt, λ h. refl)
first_category_lem ((category, words) ∷ rest) text =
    let ih = first_category_lem rest text in
    let first = mentions_lem words text in
    let read : Bool → Option String = λ b. if b then some category else first_category rest text in
    elim (Bool-cases (mentions words text)) [
      | inl e ↦ (λ h. cc (sym (ap read e) ∙ h), λ h. cc (first.1 h.0, e))
      | inr n ↦ (λ h. (first.0 n, ih.0 (sym (ap read n) ∙ h)), λ h. ap read n ∙ ih.1 h.1)
    ]

get_lem :
    (code : String) (table : List (String × String))
    → (get code table ≡ none) ↔ All (λ entry. some code ≢ some entry.0) table
unfolding get
get_lem code [] = (λ h. tt, λ h. refl)
get_lem code ((name, value) ∷ rest) =
    let ih = get_lem code rest in
    let read : Bool → Option String = λ b. if b then some value else get code rest in
    elim (Bool-cases (name =s code)) [
      | inl e ↦
          let same = (eq_iff name code).0 e in
          (λ h. cc (sym (ap read e) ∙ h), λ h. absurd (h.0 (ap (λ x. some x) (sym same))))
      | inr n ↦ (
        λ h. (λ e. cc ((eq_iff name code).1 (cc e), n), ih.0 (sym (ap read n) ∙ h)),
        λ h. ap read n ∙ ih.1 h.1,
      )
    ]

abbrev NoName : String × String → Type 0
NoName entry = ◌≢◌ {A = Option String} none (some entry.0)

pub mapped_lem :
    (code : Option String)
    → (mapped code ≡ none) ↔ All (λ entry. code ≢ some entry.0) failure_code_map
unfolding mapped
mapped_lem none = (λ h. All-every NoName failure_code_map (λ entry e. cc e), λ h. refl)
mapped_lem (some code) = get_lem code failure_code_map

pub is_text_lem : (s : String) (code : Option String) → (is_text s code ≡ false) ↔ (code ≢ some s)
is_text_lem s none = (λ h e. cc e, λ h. refl)
is_text_lem s (some code) = elim (Bool-cases (code =s s)) [
  | inl e ↦ (λ h. cc (e, h), λ h. absurd (h (ap (λ x. some x) ((eq_iff code s).0 e))))
  | inr n ↦ (λ h e. cc ((eq_iff code s).1 (cc e), n), λ h. n)
]
