-- ===== src/Router/Eligible.antt =====
-- assemble_candidates against an independent description: the eligible names, each once, in order.
use ultimate_harness.Base.{
  String, ◌≡◌, refl, sym, ap, ◌∙◌, Bool, true, false, not, Option, none, some, List, [], ◌∷◌, ◌++◌,
  mem_text, if◌then◌else◌, is_some, ◌&&◌, ◌||◌, ◌=s◌, select, map, arith,
}
use ultimate_harness.Router.{
  EngineStatus, Statuses, Considered, skip_reason, add_engine, consider, consider_all,
  assemble_candidates,
}

-- The names of a list that are not in `seen`, each at its first place.
abbrev pub firsts : List String → List String → List String
firsts seen [] = []
firsts seen (name ∷ names) =
    let known = firsts seen names in
    let more = firsts (name ∷ seen) names in if mem_text name seen then known else name ∷ more

-- The capability that is asked, when one is.
abbrev pub offers : Option String → List String → Bool
offers none capabilities = true
offers (some capability) capabilities = capability =s "" || mem_text capability capabilities

-- An engine that is known, enabled, available and healthy, and has the capability when one is asked.
unfoldable pub is_eligible : Statuses → Option String → String → Bool
is_eligible statuses capability name = elim (statuses name) [
  | none ↦ false
  | some status ↦
      status.enabled && status.available && status.healthy && offers capability status.capabilities
]

abbrev is_kept : Statuses → Option String → String → Bool
is_kept statuses capability name = not (is_some (skip_reason capability (statuses name)))

abbrev select_kept : Statuses → Option String → List String → List String
select_kept statuses capability [] = []
select_kept statuses capability (name ∷ names) =
    let rest = select_kept statuses capability names in
    if is_kept statuses capability name then name ∷ rest else rest

is_kept-is_eligible :
    (statuses : Statuses) (capability : Option String) (name : String)
    → is_kept statuses capability name ≡ is_eligible statuses capability name
unfolding is_eligible
is_kept-is_eligible statuses none name = go (statuses name)
  where
    go :
        (o : Option EngineStatus)
        → not (is_some (skip_reason none o)) ≡ (elim o [
          | none ↦ false
          | some status ↦ status.enabled && status.available && status.healthy && true
        ])
    go none = refl
    go (some status) = ground arith
is_kept-is_eligible statuses (some capability) name = go (statuses name)
  where
    go :
        (o : Option EngineStatus)
        → not (is_some (skip_reason (some capability) o)) ≡ (elim o [
          | none ↦ false
          | some status ↦
              status.enabled
              && status.available
              && status.healthy
              && (capability =s "" || mem_text capability status.capabilities)
        ])
    go none = refl
    go (some status) = ground arith

-- The names of a list that are eligible, and those that are not, in their order.
abbrev pub eligible_names : Statuses → Option String → List String → List String
eligible_names statuses capability names = select (is_eligible statuses capability) names

abbrev pub ineligible_names : Statuses → Option String → List String → List String
ineligible_names statuses capability names =
    select (λ name. not (is_eligible statuses capability name)) names

select_kept-eligible :
    (statuses : Statuses) (capability : Option String) (names : List String)
    → select_kept statuses capability names ≡ eligible_names statuses capability names
select_kept-eligible statuses capability [] = refl
select_kept-eligible statuses capability (name ∷ names) =
    rw
      (is_kept-is_eligible statuses capability name, select_kept-eligible statuses capability names)
      refl

abbrev with_reason : String → Option String → List (String × String) → List (String × String)
with_reason name none rest = rest
with_reason name (some reason) rest = (name, reason) ∷ rest

-- The names that are skipped, each with its reason.
abbrev reject : Statuses → Option String → List String → List (String × String)
reject statuses capability [] = []
reject statuses capability (name ∷ names) =
    with_reason name (skip_reason capability (statuses name)) (reject statuses capability names)

reject-ineligible :
    (statuses : Statuses) (capability : Option String) (names : List String)
    → map (λ (s : String × String). s.0) (reject statuses capability names)
      ≡ ineligible_names statuses capability names
reject-ineligible statuses capability [] = refl
reject-ineligible statuses capability (name ∷ names) =
    go (skip_reason capability (statuses name)) refl (reject-ineligible statuses capability names)
  where
    names_of : List (String × String) → List String
    names_of = map (λ (s : String × String). s.0)

    go :
        (o : Option String)
        → skip_reason capability (statuses name) ≡ o
        → names_of (reject statuses capability names) ≡ ineligible_names statuses capability names
        → names_of (
            with_reason name
              (skip_reason capability (statuses name))
              (reject statuses capability names))
          ≡ ineligible_names statuses capability (name ∷ names)
    go none e ih =
        rw (e, sym (is_kept-is_eligible statuses capability name) ∙ ap (λ o. not (is_some o)) e, ih)
          refl
    go (some reason) e ih =
        rw (e, sym (is_kept-is_eligible statuses capability name) ∙ ap (λ o. not (is_some o)) e, ih)
          refl

append_assoc : {A : Type 0} (xs ys zs : List A) → (xs ++ ys) ++ zs ≡ xs ++ (ys ++ zs)
append_assoc [] ys zs = refl
append_assoc (x ∷ xs) ys zs = ap (λ zs. x ∷ zs) (append_assoc xs ys zs)

append_nil : {A : Type 0} (xs : List A) → xs ++ [] ≡ xs
append_nil [] = refl
append_nil (x ∷ xs) = ap (λ zs. x ∷ zs) (append_nil xs)

reject-reason :
    (statuses : Statuses) (capability : Option String) (name : String) (o : Option String)
    → skip_reason capability (statuses name) ≡ o
    → (names : List String)
    → reject statuses capability (name ∷ names)
      ≡ with_reason name o (reject statuses capability names)
reject-reason statuses capability name o e names =
    ap (λ x. with_reason name x (reject statuses capability names)) e

-- What the loop over `names` appends, when it has `left` of them to decide.
abbrev Splits :
    Statuses → Option String → (names left : List String) → (st st' : Considered) → Type 0
Splits statuses capability names left st st' =
    let r = (consider_all statuses capability names st').route in
    (r.candidates ≡ st.route.candidates ++ select_kept statuses capability left)
    × (r.skipped ≡ st.route.skipped ++ reject statuses capability left)

consider-Splits :
    (statuses : Statuses) (capability : Option String) (name : String) (names : List String)
    (st : Considered) (b : Bool) (o : Option String)
    → skip_reason capability (statuses name) ≡ o
    → ((x : Considered) → Splits statuses capability names (firsts x.seen names) x x)
    → Splits statuses capability names
        (if b then firsts st.seen names else name ∷ firsts (name ∷ st.seen) names)
        st
        (if b then st else record { seen = name ∷ st.seen; route = add_engine name o st.route })
consider-Splits statuses capability name names st true o e rest = rest st
consider-Splits statuses capability name names st false none e rest =
    let (a, b) = rest (record { seen = name ∷ st.seen; route = add_engine name none st.route }) in
    (
      rw e (a ∙ append_assoc st.route.candidates (name ∷ []) _),
      b ∙ ap (λ zs. st.route.skipped ++ zs) (sym (reject-reason statuses capability name none e _)),
    )
consider-Splits statuses capability name names st false (some reason) e rest =
    let (a, b) =
      rest (record { seen = name ∷ st.seen; route = add_engine name (some reason) st.route }) in
    (
      rw e a,
      b
          ∙ append_assoc st.route.skipped ((name, reason) ∷ []) _
          ∙ ap (λ zs. st.route.skipped ++ zs)
              (sym (reject-reason statuses capability name (some reason) e _)),
    )

consider_all-Splits :
    (statuses : Statuses) (capability : Option String) (names : List String) (st : Considered)
    → Splits statuses capability names (firsts st.seen names) st st
unfolding consider_all consider
consider_all-Splits statuses capability [] st =
    (sym (append_nil st.route.candidates), sym (append_nil st.route.skipped))
consider_all-Splits statuses capability (name ∷ names) st =
    consider-Splits statuses capability name names st (mem_text name st.seen)
      (skip_reason capability (statuses name)) refl (consider_all-Splits statuses capability names)

-- The candidates of a route are the engines of the primary and the preference order that are known,
-- enabled, available and healthy and have the capability that is asked, each once and in that order;
-- the others are skipped, each once and in that order.
pub candidates_are_eligible :
    (order : List String) (primary : String) (statuses : Statuses) (capability : Option String)
    → let route = assemble_candidates order primary statuses capability in
      let names = firsts [] (primary ∷ order) in
      (route.candidates ≡ eligible_names statuses capability names)
      × (map (λ (s : String × String). s.0) route.skipped
          ≡ ineligible_names statuses capability names)
unfolding assemble_candidates
candidates_are_eligible order primary statuses capability =
    let names = firsts [] (primary ∷ order) in
    let (kept, skipped) =
      consider_all-Splits statuses capability (primary ∷ order)
        (record { seen = []; route = record { candidates = []; skipped = [] } }) in
    (
      kept ∙ select_kept-eligible statuses capability names,
      ap (map (λ (s : String × String). s.0)) skipped ∙ reject-ineligible statuses capability names,
    )
