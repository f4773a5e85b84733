-- ===== src/Router/Scores.antt =====
-- harness2/router.py, score_candidate and rank_fallbacks. A score is counted in half points.
use ultimate_harness.Base.{
  ℕ, String, ◌≡◌, Bool, true, false, ◌=s◌, Option, none, some, List, [], ◌∷◌, map, mem_text, arith,
  if◌then◌else◌,
}
use ultimate_harness.Base.Int.{ℤ, pos, negsuc, ◌+ℤ◌, ltb_ℤ}

-- What score_candidate reads of an engine, besides the preference of the user.
pub record Standing : Type 0 where
  pub circuit_allowed : Option Bool
  pub cost_class : Option String
  pub capability_fit : Option String

-- `circuit_allowed is False`
abbrev pub is_blocked_circuit : Option Bool → Bool
is_blocked_circuit (some false) = true
is_blocked_circuit _ = false

abbrev pub circuit_points : Bool → ℤ
circuit_points true = negsuc 39
circuit_points false = pos 0

abbrev pub is_class : String → Option String → Bool
is_class name none = false
is_class name (some cost_class) = cost_class =s name

abbrev pub cost_points : (free subscription : Bool) → ℤ
cost_points true subscription = pos 4
cost_points false true = pos 1
cost_points false false = pos 0

-- The truth value of a text that may be absent.
abbrev pub is_given : Option String → Bool
is_given none = false
is_given (some s) = if s =s "" then false else true

abbrev pub points_if : Bool → ℕ → ℤ
points_if true n = pos n
points_if false n = pos 0

abbrev pub sum_points : (blocked free subscription fits preferred : Bool) → ℤ
sum_points blocked free subscription fits preferred =
    (((pos 20 +ℤ circuit_points blocked) +ℤ cost_points free subscription) +ℤ points_if fits 3)
    +ℤ points_if preferred 2

-- score_candidate
unfoldable pub score_candidate : (engine : String) → Standing → (user_preference : List String) → ℤ
score_candidate engine standing user_preference =
    sum_points (is_blocked_circuit standing.circuit_allowed) (is_class "free" standing.cost_class)
      (is_class "subscription" standing.cost_class) (is_given standing.capability_fit)
      (mem_text engine user_preference)

-- The rank of a name: its score; the index is its place, which a stable sort keeps.
abbrev pub Ranked : Type 0
Ranked = ℤ × String

-- Inserts behind the entries whose score is not smaller.
unfoldable pub insert_ranked : Ranked → List Ranked → List Ranked
insert_ranked x [] = x ∷ []
insert_ranked x (y ∷ ys) =
    let rest = insert_ranked x ys in if ltb_ℤ y.0 x.0 then x ∷ y ∷ ys else y ∷ rest

-- ranked.sort(key=lambda item: (-item[0], item[1])), from the first entry on.
unfoldable pub sort_ranked : List Ranked → List Ranked → List Ranked
unfolding insert_ranked
sort_ranked sorted [] = sorted
sort_ranked sorted (x ∷ xs) = sort_ranked (insert_ranked x sorted) xs

-- rank_fallbacks; `standings` is what the dicts and the statuses say of an engine.
unfoldable pub rank_fallbacks :
    List String → (String → Standing) → (user_preference : List String) → List String
unfolding score_candidate sort_ranked
rank_fallbacks candidates standings user_preference =
    map (λ item. item.1)
      (sort_ranked []
        (map (λ name. (score_candidate name (standings name) user_preference, name)) candidates))

blocked_negative : (f s c p : Bool) → ltb_ℤ (sum_points true f s c p) (pos 0) ≡ true
unfolding ◌+ℤ◌
blocked_negative f s c p = ground arith

allowed_positive : (f s c p : Bool) → ltb_ℤ (sum_points false f s c p) (pos 20) ≡ false
unfolding ◌+ℤ◌
allowed_positive f s c p = ground arith

below : (a b : ℤ) → ltb_ℤ a (pos 0) ≡ true → ltb_ℤ b (pos 20) ≡ false → ltb_ℤ a b ≡ true
below a b h k = ground arith

blocked_points :
    (f s c p f' s' c' p' : Bool)
    → ltb_ℤ (sum_points true f s c p) (sum_points false f' s' c' p') ≡ true
blocked_points f s c p f' s' c' p' =
    below (sum_points true f s c p) (sum_points false f' s' c' p') (blocked_negative f s c p)
      (allowed_positive f' s' c' p')

-- An engine whose circuit refuses calls scores below every engine whose circuit does not, whatever
-- their cost, their fit and the preference of the user.
pub blocked_scores_below :
    (engine other : String) (standing better : Standing) (user_preference : List String)
    → is_blocked_circuit standing.circuit_allowed ≡ true
    → is_blocked_circuit better.circuit_allowed ≡ false
    → ltb_ℤ
        (score_candidate engine standing user_preference)
        (score_candidate other better user_preference)
      ≡ true
unfolding score_candidate
blocked_scores_below engine other standing better user_preference b n =
    rw (b, n)
      (blocked_points (is_class "free" standing.cost_class)
        (is_class "subscription" standing.cost_class) (is_given standing.capability_fit)
        (mem_text engine user_preference) (is_class "free" better.cost_class)
        (is_class "subscription" better.cost_class) (is_given better.capability_fit)
        (mem_text other user_preference))
