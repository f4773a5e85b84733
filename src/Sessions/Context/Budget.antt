-- ===== src/Sessions/Context/Budget.antt =====
-- The limits of the history: turns, bytes, and the classification of a session's request.
use ultimate_harness.Base.{
  ℕ, suc, ◌+◌, ◌-◌, ◌≤◌, ◌≡◌, refl, ap, ◌∙◌, Bool, true, false, ltb, select, length, length-append,
  map, reverse, List, [], ◌∷◌, ◌++◌, arith, if◌then◌else◌,
}
use mathlib.Core.List.{reverse-cons, reverse-reverse}
use ultimate_harness.Text.Codes.{Codes, join, utf8_size}
use ultimate_harness.Sessions.Context.{
  TurnRecord, SessionContextBuilder, is_eligible_turn, line, cost, select_turns, mark_truncated,
  put_turn, build,
}

-- The bytes of some turns, each with its line feed.
abbrev pub total_cost : List TurnRecord → ℕ
total_cost [] = 0
total_cost (turn ∷ turns) = cost turn + total_cost turns

-- A selection stays within the turns and the bytes that it may take.
select_turns-limits :
    (slots budget : ℕ) (turns : List TurnRecord)
    → (length (select_turns slots budget turns).selected ≤ slots)
      × (total_cost (select_turns slots budget turns).selected ≤ budget)
unfolding select_turns
select_turns-limits slots budget [] = (omega arith, omega arith)
select_turns-limits slots budget (turn ∷ turns) =
    let (a, b) = select_turns-limits slots budget turns in
    let (c, d) = select_turns-limits (slots - 1) (budget - cost turn) turns in
    go (utf8_size (line turn)) (ltb slots 1) refl (ltb budget (cost turn)) refl a b c d
  where
    go :
        (bytes : ℕ) (full : Bool)
        → ltb slots 1 ≡ full
        → (large : Bool) → ltb budget (cost turn) ≡ large
        → length (select_turns slots budget turns).selected ≤ slots
        → total_cost (select_turns slots budget turns).selected ≤ budget
        → length (select_turns (slots - 1) (budget - cost turn) turns).selected ≤ slots - 1
        → total_cost (select_turns (slots - 1) (budget - cost turn) turns).selected
          ≤ budget - cost turn
        → let s =
            if full
            then record { selected = []; truncated = true }
            else if large
            then mark_truncated (select_turns slots budget turns)
            else put_turn turn (select_turns (slots - 1) (budget - cost turn) turns) in
          (length s.selected ≤ slots) × (total_cost s.selected ≤ budget)
    go bytes true e large f a b c d = (omega arith, omega arith)
    go bytes false e true f a b c d = (a, b)
    go bytes false e false f a b c d = (ground (arith, c, e), ground (arith, d, f))

-- A selection that is not truncated has every turn.
complete_unless_truncated :
    (slots budget : ℕ) (turns : List TurnRecord)
    → (select_turns slots budget turns).truncated ≡ false
    → (select_turns slots budget turns).selected ≡ turns
unfolding select_turns
complete_unless_truncated slots budget [] h = refl
complete_unless_truncated slots budget (turn ∷ turns) h =
    ground (arith, complete_unless_truncated (slots - 1) (budget - cost turn) turns)

length-reverse : {A : Type 0} (xs : List A) → length (reverse xs) ≡ length xs
length-reverse [] = refl
length-reverse (x ∷ xs) =
    ap length (reverse-cons x xs)
    ∙ length-append (reverse xs) (x ∷ [])
    ∙ omega (arith, length-reverse xs)

length-map : {A B : Type 0} (f : A → B) (xs : List A) → length (map f xs) ≡ length xs
length-map f [] = refl
length-map f (x ∷ xs) = ap (λ n. suc n) (length-map f xs)

total_cost-append :
    (xs ys : List TurnRecord) → total_cost (xs ++ ys) ≡ total_cost xs + total_cost ys
total_cost-append [] ys = omega arith
total_cost-append (x ∷ xs) ys = omega (arith, total_cost-append xs ys)

total_cost-reverse : (xs : List TurnRecord) → total_cost (reverse xs) ≡ total_cost xs
total_cost-reverse [] = refl
total_cost-reverse (x ∷ xs) =
    ap total_cost (reverse-cons x xs)
    ∙ total_cost-append (reverse xs) (x ∷ [])
    ∙ omega (arith, total_cost-reverse xs)

utf8_size-append : (s t : Codes) → utf8_size (s ++ t) ≡ utf8_size s + utf8_size t
unfolding utf8_size
utf8_size-append [] t = omega arith
utf8_size-append (c ∷ cs) t = omega (arith, utf8_size-append cs t)

-- The lines joined by line feeds take no more than the lines with a line feed each.
join-size :
    (turns : List TurnRecord) → utf8_size (join (10 ∷ []) (map line turns)) ≤ total_cost turns
unfolding join utf8_size
join-size [] = omega arith
join-size (turn ∷ []) = omega arith
join-size (turn ∷ next ∷ rest) = omega (
  arith,
  utf8_size-append (line turn) (10 ∷ join (10 ∷ []) (map line (next ∷ rest))),
  join-size (next ∷ rest),
)

-- The history of a session has at most as many turns as the turn limit, and its text with the
-- encoding in UTF-8 has at most as many bytes as the byte limit.
pub build-limits :
    (builder : SessionContextBuilder) (turns : List TurnRecord) (sensitive untrusted : Bool)
    → let context = build builder turns sensitive untrusted in
      (length context.included_seq ≤ builder.turn_limit)
      × (utf8_size context.body ≤ builder.byte_limit)
unfolding build
build-limits builder turns sensitive untrusted =
    let newest = reverse (select is_eligible_turn turns) in
    let chosen = (select_turns builder.turn_limit builder.byte_limit newest).selected in
    let (few, small) = select_turns-limits builder.turn_limit builder.byte_limit newest in
    (
      omega (
        arith,
        few,
        length-map (λ (t : TurnRecord). t.seq) (reverse chosen),
        length-reverse chosen,
      ),
      omega (arith, small, join-size (reverse chosen), total_cost-reverse chosen),
    )

-- A history that is not marked as truncated has every eligible turn of the session, in order.
pub build_complete :
    (builder : SessionContextBuilder) (turns : List TurnRecord) (sensitive untrusted : Bool)
    → (build builder turns sensitive untrusted).truncated ≡ false
    → (build builder turns sensitive untrusted).included_seq
      ≡ map (λ (t : TurnRecord). t.seq) (select is_eligible_turn turns)
unfolding build
build_complete builder turns sensitive untrusted h =
    let eligible = select is_eligible_turn turns in
    ap (λ xs. map (λ (t : TurnRecord). t.seq) (reverse xs))
      (complete_unless_truncated builder.turn_limit builder.byte_limit (reverse eligible) h)
    ∙ ap (map (λ (t : TurnRecord). t.seq)) (reverse-reverse eligible)
