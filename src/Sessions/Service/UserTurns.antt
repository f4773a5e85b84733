-- ===== src/Sessions/Service/UserTurns.antt =====
-- The user turns of the table of turns, as harness2/sessions.py writes and reads them.
use ultimate_harness.Base.{
  ℕ, ◌≡◌, refl, sym, ◌∙◌, Bool, true, false, ◌=s◌, select, map, List, [], ◌∷◌, ◌++◌, arith,
  if◌then◌else◌,
}
use ultimate_harness.Text.Codes.{Codes}
use ultimate_harness.Sessions.Service.{TurnRow, update_turns}

-- What the table has of a user turn: its number, its envelope and its two marks.
abbrev pub UserTurn : Type 0
UserTurn = ℕ × Codes × Bool × Bool

abbrev pub user_turn : TurnRow → UserTurn
user_turn row = (row.seq, row.content_envelope, row.sensitive, row.untrusted)

-- The user turns, in the order of the table.
unfoldable pub user_turns : List TurnRow → List UserTurn
user_turns rows = map user_turn (select (λ r. r.role =s "user") rows)

pub user_turns-append :
    (xs ys : List TurnRow) → user_turns (xs ++ ys) ≡ user_turns xs ++ user_turns ys
unfolding user_turns
user_turns-append [] ys = refl
user_turns-append (x ∷ xs) ys = ground (arith, user_turns-append xs ys)

user_turns-cons :
    (row : TurnRow) (rows : List TurnRow)
    → user_turns (row ∷ rows)
      ≡ (if row.role =s "user" then user_turn row ∷ user_turns rows else user_turns rows)
unfolding user_turns
user_turns-cons row rows = ground arith

user_turns-same :
    (r q : TurnRow) (rs qs : List TurnRow)
    → r.role ≡ q.role
    → user_turn r ≡ user_turn q
    → user_turns rs ≡ user_turns qs
    → user_turns (r ∷ rs) ≡ user_turns (q ∷ qs)
user_turns-same r q rs qs a b c =
    user_turns-cons r rs ∙ (rw (a, b, c) refl) ∙ sym (user_turns-cons q qs)

-- An update that keeps the role and what is read of a user turn.
pub user_turns-update :
    (p : TurnRow → Bool) (f : TurnRow → TurnRow) (rows : List TurnRow)
    → ((r : TurnRow) → (f r).role ≡ r.role)
    → ((r : TurnRow) → user_turn (f r) ≡ user_turn r)
    → user_turns (update_turns p f rows) ≡ user_turns rows
unfolding update_turns
user_turns-update p f [] keeps same = refl
user_turns-update p f (row ∷ rows) keeps same =
    user_turns-same (if p row then f row else row) row (update_turns p f rows) rows (role (p row))
      (entry (p row)) (user_turns-update p f rows keeps same)
  where
    role : (b : Bool) → (if b then f row else row).role ≡ row.role
    role true = keeps row
    role false = refl

    entry : (b : Bool) → user_turn (if b then f row else row) ≡ user_turn row
    entry true = same row
    entry false = refl
