-- ===== src/Sessions/Context.antt =====
-- harness2/sessions.py, SessionContextBuilder: the history that a provider receives.
use ultimate_harness.Base.{
  ℕ, ◌+◌, ◌-◌, String, Bool, true, false, not, ◌&&◌, ◌||◌, ◌=s◌, leb, ltb, any, select, length, map,
  reverse, Option, none, some, List, [], ◌∷◌, if◌then◌else◌,
}
use ultimate_harness.Base.Int.{pos}
use ultimate_harness.Text.Codes.{Codes, codes, join, utf8_size}
use ultimate_harness.Text.Value.{num, text, end, field, dumps_object}
pub mod Budget

-- TurnRecord: what the builder reads of it.
pub record TurnRecord : Type 0 where
  pub seq : ℕ
  pub role : String
  pub status : String
  pub content : Codes
  pub sensitive : Bool
  pub untrusted : Bool

pub record SessionContext : Type 0 where
  pub body : Codes
  pub included_seq : List ℕ
  pub effective_sensitive : Bool
  pub effective_untrusted : Bool
  pub truncated : Bool

pub record SessionContextBuilder : Type 0 where
  pub turn_limit : ℕ
  pub byte_limit : ℕ

-- SessionContextBuilder.__init__, which refuses limits that are too small.
abbrev pub context_builder : ℕ → ℕ → Option SessionContextBuilder
context_builder turn_limit byte_limit =
    if ltb turn_limit 1 || ltb byte_limit 256
    then none
    else some (record { turn_limit = turn_limit; byte_limit = byte_limit })

-- _eligible
abbrev pub is_eligible_turn : TurnRecord → Bool
is_eligible_turn turn =
    (turn.role =s "user" || turn.role =s "assistant" || turn.role =s "summary")
    && turn.status =s "completed"

-- _line
unfoldable pub line : TurnRecord → Codes
unfolding dumps_object codes
line turn = dumps_object (
    field (codes "role") (text (codes turn.role))
      (field (codes "seq") (num (pos turn.seq)) (field (codes "content") (text turn.content) end)))

-- The bytes of a line with its line feed.
abbrev pub cost : TurnRecord → ℕ
cost turn = utf8_size (line turn) + 1

-- The variables of the loop of build: the turns that were selected, the newest
-- first, and whether a turn was left out.
pub record Selection : Type 0 where
  pub selected : List TurnRecord
  pub truncated : Bool

abbrev pub mark_truncated : Selection → Selection
mark_truncated s = record s { truncated = true }

abbrev pub put_turn : TurnRecord → Selection → Selection
put_turn turn s = record s { selected = turn ∷ s.selected }

-- The loop over the eligible turns, the newest first: `slots` is how many more the turn limit
-- admits and `budget` is in bytes. The result has the newest turn first.
unfoldable pub select_turns : (slots budget : ℕ) → List TurnRecord → Selection
select_turns slots budget [] = record { selected = []; truncated = false }
select_turns slots budget (turn ∷ turns) =
    let skip = select_turns slots budget turns in
    let keep = select_turns (slots - 1) (budget - cost turn) turns in
    if ltb slots 1
    then record { selected = []; truncated = true }
    else if ltb budget (cost turn)
    then mark_truncated skip
    else put_turn turn keep

-- SessionContextBuilder.build
unfoldable pub build :
    SessionContextBuilder
    → List TurnRecord
    → (current_sensitive current_untrusted : Bool) → SessionContext
unfolding select_turns join
build builder turns current_sensitive current_untrusted =
    let eligible = select is_eligible_turn turns in
    let chosen = select_turns builder.turn_limit builder.byte_limit (reverse eligible) in
    let selected = reverse chosen.selected in
    record {
      body = join (10 ∷ []) (map line selected);
      included_seq = map (λ turn. turn.seq) selected;
      effective_sensitive = current_sensitive || any (λ turn. turn.sensitive) selected;
      effective_untrusted = current_untrusted || any (λ turn. turn.untrusted) selected;
      truncated = chosen.truncated;
    }
