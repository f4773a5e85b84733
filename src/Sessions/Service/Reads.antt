-- ===== src/Sessions/Service/Reads.antt =====
-- harness2/sessions.py: the methods that only read.
use ultimate_harness.Base.{ℕ, String, Bool, Option, none, some, List, [], ◌∷◌}
use ultimate_harness.Base.Io.{pure, raise, ◌>>=◌, Keeps, >>=-Keeps, if-Keeps}
use ultimate_harness.Text.Codes.{Codes}
use ultimate_harness.Sessions.Context.{build}
use ultimate_harness.Sessions.Service.{
  SessionRow, TurnRow, SessionState, SessionService, session_closed, row_of, is_opened, is_turn,
  open_row, recent, last_row, require_open, session_row, found, opened_turn, open_turn, found_turn,
  turn, open_turns, turns, build_context,
}

module _ (service : SessionService) where
  -- Actions that only read keep everything.
  pub require_open-Keeps :
      (Q : SessionState → Type 0) (session_id : String) → Keeps Q (require_open service session_id)
  unfolding require_open
  require_open-Keeps Q session_id s q = go (row_of session_id s)
    where
      go : (r : Option SessionRow) → Q (open_row service r s).1
      go none = q
      go (some row) =
          if-Keeps Q (is_opened row) (pure row) (raise session_closed) (λ s q. q) (λ e s q. q) s q

  session_row-Keeps :
      (Q : SessionState → Type 0) (session_id : String) → Keeps Q (session_row service session_id)
  session_row-Keeps Q session_id s q = go (row_of session_id s)
    where
      go : (r : Option SessionRow) → Q (found service r s).1
      go none = q
      go (some row) = q

  pub open_turn-Keeps :
      (Q : SessionState → Type 0) (row : TurnRow) → Keeps Q (open_turn service row)
  open_turn-Keeps Q row s q = go (service.open_envelope row.content_envelope)
    where
      go : (text : Option Codes) → Q (opened_turn service row text s).1
      go none = q
      go (some text) = q

  open_turns-Keeps :
      (Q : SessionState → Type 0) (rows : List TurnRow) → Keeps Q (open_turns service rows)
  unfolding open_turns
  open_turns-Keeps Q [] = λ s q. q
  open_turns-Keeps Q (row ∷ rows) =
      >>=-Keeps Q (open_turn service row) (λ t. open_turns service rows >>= λ ts. pure (t ∷ ts))
        (open_turn-Keeps Q row)
        (λ t.
          >>=-Keeps Q (open_turns service rows) (λ ts. pure (t ∷ ts)) (open_turns-Keeps Q rows)
            (λ ts s q. q))

  pub build_context-Keeps :
      (Q : SessionState → Type 0) (session_id : String) (sensitive untrusted : Bool)
      → Keeps Q (build_context service session_id sensitive untrusted)
  unfolding build_context turns
  build_context-Keeps Q session_id sensitive untrusted =
      >>=-Keeps Q (turns service session_id 100000)
        (λ ts. pure (build service.builder ts sensitive untrusted))
        (>>=-Keeps Q (session_row service session_id)
          (λ row s. open_turns service (recent session_id 100000 s.turns) s)
          (session_row-Keeps Q session_id)
          (λ row s. open_turns-Keeps Q (recent session_id 100000 s.turns) s))
        (λ ts s q. q)

  pub turn-Keeps :
      (Q : SessionState → Type 0) (session_id : String) (seq : ℕ)
      → Keeps Q (turn service session_id seq)
  unfolding turn
  turn-Keeps Q session_id seq s q = go (last_row (is_turn session_id seq) s.turns)
    where
      go : (r : Option TurnRow) → Q (found_turn service r s).1
      go none = q
      go (some row) = open_turn-Keeps Q row s q
