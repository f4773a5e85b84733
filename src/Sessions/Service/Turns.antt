-- ===== src/Sessions/Service/Turns.antt =====
-- harness2/sessions.py: the turns of the table, their two appends and their two marks.
use ultimate_harness.Base.{
  ℕ, ◌+◌, String, Bool, false, ◌&&◌, ◌=s◌, Option, none, some, List, [], ◌∷◌, ◌++◌, if◌then◌else◌,
}
use ultimate_harness.Base.Table.{find, update}
use ultimate_harness.Base.Result.{ok, err}
use ultimate_harness.Base.Io.{pure, ◌>>=◌, ◌>>◌}
use ultimate_harness.Text.Codes.{Codes, codes}
use ultimate_harness.Text.Value.{show}
use ultimate_harness.Orchestrator.Route.{or_empty}
use ultimate_harness.Sessions.Context.{TurnRecord}
use ultimate_harness.Sessions.Service.{
  SessionRow, TurnRow, missing_reference, SessionIo, SessionService, row_of, is_unfinished,
  is_user_turn, update_turns, last_row, time_now, tick, session_audit, require_open, open_turn,
  turn,
}

-- What append_assistant_turn is given of a result.
pub record AssistantResult : Type 0 where
  pub text : Codes
  pub engine : Option String
  pub provider : Option String
  pub model : Option String
  pub provider_session_id : Option String
  pub run_id : Option String
  pub sensitive : Bool
  pub untrusted : Bool
  pub success : Bool
  pub error_code : Option String
  pub duration_ms : Option ℕ

module _ (service : SessionService) where
  -- UPDATE sessions SET updated_at=? WHERE id=?
  abbrev pub touch : String → ℕ → List SessionRow → List SessionRow
  touch session_id now = update (λ r. r.id) session_id (λ r. record r { updated_at = now })

  -- f"{session_id}:{seq}"
  abbrev pub turn_subject : String → ℕ → Codes
  turn_subject session_id seq = codes session_id ++ b':' ∷ show seq

  abbrev pub flag_text : Bool → Codes
  flag_text b = if b then codes "1" else codes "0"

  abbrev pub user_row : String → Codes → (sensitive untrusted : Bool) → (seq now : ℕ) → TurnRow
  user_row session_id envelope sensitive untrusted seq now = record {
    seq = seq;
    session_id = session_id;
    role = "user";
    content_envelope = envelope;
    status = "pending";
    engine = none;
    provider = none;
    model = none;
    provider_session_id = none;
    run_id = none;
    sensitive = sensitive;
    untrusted = untrusted;
    error_code = none;
    duration_ms = none;
    created_at = now;
  }

  -- The reference of a turn to its session is a foreign key.
  abbrev pub inserted :
      (ℕ → ℕ → TurnRow)
      → (TurnRow → TurnRow)
      → (TurnRow → Bool)
      → String
      → Option SessionRow
      → SessionIo ℕ
  inserted make change p session_id none s = (err missing_reference, tick service s)
  inserted make change p session_id (some row) s = (
    ok (s.last_seq + 1),
    tick service (record s {
      sessions = touch session_id (time_now service s) s.sessions;
      turns = update_turns p change s.turns ++ make (s.last_seq + 1) (time_now service s) ∷ [];
      last_seq = s.last_seq + 1;
    }),
  )

  -- UPDATE session_turns, INSERT INTO session_turns and UPDATE sessions, in one transaction
  unfoldable pub insert_turn :
      (ℕ → ℕ → TurnRow) → (TurnRow → TurnRow) → (TurnRow → Bool) → String → SessionIo ℕ
  unfolding find update update_turns
  insert_turn make change p session_id s = inserted make change p session_id (row_of session_id s) s

  abbrev pub user_metadata : (sensitive untrusted : Bool) → List (Codes × Codes)
  user_metadata sensitive untrusted =
      (codes "role", codes "user")
      ∷ (codes "sensitive", flag_text sensitive)
      ∷ (codes "untrusted", flag_text untrusted)
      ∷ []

  -- append_user_turn
  unfoldable pub append_user_turn :
      String → (text : Codes) → (sensitive untrusted : Bool) → SessionIo TurnRecord
  unfolding require_open insert_turn session_audit turn
  append_user_turn session_id text sensitive untrusted =
      require_open service session_id >>= λ row s.
      (insert_turn (user_row session_id (service.seal s.harness.ticks text) sensitive untrusted)
            (λ r. r) (λ r. false) session_id
          >>= λ seq.
              session_audit service "session.turn.pending" (turn_subject session_id seq)
                (user_metadata sensitive untrusted)
              >> turn service session_id seq)
        s

  abbrev pub is_unfinished_of : String → TurnRow → Bool
  is_unfinished_of session_id row =
      row.session_id =s session_id && (row.role =s "user" && is_unfinished row.status)

  abbrev pub opened_optional : Option TurnRow → SessionIo (Option TurnRecord)
  opened_optional none = pure none
  opened_optional (some row) = open_turn service row >>= λ t. pure (some t)

  -- trailing_unfinished_user_turn
  unfoldable pub trailing_unfinished_user_turn : String → SessionIo (Option TurnRecord)
  unfolding last_row
  trailing_unfinished_user_turn session_id s =
      opened_optional (last_row (is_unfinished_of session_id) s.turns) s

  -- mark_processing
  unfoldable pub mark_processing : String → (seq : ℕ) → SessionIo (Unit {0})
  unfolding update_turns
  mark_processing session_id seq s = (
    ok tt,
    record s {
      turns =
          update_turns (is_user_turn session_id seq) (λ r. record r { status = "processing" })
            s.turns;
    },
  )

  -- mark_interrupted
  unfoldable pub mark_interrupted :
      String → (seq : ℕ) → (error_code : String) → SessionIo (Unit {0})
  unfolding update_turns
  mark_interrupted session_id seq error_code s = (
    ok tt,
    record s {
      turns =
          update_turns (is_user_turn session_id seq)
            (λ r. record r { status = "interrupted"; error_code = some error_code }) s.turns;
    },
  )

  abbrev pub assistant_status : AssistantResult → String
  assistant_status result = if result.success then "completed" else "failed"

  abbrev pub assistant_row : String → Codes → AssistantResult → (seq now : ℕ) → TurnRow
  assistant_row session_id envelope result seq now = record {
    seq = seq;
    session_id = session_id;
    role = "assistant";
    content_envelope = envelope;
    status = assistant_status result;
    engine = result.engine;
    provider = result.provider;
    model = result.model;
    provider_session_id = result.provider_session_id;
    run_id = result.run_id;
    sensitive = result.sensitive;
    untrusted = result.untrusted;
    error_code = result.error_code;
    duration_ms = result.duration_ms;
    created_at = now;
  }

  abbrev pub assistant_metadata : AssistantResult → ℕ → List (Codes × Codes)
  assistant_metadata result seq =
      (codes "assistant_seq", show seq)
      ∷ (codes "engine", codes (or_empty result.engine))
      ∷ (codes "provider", codes (or_empty result.provider))
      ∷ (codes "model", codes (or_empty result.model))
      ∷ (codes "status", codes (assistant_status result))
      ∷ (codes "error_code", codes (or_empty result.error_code))
      ∷ []

  -- append_assistant_turn
  unfoldable pub append_assistant_turn :
      String → (user_seq : ℕ) → AssistantResult → SessionIo TurnRecord
  unfolding insert_turn session_audit turn
  append_assistant_turn session_id user_seq result s =
      (insert_turn (assistant_row session_id (service.seal s.harness.ticks result.text) result)
            (λ r. record r { status = "completed" }) (is_user_turn session_id user_seq) session_id
          >>= λ seq.
              session_audit service "session.turn.completed" (turn_subject session_id user_seq)
                (assistant_metadata result seq)
              >> turn service session_id seq)
        s
