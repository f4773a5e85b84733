-- ===== src/Examples/Conversations.antt =====
-- The theorems on the turns of a session, applied to a session of two turns.
use ultimate_harness.Base.{ℕ, String, ◌≡◌, refl, Bool, true, false, none, some, [], ◌∷◌}
use ultimate_harness.Base.Io.{raise}
use ultimate_harness.Orchestrator.{engine_raised}
use ultimate_harness.Sessions.Context.{SessionContext, build}
use ultimate_harness.Sessions.Service.{
  opened, TurnRow, SessionRow, SessionState, SessionService, last_row, turn_record, turns,
}
use ultimate_harness.Sessions.Service.Conversation.{run_session_turn}
use ultimate_harness.Sessions.Service.Turns.{is_unfinished_of}
use ultimate_harness.Sessions.Service.UserTurns.{user_turns}
use ultimate_harness.Sessions.Service.Retry.{retry_adds_no_user_turn}
use ultimate_harness.Examples.Orchestration.{services, request, start}

abbrev service : SessionService
service = record {
  services = services;
  seal = λ n text. text;
  open_envelope = λ envelope. some envelope;
  dumps_metadata = λ metadata. [];
  builder = record { turn_limit = 20; byte_limit = 16384 };
}

abbrev turn_row : ℕ → (status : String) → Bool → TurnRow
turn_row n status sensitive = record {
  seq = n;
  session_id = "s";
  role = "user";
  content_envelope = 104 ∷ [];
  status = status;
  engine = none;
  provider = none;
  model = none;
  provider_session_id = none;
  run_id = none;
  sensitive = sensitive;
  untrusted = false;
  error_code = none;
  duration_ms = none;
  created_at = 0;
}

abbrev session : SessionRow
session = record {
  id = "s";
  title = [];
  state = opened;
  created_at = 0;
  updated_at = 0;
  metadata_json = [];
}

-- A completed turn that is sensitive, and one that was interrupted.
abbrev state : SessionState
state = record {
  sessions = session ∷ [];
  turns = turn_row 1 "completed" true ∷ turn_row 2 "interrupted" false ∷ [];
  last_seq = 2;
  attachments = [];
  harness = start;
}

last_is_there :
    last_row (is_unfinished_of service "s") state.turns ≡ some (turn_row 2 "interrupted" false)
unfolding last_row
last_is_there = refl

-- The second request is marked, the engine raises.
retry_adds_no_user_turn_example :
    user_turns
      (run_session_turn service
        (λ q. raise engine_raised)
        "s"
        (104 ∷ [])
        (record request { sensitive = true })
        state).1.turns
    ≡ user_turns state.turns
retry_adds_no_user_turn_example =
    retry_adds_no_user_turn service (λ q. raise engine_raised) "s" (104 ∷ [])
      (record request { sensitive = true }) state (turn_row 2 "interrupted" false) last_is_there
      refl

abbrev context : SessionContext
context =
    build service.builder
      (turn_record (turn_row 1 "completed" true) (104 ∷ [])
        ∷ turn_record (turn_row 2 "interrupted" false) (104 ∷ [])
        ∷ [])
      false false
