-- ===== src/Sessions/Service/Conversation.antt =====
-- harness2/sessions.py, run_session_turn.
use ultimate_harness.Base.{ℕ, String, Bool, ◌=s◌, ◌==◌, Option, none, some, if◌then◌else◌}
use ultimate_harness.Base.Result.{Result, ok, err}
use ultimate_harness.Base.Io.{pure, raise, ◌>>=◌, ◌>>◌}
use ultimate_harness.Text.Codes.{Codes, codes_eq}
use ultimate_harness.Policy.Decide.{RunRequest, RoutingDecision}
use ultimate_harness.Orchestrator.{RouteMetadata, EngineResult, RunError, HarnessState, Io}
use ultimate_harness.Sessions.Framing.{assemble_session_prompt}
use ultimate_harness.Sessions.Context.{TurnRecord, SessionContext}
use ultimate_harness.Sessions.Service.{
  SessionError, run_failed, SessionState, SessionIo, SessionService, require_open, build_context,
}
use ultimate_harness.Sessions.Service.Turns.{
  AssistantResult, append_user_turn, trailing_unfinished_user_turn, mark_processing,
  mark_interrupted, append_assistant_turn,
}

-- `x or None` of a text
abbrev pub nonempty : String → Option String
nonempty s = if s =s "" then none else some s

abbrev pub first_text : Option String → Option String → Option String
first_text none b = b
first_text (some a) b = if a =s "" then b else some a

abbrev pub route_text : (RouteMetadata → String) → Option RouteMetadata → Option String
route_text f none = none
route_text f (some route) = nonempty (f route)

-- _final_provider
abbrev pub final_provider : EngineResult → Option String
final_provider result =
    first_text result.metadata.provider (route_text (λ r. r.final_provider) result.metadata.route)

-- _final_model
abbrev pub final_model : EngineResult → RoutingDecision → Option String
final_model result decision = first_text result.metadata.resolved_model (
    first_text (route_text (λ r. r.final_model) result.metadata.route)
      (first_text decision.model none))

-- The dict that run_session_turn returns.
pub record SessionTurn : Type 0 where
  pub context : SessionContext
  pub user_turn : TurnRecord
  pub assistant_turn : TurnRecord
  pub decision : RoutingDecision
  pub run_id : String
  pub success : Bool

module _ (service : SessionService) where
  -- The choice of the user's turn in run_session_turn.
  unfoldable pub reuse_or_append :
      String
      → (prompt : Codes) → (sensitive untrusted : Bool) → Option TurnRecord
      → SessionIo TurnRecord
  unfolding append_user_turn
  reuse_or_append session_id prompt sensitive untrusted none =
      append_user_turn service session_id prompt sensitive untrusted
  reuse_or_append session_id prompt sensitive untrusted (some unfinished) =
      if codes_eq unfinished.content prompt
      then pure unfinished
      else append_user_turn service session_id prompt sensitive untrusted

  -- What run_session_turn is asked, without the prompt.
  abbrev pub turn_request : RunRequest → String → Codes → SessionContext → RunRequest
  turn_request options session_id prompt context = record options {
    prompt = assemble_session_prompt context.body prompt;
    sensitive = context.effective_sensitive;
    untrusted = context.effective_untrusted;
    harness_session_id = some session_id;
  }

  abbrev pub handled :
      String
      → ℕ
      → SessionState
      → Result RunError (RoutingDecision × EngineResult × String) × HarnessState
      → Result SessionError (RoutingDecision × EngineResult × String) × SessionState
  handled session_id seq s (ok r, h) = (ok r, record s { harness = h })
  handled session_id seq s (err e, h) =
      (mark_interrupted service session_id seq "interrupted" >> raise (run_failed e))
        (record s { harness = h })

  -- The `try` block of run_session_turn.
  unfoldable pub run_or_interrupt :
      (RunRequest → Io (RoutingDecision × EngineResult × String))
      → RunRequest
      → String
      → (seq : ℕ) → SessionIo (RoutingDecision × EngineResult × String)
  unfolding mark_interrupted
  run_or_interrupt foreground request session_id seq s =
      handled session_id seq s (foreground request s.harness)

  abbrev pub assistant_result :
      SessionContext → RoutingDecision × EngineResult × String → AssistantResult
  assistant_result context (decision, result, run_id) = record {
    text = result.text;
    engine = some result.engine;
    provider = final_provider result;
    model = final_model result decision;
    provider_session_id = result.session_id;
    run_id = nonempty run_id;
    sensitive = context.effective_sensitive;
    untrusted = context.effective_untrusted;
    success = result.success;
    error_code = result.error_code;
    duration_ms = if result.duration_ms == 0 then none else some result.duration_ms;
  }

  abbrev pub session_turn :
      SessionContext
      → TurnRecord
      → RoutingDecision × EngineResult × String
      → TurnRecord
      → SessionTurn
  session_turn context user (decision, result, run_id) assistant = record {
    context = context;
    user_turn = user;
    assistant_turn = assistant;
    decision = decision;
    run_id = run_id;
    success = result.success;
  }

  -- The part of run_session_turn behind the choice of the user's turn.
  unfoldable pub answer_turn :
      (RunRequest → Io (RoutingDecision × EngineResult × String))
      → String
      → (prompt : Codes) → (options : RunRequest) → SessionContext
      → TurnRecord
      → SessionIo SessionTurn
  unfolding mark_processing run_or_interrupt append_assistant_turn
  answer_turn foreground session_id prompt options context user =
      mark_processing service session_id user.seq
      >> (run_or_interrupt foreground (turn_request options session_id prompt context) session_id
            user.seq
          >>= λ r.
              append_assistant_turn service session_id user.seq (assistant_result context r)
              >>= λ assistant. pure (session_turn context user r assistant))

  -- run_session_turn: `options` has the engine, the model and the like that the caller asks for, and
  -- the two marks of the current message.
  unfoldable pub run_session_turn :
      (RunRequest → Io (RoutingDecision × EngineResult × String))
      → String
      → (prompt : Codes) → (options : RunRequest) → SessionIo SessionTurn
  unfolding require_open build_context trailing_unfinished_user_turn reuse_or_append answer_turn
  run_session_turn foreground session_id prompt options = require_open service session_id >>= λ row.
      build_context service session_id options.sensitive options.untrusted >>= λ context.
      trailing_unfinished_user_turn service session_id >>= λ unfinished.
      reuse_or_append session_id prompt options.sensitive options.untrusted unfinished >>= λ user.
      answer_turn foreground session_id prompt options context user
