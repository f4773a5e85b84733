-- ===== src/Sessions/Service/Retry.antt =====
-- A retried message: what run_session_turn does to the user turns.
use ultimate_harness.Base.{
  ℕ, ◌+◌, String, ◌≡◌, refl, sym, subst, ap, ◌∙◌, Bool, Option, none, some, List, [], ◌∷◌, ◌++◌,
  if◌then◌else◌,
}
use mathlib.Core.List.{append-nil}
use ultimate_harness.Base.Result.{Result, ok, err}
use ultimate_harness.Base.Io.{pure, ◌>>=◌, ◌>>◌, and_then, Keeps, >>=-Keeps, >>=-Leads}
use ultimate_harness.Text.Codes.{Codes}
use ultimate_harness.Text.Codes.Laws.{codes_eq_refl}
use ultimate_harness.Policy.Decide.{RunRequest, RoutingDecision}
use ultimate_harness.Orchestrator.{EngineResult, RunError, HarnessState, Io}
use ultimate_harness.Orchestrator.Attempts.{audit}
use ultimate_harness.Sessions.Context.{TurnRecord, SessionContext}
use ultimate_harness.Sessions.Service.{
  SessionRow, TurnRow, SessionError, SessionState, SessionService, time_now, row_of, is_user_turn,
  update_turns, last_row, turn_record, with_harness, session_audit, require_open, opened_turn, turn,
  build_context,
}
use ultimate_harness.Sessions.Service.Conversation.{
  SessionTurn, turn_request, assistant_result, session_turn, reuse_or_append, handled,
  run_or_interrupt, answer_turn, run_session_turn,
}
use ultimate_harness.Sessions.Service.Turns.{
  AssistantResult, inserted, assistant_row, assistant_metadata, turn_subject, insert_turn,
  is_unfinished_of, opened_optional, trailing_unfinished_user_turn, mark_processing,
  mark_interrupted, append_assistant_turn, append_user_turn,
}
use ultimate_harness.Sessions.Service.UserTurns.{
  UserTurn, user_turn, user_turns, user_turns-append, user_turns-update,
}
use ultimate_harness.Sessions.Service.Reads.{require_open-Keeps, build_context-Keeps, turn-Keeps}

module _ (service : SessionService) where
  -- The state has these user turns.
  abbrev Has : List UserTurn → SessionState → Type 0
  Has us s = user_turns s.turns ≡ us

  session_audit-Keeps :
      (us : List UserTurn) (event : String) (subject : Codes) (metadata : List (Codes × Codes))
      → Keeps (Has us) (session_audit service event subject metadata)
  unfolding session_audit
  session_audit-Keeps us event subject metadata s q =
      go (audit service.services event subject metadata s.harness)
    where
      go : (r : Result RunError (Unit {0}) × HarnessState) → Has us (with_harness service s r).1
      go (ok a, h) = q
      go (err e, h) = q

  mark_processing-Keeps :
      (us : List UserTurn) (session_id : String) (seq : ℕ)
      → Keeps (Has us) (mark_processing service session_id seq)
  unfolding mark_processing
  mark_processing-Keeps us session_id seq s q =
      user_turns-update (is_user_turn session_id seq) (λ r. record r { status = "processing" })
        s.turns (λ r. refl) (λ r. refl)
      ∙ q

  mark_interrupted-Keeps :
      (us : List UserTurn) (session_id : String) (seq : ℕ) (code : String)
      → Keeps (Has us) (mark_interrupted service session_id seq code)
  unfolding mark_interrupted
  mark_interrupted-Keeps us session_id seq code s q =
      user_turns-update (is_user_turn session_id seq)
        (λ r. record r { status = "interrupted"; error_code = some code }) s.turns (λ r. refl)
        (λ r. refl)
      ∙ q

  -- An insert of a row that is no user turn.
  insert_turn-Keeps :
      (us : List UserTurn) (make : ℕ → ℕ → TurnRow) (change : TurnRow → TurnRow)
      (p : TurnRow → Bool) (session_id : String)
      → ((n now : ℕ) → user_turns (make n now ∷ []) ≡ [])
      → ((r : TurnRow) → (change r).role ≡ r.role)
      → ((r : TurnRow) → user_turn (change r) ≡ user_turn r)
      → Keeps (Has us) (insert_turn service make change p session_id)
  unfolding insert_turn
  insert_turn-Keeps us make change p session_id none_made keeps same s q = go (row_of session_id s)
    where
      go : (r : Option SessionRow) → Has us (inserted service make change p session_id r s).1
      go none = q
      go (some row) =
          user_turns-append (update_turns p change s.turns)
            (make (s.last_seq + 1) (time_now service s) ∷ [])
          ∙ ap (λ us. user_turns (update_turns p change s.turns) ++ us)
              (none_made (s.last_seq + 1) (time_now service s))
          ∙ append-nil (user_turns (update_turns p change s.turns))
          ∙ user_turns-update p change s.turns keeps same
          ∙ q

  assistant-no_user_turn :
      (session_id : String) (envelope : Codes) (result : AssistantResult) (n now : ℕ)
      → user_turns (assistant_row service session_id envelope result n now ∷ []) ≡ []
  unfolding user_turns
  assistant-no_user_turn session_id envelope result n now = refl

  append_assistant_turn-Keeps :
      (us : List UserTurn) (session_id : String) (user_seq : ℕ) (result : AssistantResult)
      → Keeps (Has us) (append_assistant_turn service session_id user_seq result)
  unfolding append_assistant_turn
  append_assistant_turn-Keeps us session_id user_seq result s =
      let envelope = service.seal s.harness.ticks result.text in
      >>=-Keeps (Has us)
        (insert_turn service (assistant_row service session_id envelope result)
          (λ r. record r { status = "completed" }) (is_user_turn session_id user_seq) session_id)
        (λ seq.
          session_audit service "session.turn.completed" (turn_subject service session_id user_seq)
            (assistant_metadata service result seq)
          >> turn service session_id seq)
        (insert_turn-Keeps us (assistant_row service session_id envelope result)
          (λ r. record r { status = "completed" }) (is_user_turn session_id user_seq) session_id
          (assistant-no_user_turn session_id envelope result) (λ r. refl) (λ r. refl))
        (λ seq.
          >>=-Keeps (Has us)
            (session_audit service "session.turn.completed"
              (turn_subject service session_id user_seq) (assistant_metadata service result seq))
            (λ u. turn service session_id seq)
            (session_audit-Keeps us "session.turn.completed"
              (turn_subject service session_id user_seq) (assistant_metadata service result seq))
            (λ u. turn-Keeps service (Has us) session_id seq))
        s

  run_or_interrupt-Keeps :
      (us : List UserTurn) (foreground : RunRequest → Io (RoutingDecision × EngineResult × String))
      (request : RunRequest) (session_id : String) (seq : ℕ)
      → Keeps (Has us) (run_or_interrupt service foreground request session_id seq)
  unfolding run_or_interrupt
  run_or_interrupt-Keeps us foreground request session_id seq s q =
      go (foreground request s.harness)
    where
      go :
          (r : Result RunError (RoutingDecision × EngineResult × String) × HarnessState)
          → Has us (handled service session_id seq s r).1
      go (ok r, h) = q
      go (err e, h) =
          mark_interrupted-Keeps us session_id seq "interrupted" (record s { harness = h }) q

  answer_turn-Keeps :
      (us : List UserTurn) (foreground : RunRequest → Io (RoutingDecision × EngineResult × String))
      (session_id : String) (prompt : Codes) (options : RunRequest) (context : SessionContext)
      (user : TurnRecord)
      → Keeps (Has us) (answer_turn service foreground session_id prompt options context user)
  unfolding answer_turn
  answer_turn-Keeps us foreground session_id prompt options context user =
      let request = turn_request service options session_id prompt context in
      let ran = run_or_interrupt service foreground request session_id user.seq in
      let finish = λ (r : RoutingDecision × EngineResult × String).
        append_assistant_turn service session_id user.seq (assistant_result service context r)
        >>= λ assistant. pure (session_turn service context user r assistant) in
      >>=-Keeps (Has us) (mark_processing service session_id user.seq) (λ u. ran >>= finish)
        (mark_processing-Keeps us session_id user.seq)
        (λ u.
          >>=-Keeps (Has us) ran finish
            (run_or_interrupt-Keeps us foreground request session_id user.seq)
            (λ r.
              >>=-Keeps (Has us)
                (append_assistant_turn service session_id user.seq
                  (assistant_result service context r))
                (λ assistant. pure (session_turn service context user r assistant))
                (append_assistant_turn-Keeps us session_id user.seq
                  (assistant_result service context r))
                (λ assistant s q. q)))

  -- What trailing_unfinished_user_turn reads.
  trailing_lem :
      (session_id : String) (s : SessionState) (row : TurnRow) (text : Codes)
      → last_row (is_unfinished_of service session_id) s.turns ≡ some row
      → service.open_envelope row.content_envelope ≡ some text
      → trailing_unfinished_user_turn service session_id s ≡ (ok (some (turn_record row text)), s)
  unfolding trailing_unfinished_user_turn
  trailing_lem session_id s row text last opens =
      ap (λ o. opened_optional service o s) last
      ∙ ap (λ t. (opened_turn service row t >>= λ t. pure (some t)) s) opens

  retried_lem :
      (foreground : RunRequest → Io (RoutingDecision × EngineResult × String)) (session_id : String)
      (prompt : Codes) (options : RunRequest) (context : SessionContext) (t : SessionState)
      (row : TurnRow)
      → last_row (is_unfinished_of service session_id) t.turns ≡ some row
      → service.open_envelope row.content_envelope ≡ some prompt
      → (trailing_unfinished_user_turn service session_id >>= λ unfinished.
            reuse_or_append service session_id prompt options.sensitive options.untrusted unfinished
            >>= λ user. answer_turn service foreground session_id prompt options context user)
          t
        ≡ answer_turn service foreground session_id prompt options context
            (turn_record row prompt)
            t
  unfolding reuse_or_append
  retried_lem foreground session_id prompt options context t row last opens =
      let answer = answer_turn service foreground session_id prompt options context in
      ap
        (and_then (λ unfinished.
          reuse_or_append service session_id prompt options.sensitive options.untrusted unfinished
          >>= answer))
        (trailing_lem session_id t row prompt last opens)
      ∙ ap
          (λ b.
            ((if b
                  then pure (turn_record row prompt)
                  else append_user_turn service session_id prompt options.sensitive
                      options.untrusted)
                >>= answer)
              t)
          (codes_eq_refl prompt)

  -- A message that is sent again while its turn is the last unfinished one adds no user turn and
  -- changes none of what the table has of them: the number, the envelope and the two marks, whichever
  -- marks the second request has and however the run ends.
  pub retry_adds_no_user_turn :
      (foreground : RunRequest → Io (RoutingDecision × EngineResult × String)) (session_id : String)
      (prompt : Codes) (options : RunRequest) (s : SessionState) (row : TurnRow)
      → last_row (is_unfinished_of service session_id) s.turns ≡ some row
      → service.open_envelope row.content_envelope ≡ some prompt
      → user_turns (run_session_turn service foreground session_id prompt options s).1.turns
        ≡ user_turns s.turns
  unfolding run_session_turn
  retry_adds_no_user_turn foreground session_id prompt options s row last opens =
      let answer = answer_turn service foreground session_id prompt options in
      let choose = λ (context : SessionContext).
        trailing_unfinished_user_turn service session_id >>= λ unfinished.
        reuse_or_append service session_id prompt options.sensitive options.untrusted unfinished
        >>= answer context in
      let context = build_context service session_id options.sensitive options.untrusted in
      >>=-Leads Before After (require_open service session_id) (λ r. context >>= choose)
        (require_open-Keeps service Before session_id) (λ t q. ap user_turns q)
        (λ r.
          >>=-Leads Before After context choose
            (build_context-Keeps service Before session_id options.sensitive options.untrusted)
            (λ t q. ap user_turns q)
            (λ c t q.
              subst (λ (x : Result SessionError SessionTurn × SessionState). After x.1)
                (sym (
                  retried_lem foreground session_id prompt options c t row
                    (ap (last_row (is_unfinished_of service session_id)) q ∙ last) opens))
                (answer_turn-Keeps (user_turns s.turns) foreground session_id prompt options c
                  (turn_record row prompt) t (ap user_turns q))))
        s refl
    where
      Before : SessionState → Type 0
      Before t = t.turns ≡ s.turns

      After : SessionState → Type 0
      After = Has (user_turns s.turns)
