-- ===== src/Orchestrator/Run.antt =====
-- harness2/orchestrator.py, Orchestrator.prepare and run, with Store.record_run of harness2/store.py.
use ultimate_harness.Base.{
  ℕ, ◌+◌, String, true, ◌=s◌, any, Option, none, some, List, [], ◌∷◌, ◌++◌, if◌then◌else◌,
}
use ultimate_harness.Base.Int.{pos}
use ultimate_harness.Base.Result.{Result, ok, err}
use ultimate_harness.Base.Io.{pure, raise, ◌>>=◌, ◌>>◌}
use ultimate_harness.Text.Codes.{Codes, codes}
use ultimate_harness.Router.{Statuses}
use ultimate_harness.Policy.TaskText.{PolicyRefusal, unsafe_directory}
use ultimate_harness.Policy.Decide.{RunRequest, RoutingDecision, decide}
use ultimate_harness.Orchestrator.{
  RouteMetadata, no_metadata, EngineResult, RunRow, refused, run_id_taken, Services, Io, now,
}
use ultimate_harness.Orchestrator.Route.{
  or_empty, route_candidates, failed_result, status_text, route_metadata, Progress,
}
use ultimate_harness.Orchestrator.Attempts.{audit, try_candidates}

module _ (services : Services) where
  abbrev pub run_row :
      RunRequest → RoutingDecision → EngineResult → (started finished : ℕ) (id : String) → RunRow
  run_row request decision result started finished id = record {
    id = id;
    started_at = started;
    finished_at = finished;
    task_hash = services.task_hash request.prompt;
    engine = result.engine;
    agent = decision.agent;
    model = decision.model;
    provider = request.provider;
    status = status_text result;
    exit_code = result.exit_code;
    duration_ms = result.duration_ms;
    session_id = result.session_id;
    error_code = result.error_code;
    detail = services.redact (or_empty result.error) 300;
    harness_session_id = request.harness_session_id;
    provider_session_id = result.session_id;
  }

  -- uuid.uuid4().hex
  abbrev pub fresh_id : Io String
  fresh_id s = (ok (services.new_id s.ticks), record s { ticks = s.ticks + 1 })

  -- INSERT INTO runs
  unfoldable pub insert_run : RunRow → Io (Unit {0})
  insert_run row s =
      if any (λ r. r.id =s row.id) s.runs
      then (err run_id_taken, s)
      else (ok tt, record s { runs = s.runs ++ row ∷ [] })

  abbrev pub run_metadata : RunRequest → RoutingDecision → EngineResult → List (Codes × Codes)
  run_metadata request decision result =
      (codes "task_hash", services.task_hash request.prompt)
      ∷ (codes "engine", codes result.engine)
      ∷ (codes "agent", codes (or_empty decision.agent))
      ∷ (codes "model", codes (or_empty decision.model))
      ∷ (codes "status", codes (status_text result))
      ∷ (codes "exit_code", services.show_int result.exit_code)
      ∷ (codes "error_code", codes (or_empty result.error_code))
      ∷ []

  -- The writes of record_run.
  unfoldable pub write_run : RunRow → List (Codes × Codes) → Io (Unit {0})
  unfolding insert_run audit
  write_run row metadata = insert_run row >> audit services "run.completed" (codes row.id) metadata

  -- Store.record_run
  unfoldable pub record_run :
      RunRequest → RoutingDecision → EngineResult → (started : ℕ) → Io String
  unfolding write_run
  record_run request decision result started = fresh_id >>= λ id. now services >>= λ finished.
      write_run (run_row request decision result started finished id)
        (run_metadata request decision result)
      >> pure id

  abbrev pub with_route : EngineResult → RouteMetadata → EngineResult
  with_route result route = record result {
    metadata = record result.metadata { route = some route };
  }

  unfoldable pub audit_completed : RouteMetadata → (run_id : String) → Io (Unit {0})
  unfolding audit
  audit_completed route run_id =
      if run_id =s ""
      then pure tt
      else audit services "route.completed" (codes run_id) (services.render_route route)

  -- The part of run behind the loop.
  unfoldable pub finish_run :
      RunRequest → (started : ℕ) → Progress → Io (RoutingDecision × EngineResult × String)
  unfolding record_run audit_completed route_metadata
  finish_run request started p =
      let route = route_metadata request p.chosen p.tried in
      let last = with_route p.last route in
      record_run request p.chosen last started >>= λ run_id.
      audit_completed route run_id >> pure (p.chosen, last, run_id)

  abbrev pub selected_metadata : RunRequest → RoutingDecision → List (Codes × Codes)
  selected_metadata request decision =
      (codes "task_hash", services.hash request.prompt)
      ∷ (codes "engine", codes decision.engine)
      ∷ (codes "agent", codes (or_empty decision.agent))
      ∷ (codes "model", codes (or_empty decision.model))
      ∷ (codes "reason", codes decision.reason)
      ∷ (codes "task_class", codes decision.task_class)
      ∷ []

  abbrev pub dry_result : RunRequest → RoutingDecision → EngineResult
  dry_result request decision = record {
    engine = decision.engine;
    success = true;
    text = codes "dry-run: no engine invoked";
    error = none;
    error_code = none;
    exit_code = pos 0;
    duration_ms = 0;
    session_id = none;
    metadata = record no_metadata {
      decision = some decision.reason;
      route = some (route_metadata request decision []);
    };
  }

  abbrev pub not_attempted : RoutingDecision → Progress
  not_attempted decision = record {
    chosen = decision;
    last = failed_result decision.engine "no engine attempted" "unavailable";
    tried = [];
  }

  -- The part of run behind the first entry of the audit.
  unfoldable pub execute :
      RunRequest → RoutingDecision → (started : ℕ) → Io (RoutingDecision × EngineResult × String)
  unfolding route_metadata route_candidates try_candidates finish_run
  execute request decision started =
      if request.dry_run
      then pure (decision, dry_result request decision, "")
      else (try_candidates services request decision (route_candidates request decision)
            (not_attempted decision)
          >>= finish_run request started)

  -- run, once the request is decided
  unfoldable pub run_decided :
      RunRequest → RoutingDecision → Io (RoutingDecision × EngineResult × String)
  unfolding audit execute
  run_decided request decision = now services >>= λ started.
      audit services "route.selected" (codes decision.engine) (selected_metadata request decision)
      >> execute request decision started

  -- Orchestrator.statuses
  abbrev pub statuses : Statuses
  statuses name = elim (services.engines name) [ none ↦ none | some engine ↦ some engine.status ]

  abbrev pub with_decision :
      RunRequest
      → Result PolicyRefusal RoutingDecision
      → Result PolicyRefusal (RunRequest × RoutingDecision)
  with_decision prepared (err x) = err x
  with_decision prepared (ok decision) = ok (prepared, decision)

  -- canonicalize_request, and the decision on the request with the directory that it found
  abbrev pub decide_in :
      RunRequest → Option String → Result PolicyRefusal (RunRequest × RoutingDecision)
  decide_in request none = err unsafe_directory
  decide_in request (some cwd) =
      let prepared = record request { cwd = some cwd } in
      with_decision prepared (decide services.env statuses prepared)

  -- Orchestrator.prepare
  unfoldable pub prepare : RunRequest → Result PolicyRefusal (RunRequest × RoutingDecision)
  prepare request = decide_in request (services.env.prepare_working_directory request.cwd)

  abbrev pub run_prepared :
      Result PolicyRefusal (RunRequest × RoutingDecision)
      → Io (RoutingDecision × EngineResult × String)
  run_prepared (err x) = raise (refused x)
  run_prepared (ok (request, decision)) = run_decided request decision

  -- Orchestrator.run
  unfoldable pub run : RunRequest → Io (RoutingDecision × EngineResult × String)
  unfolding prepare run_decided
  run request = run_prepared (prepare request)
