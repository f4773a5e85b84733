-- ===== src/Sessions/Service.antt =====
-- harness2/sessions.py, SessionService and run_session_turn, over the tables `sessions`,
-- `session_turns` and `session_attachments`. The encryption of harness2/crypto.py and the orchestrator
-- (`foreground.run`) are parameters.
use Prim.Native.String
pub mod Turns
pub mod Conversation
pub mod UserTurns
pub mod Reads
pub mod Retry
pub mod Marks
use ultimate_harness.Base.{
  ℕ, ◌+◌, ◌*◌, String, Bool, true, false, not, ◌&&◌, ◌||◌, ◌=s◌, ◌==◌, any, select, take, max,
  reverse, is_some, Option, none, some, List, [], ◌∷◌, ◌++◌, if◌then◌else◌,
}
use ultimate_harness.Base.Table.{find, update}
use ultimate_harness.Base.Int.{pos}
use ultimate_harness.Base.Result.{Result, ok, err}
use ultimate_harness.Base.Io.{Action, and_then, pure, raise, ◌>>=◌, ◌>>◌}
use ultimate_harness.Text.Codes.{Codes, codes}
use ultimate_harness.Policy.Decide.{RunRequest, RoutingDecision}
use ultimate_harness.Orchestrator.{
  RouteMetadata, ResultMetadata, EngineResult, RunError, HarnessState, Services, Io,
}
use ultimate_harness.Orchestrator.Route.{or_empty}
use ultimate_harness.Orchestrator.Attempts.{audit}
use ultimate_harness.Sessions.Framing.{assemble_session_prompt}
use ultimate_harness.Sessions.Context.{TurnRecord, SessionContext, SessionContextBuilder, build}

pub data SessionPhase : Type 0 where
  opened closed : SessionPhase

-- A row of `sessions`.
pub record SessionRow : Type 0 where
  pub id : String
  pub title : Codes
  pub state : SessionPhase
  pub created_at : ℕ
  pub updated_at : ℕ
  pub metadata_json : Codes

-- A row of `session_turns`, without the version and the key of its envelope.
pub record TurnRow : Type 0 where
  pub seq : ℕ
  pub session_id : String
  pub role : String
  pub content_envelope : Codes
  pub status : String
  pub engine : Option String
  pub provider : Option String
  pub model : Option String
  pub provider_session_id : Option String
  pub run_id : Option String
  pub sensitive : Bool
  pub untrusted : Bool
  pub error_code : Option String
  pub duration_ms : Option ℕ
  pub created_at : ℕ

pub data SessionError : Type 0 where
  session_not_found session_closed turn_not_found cannot_decrypt missing_reference session_exists :
      SessionError
  run_failed : RunError → SessionError

-- The tables in the order of insertion, with the counter of AUTOINCREMENT, beside the harness.
pub record SessionState : Type 0 where
  pub sessions : List SessionRow
  pub turns : List TurnRow
  pub last_seq : ℕ
  pub attachments : List (String × String)
  pub harness : HarnessState

abbrev pub SessionIo : Type 0 → Type 0
SessionIo A = Action SessionError SessionState A

-- What a service is made with. `seal` takes the randomness of the envelope as a number.
pub record SessionService : Type 0 where
  pub services : Services
  pub seal : ℕ → Codes → Codes
  pub open_envelope : Codes → Option Codes
  pub dumps_metadata : List (Codes × Codes) → Codes
  pub builder : SessionContextBuilder

abbrev pub row_of : String → SessionState → Option SessionRow
row_of id s = find (λ r. r.id) id s.sessions

abbrev pub is_opened : SessionRow → Bool
is_opened row = elim row.state [ opened ↦ true | closed ↦ false ]

-- _UNFINISHED_USER_STATUSES
abbrev pub is_unfinished : String → Bool
is_unfinished status = status =s "pending" || status =s "processing" || status =s "interrupted"

-- `WHERE session_id=? AND seq=? AND role='user'`
abbrev pub is_user_turn : String → ℕ → TurnRow → Bool
is_user_turn session_id seq row =
    row.session_id =s session_id && row.seq == seq && row.role =s "user"

-- UPDATE session_turns SET … WHERE …
unfoldable pub update_turns : (TurnRow → Bool) → (TurnRow → TurnRow) → List TurnRow → List TurnRow
update_turns p f [] = []
update_turns p f (row ∷ rows) = (if p row then f row else row) ∷ update_turns p f rows

-- The last row that meets a test: `ORDER BY seq DESC LIMIT 1`.
unfoldable pub last_row : (TurnRow → Bool) → List TurnRow → Option TurnRow
last_row p [] = none
last_row p (row ∷ rows) = elim (last_row p rows) [
  | some r ↦ some r
  | none ↦ if p row then some row else none
]

-- A test on the key of a turn: `WHERE session_id=? AND seq=?`.
abbrev pub is_turn : String → ℕ → TurnRow → Bool
is_turn session_id seq row = row.session_id =s session_id && row.seq == seq

-- The last turns of a session, in their order.
abbrev pub recent : String → (limit : ℕ) → List TurnRow → List TurnRow
recent session_id limit rows =
    reverse (take (max 1 limit) (reverse (select (λ r. r.session_id =s session_id) rows)))

-- _turn_row, with the text that was opened
abbrev pub turn_record : TurnRow → Codes → TurnRecord
turn_record row text = record {
  seq = row.seq;
  role = row.role;
  status = row.status;
  content = text;
  sensitive = row.sensitive;
  untrusted = row.untrusted;
}

module _ (service : SessionService) where
  abbrev pub time_now : SessionState → ℕ
  time_now s = service.services.clock s.harness.ticks

  abbrev pub tick : SessionState → SessionState
  tick s = record s { harness = record s.harness { ticks = s.harness.ticks + 1 } }

  -- An action of the harness on the database that it shares with the sessions.
  abbrev pub with_harness :
      {A : Type 0}
      → SessionState
      → Result RunError A × HarnessState
      → Result SessionError A × SessionState
  with_harness s (ok a, h) = (ok a, record s { harness = h })
  with_harness s (err e, h) = (err (run_failed e), record s { harness = h })

  abbrev pub lift : {A : Type 0} → Io A → SessionIo A
  lift m s = with_harness s (m s.harness)

  -- store.append_audit
  unfoldable pub session_audit : String → Codes → List (Codes × Codes) → SessionIo (Unit {0})
  unfolding audit
  session_audit event subject metadata = lift (audit service.services event subject metadata)

  abbrev pub open_row : Option SessionRow → SessionIo SessionRow
  open_row none = raise session_not_found
  open_row (some row) = if is_opened row then pure row else raise session_closed

  -- require_open
  unfoldable pub require_open : String → SessionIo SessionRow
  unfolding find
  require_open session_id s = open_row (row_of session_id s) s

  abbrev pub found : Option SessionRow → SessionIo SessionRow
  found none s = (err session_not_found, s)
  found (some row) s = (ok row, s)

  -- _session_row of a session that has to be there
  abbrev pub session_row : String → SessionIo SessionRow
  session_row session_id s = found (row_of session_id s) s

  -- UPDATE sessions SET state=?,updated_at=? WHERE id=?
  unfoldable pub set_state : String → SessionPhase → SessionIo (Unit {0})
  unfolding update
  set_state session_id phase s = (
    ok tt,
    tick (record s {
      sessions =
          update (λ r. r.id) session_id (λ r. record r { state = phase; updated_at = time_now s })
            s.sessions;
    }),
  )

  -- create
  unfoldable pub create : (title : Codes) → List (Codes × Codes) → SessionIo String
  unfolding session_audit
  create title metadata s =
      let id = service.services.new_id s.harness.ticks in
      let row : SessionRow = record {
        id = id;
        title = take 200 title;
        state = opened;
        created_at = time_now s;
        updated_at = time_now s;
        metadata_json = service.dumps_metadata metadata;
      } in
      if is_some (row_of id s)
      then (err session_exists, tick s)
      else (session_audit "session.created" (codes id) ((codes "title", take 200 title) ∷ [])
            >> pure id)
          (tick (record s { sessions = s.sessions ++ row ∷ [] }))

  -- resume
  unfoldable pub resume : String → SessionIo SessionRow
  unfolding set_state session_audit
  resume session_id = session_row session_id >>= λ row.
      if is_opened row
      then pure row
      else (set_state session_id opened
          >> session_audit "session.resumed" (codes session_id) []
          >> session_row session_id)

  -- close
  unfoldable pub close : String → SessionIo SessionRow
  unfolding set_state session_audit
  close session_id = session_row session_id >>= λ row.
      set_state session_id closed
      >> session_audit "session.closed" (codes session_id) []
      >> session_row session_id

  abbrev pub opened_turn : TurnRow → Option Codes → SessionIo TurnRecord
  opened_turn row none s = (err cannot_decrypt, s)
  opened_turn row (some text) s = (ok (turn_record row text), s)

  -- _turn_row and _open
  abbrev pub open_turn : TurnRow → SessionIo TurnRecord
  open_turn row = opened_turn row (service.open_envelope row.content_envelope)

  abbrev pub found_turn : Option TurnRow → SessionIo TurnRecord
  found_turn none s = (err turn_not_found, s)
  found_turn (some row) s = open_turn row s

  -- turn
  unfoldable pub turn : String → ℕ → SessionIo TurnRecord
  unfolding last_row
  turn session_id seq s = found_turn (last_row (is_turn session_id seq) s.turns) s

  unfoldable pub open_turns : List TurnRow → SessionIo (List TurnRecord)
  open_turns [] = pure []
  open_turns (row ∷ rows) = open_turn row >>= λ t. open_turns rows >>= λ ts. pure (t ∷ ts)

  -- turns, with the texts
  unfoldable pub turns : String → (limit : ℕ) → SessionIo (List TurnRecord)
  unfolding open_turns
  turns session_id limit =
      session_row session_id >>= λ row s. open_turns (recent session_id limit s.turns) s

  -- build_context
  unfoldable pub build_context : String → (sensitive untrusted : Bool) → SessionIo SessionContext
  unfolding turns build
  build_context session_id sensitive untrusted =
      turns session_id 100000 >>= λ ts. pure (build service.builder ts sensitive untrusted)
