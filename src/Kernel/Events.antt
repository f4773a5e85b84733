-- ===== src/Kernel/Events.antt =====
-- harness2/kernel/event_bus.py: the persistent event log, its deduplication and its consumers.
pub mod Append
pub mod Order
pub mod Paging
use ultimate_harness.Base.{
  ℕ, ◌+◌, String, Bool, true, false, ◌&&◌, Option, none, some, List, [], ◌∷◌, ◌++◌, max, min, leb,
  ltb, ◌==◌, ◌=s◌, take, select, if◌then◌else◌,
}
use ultimate_harness.Base.Result.{Result, ok, err, Tx}
use ultimate_harness.Base.Table.{find, update}
use ultimate_harness.Text.Codes.{Codes, codes, codes_eq, strip, utf8_size}
use ultimate_harness.Text.Value.{Fields, dumps_object}

-- EventValidationError, its subclass EventConflict, and sqlite3.IntegrityError.
pub data EventError : Type 0 where
  invalid conflict integrity : EventError

abbrev pub max_event_bytes : ℕ
max_event_bytes = 65536

abbrev pub max_metadata_bytes : ℕ
max_metadata_bytes = 16384

-- canonical_json(value, limit=limit)
unfoldable pub canonical_json : ℕ → Fields → Result EventError Codes
canonical_json limit value =
    let encoded = dumps_object value in
    if ltb limit (utf8_size encoded) then err invalid else ok encoded

-- TypedEvent, without what the log adds to it.
pub record TypedEvent : Type 0 where
  pub event_id : String
  pub event_type : String
  pub schema_version : ℕ
  pub source : String
  pub task_id : Option String
  pub correlation_id : String
  pub causation_id : Option String
  pub occurred_at : ℕ
  pub payload : Fields
  pub metadata : Fields
  pub dedup_key : Option Codes

-- A row of kernel_events; the payload and the metadata are kept as canonical text.
pub record EventRow : Type 0 where
  pub seq : ℕ
  pub event_id : String
  pub event_type : String
  pub schema_version : ℕ
  pub source : String
  pub task_id : Option String
  pub correlation_id : String
  pub causation_id : Option String
  pub occurred_at : ℕ
  pub recorded_at : ℕ
  pub payload_json : Codes
  pub metadata_json : Codes
  pub dedup_key : Option Codes

pub record Consumer : Type 0 where
  pub consumer_id : String
  pub last_seq : ℕ
  pub updated_at : ℕ

-- The tables of the bus; `last_seq` is the counter of AUTOINCREMENT.
pub record Bus : Type 0 where
  pub rows : List EventRow
  pub last_seq : ℕ
  pub consumers : List Consumer

abbrev pub empty : Bus
empty = record { rows = []; last_seq = 0; consumers = [] }

abbrev pub option_eq {ℓ} : {A : Type ℓ} → (A → A → Bool) → Option A → Option A → Bool
option_eq same none none = true
option_eq same none (some b) = false
option_eq same (some a) none = false
option_eq same (some a) (some b) = same a b

unfoldable pub is_blank : String → Bool
is_blank s = codes_eq (strip (codes s)) []

-- TypedEvent.__post_init__
unfoldable pub check_event : TypedEvent → Result EventError (Unit {0})
unfolding is_blank
check_event e =
    if is_blank e.event_id
    then err invalid
    else if is_blank e.event_type
    then err invalid
    else if is_blank e.source
    then err invalid
    else if is_blank e.correlation_id
    then err invalid
    else if ltb e.schema_version 1
    then err invalid
    else elim (canonical_json max_event_bytes e.payload) [
      | err x ↦ err x
      | ok p ↦ elim (canonical_json max_metadata_bytes e.metadata) [ err x ↦ err x | ok m ↦ ok tt ]
    ]

-- Whether the log holds this very event.
unfoldable pub equivalent : TypedEvent → Codes → Codes → EventRow → Bool
equivalent e payload metadata r =
    r.event_id =s e.event_id
    && r.event_type =s e.event_type
    && r.schema_version == e.schema_version
    && r.source =s e.source
    && option_eq ◌=s◌ r.task_id e.task_id
    && r.correlation_id =s e.correlation_id
    && option_eq ◌=s◌ r.causation_id e.causation_id
    && r.occurred_at == e.occurred_at
    && option_eq codes_eq r.dedup_key e.dedup_key
    && codes_eq r.payload_json payload
    && codes_eq r.metadata_json metadata

abbrev has_key : String → Codes → EventRow → Bool
has_key source key r = r.source =s source && option_eq codes_eq r.dedup_key (some key)

-- SELECT … WHERE source=? AND dedup_key=?
unfoldable pub find_dedup : String → Codes → List EventRow → Option EventRow
find_dedup source key [] = none
find_dedup source key (r ∷ rs) = if has_key source key r then some r else find_dedup source key rs

unfoldable pub find_event : String → List EventRow → Option EventRow
unfolding find
find_event id rows = find (λ r. r.event_id) id rows

abbrev new_row : TypedEvent → Codes → Codes → ℕ → ℕ → EventRow
new_row e payload metadata recorded seq = record {
  seq = seq;
  event_id = e.event_id;
  event_type = e.event_type;
  schema_version = e.schema_version;
  source = e.source;
  task_id = e.task_id;
  correlation_id = e.correlation_id;
  causation_id = e.causation_id;
  occurred_at = e.occurred_at;
  recorded_at = recorded;
  payload_json = payload;
  metadata_json = metadata;
  dedup_key = e.dedup_key;
}

-- The INSERT with its IntegrityError handler: `event_id` is unique, and `schema_version` positive.
-- (A second row for one source and dedup key does not get here.)
unfoldable pub insert : TypedEvent → Codes → Codes → ℕ → Tx EventError Bus EventRow
insert e payload metadata recorded bus = elim (find_event e.event_id bus.rows) [
  | some existing ↦
      if equivalent e payload metadata existing then ok (existing, bus) else err conflict
  | none ↦
      let seq = bus.last_seq + 1 in
      let row = new_row e payload metadata recorded seq in
      if ltb e.schema_version 1
      then err conflict
      else ok (row, record bus { rows = bus.rows ++ row ∷ []; last_seq = seq })
]

abbrev known : Option Codes → String → List EventRow → Option EventRow
known none source rows = none
known (some key) source rows = find_dedup source key rows

-- EventBus.append.write, behind the encoding of the event.
unfoldable pub write : TypedEvent → Codes → Codes → ℕ → Tx EventError Bus EventRow
unfolding insert
write e payload metadata recorded bus = elim (known e.dedup_key e.source bus.rows) [
  | some existing ↦
      if equivalent e payload metadata existing then ok (existing, bus) else err conflict
  | none ↦ insert e payload metadata recorded bus
]

-- EventBus.append
unfoldable pub append : TypedEvent → ℕ → Tx EventError Bus EventRow
unfolding write
append e recorded bus = elim (canonical_json max_event_bytes e.payload) [
  | err x ↦ err x
  | ok payload ↦ elim (canonical_json max_metadata_bytes e.metadata) [
    | err x ↦ err x
    | ok metadata ↦ write e payload metadata recorded bus
  ]
]

abbrev matches_filter : Option String → Option String → Bool
matches_filter none value = true
matches_filter (some s) value = option_eq ◌=s◌ (some s) value

-- max(1, min(limit, 1000))
abbrev pub page_size : ℕ → ℕ
page_size limit = max 1 (min limit 1000)

abbrev pub wanted : ℕ → Option String → Option String → EventRow → Bool
wanted after event_type task_id r =
    ltb after r.seq
    && matches_filter event_type (some r.event_type)
    && matches_filter task_id r.task_id

-- EventBus.replay. The rows stand in the order of `seq`. An empty filter text is the absent filter.
unfoldable pub replay : ℕ → ℕ → Option String → Option String → Bus → List EventRow
replay after limit event_type task_id bus =
    take (page_size limit) (select (wanted after event_type task_id) bus.rows)

-- SELECT COALESCE(MAX(seq), 0)
unfoldable pub high_water : List EventRow → ℕ
high_water [] = 0
high_water (r ∷ rs) = max r.seq (high_water rs)

unfoldable pub find_consumer : String → List Consumer → Option Consumer
unfolding find
find_consumer id rows = find (λ r. r.consumer_id) id rows

-- EventBus.cursor
unfoldable pub cursor : String → Bus → ℕ
unfolding find_consumer
cursor id bus = elim (find_consumer id bus.consumers) [ none ↦ 0 | some c ↦ c.last_seq ]

-- INSERT … ON CONFLICT(consumer_id) DO UPDATE SET last_seq=MAX(last_seq, excluded.last_seq)
unfoldable pub advance_consumer : String → ℕ → ℕ → List Consumer → List Consumer
unfolding find_consumer update
advance_consumer id through_seq now consumers = elim (find_consumer id consumers) [
  | none ↦ consumers ++ record { consumer_id = id; last_seq = through_seq; updated_at = now } ∷ []
  | some c ↦
      update (λ r. r.consumer_id) id
        (λ r. record r { last_seq = max r.last_seq through_seq; updated_at = now }) consumers
]

-- EventBus.ack; `through_seq` is a natural number, so the test for a negative one is void.
unfoldable pub ack : String → ℕ → ℕ → Tx EventError Bus ℕ
unfolding is_blank
ack id through_seq now bus =
    let bus' : Bus = record bus { consumers = advance_consumer id through_seq now bus.consumers } in
    if is_blank id
    then err invalid
    else if ltb (high_water bus.rows) through_seq
    then err invalid
    else ok (cursor id bus', bus')
