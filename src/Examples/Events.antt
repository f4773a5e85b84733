-- ===== src/Examples/Events.antt =====
-- The theorems on the event bus, applied to a log of one event.
use ultimate_harness.Base.{
  ◌≤◌, ◌=s◌, ◌≡◌, refl, none, some, [], ◌∷◌, ◌++◌, max, select, if◌then◌else◌,
}
use ultimate_harness.Base.Result.{ok}
use ultimate_harness.Base.Table.{find, update}
use ultimate_harness.Text.Codes.{codes, is_space, lstrip, strip, codes_eq, utf8_size}
use ultimate_harness.Text.Value.{end, sort_fields, render, dumps_object}
use ultimate_harness.Kernel.Events.{
  TypedEvent, EventRow, Bus, empty, canonical_json, is_blank, check_event, equivalent, find_dedup,
  find_event, insert, write, append, wanted, replay, high_water, find_consumer, cursor,
  advance_consumer, ack,
}
use ultimate_harness.Kernel.Events.Append.{append_idempotent}
use ultimate_harness.Kernel.Events.Order.{IsLog, append-IsLog, empty-IsLog}
use ultimate_harness.Kernel.Events.Paging.{last_seen, replay_resumes, ack_effect}

abbrev event : TypedEvent
event = record {
  event_id = "e1";
  event_type = "task.created";
  schema_version = 1;
  source = "kernel.tasks";
  task_id = some "a";
  correlation_id = "a";
  causation_id = none;
  occurred_at = 1;
  payload = end;
  metadata = end;
  dedup_key = none;
}

abbrev row : EventRow
row = record {
  seq = 1;
  event_id = "e1";
  event_type = "task.created";
  schema_version = 1;
  source = "kernel.tasks";
  task_id = some "a";
  correlation_id = "a";
  causation_id = none;
  occurred_at = 1;
  recorded_at = 2;
  payload_json = b'{' ∷ b'}' ∷ [];
  metadata_json = b'{' ∷ b'}' ∷ [];
  dedup_key = none;
}

abbrev log : Bus
log = record { rows = row ∷ []; last_seq = 1; consumers = [] }

appended : append event 2 empty ≡ ok (row, log)
unfolding codes codes_eq is_space strip lstrip utf8_size sort_fields render dumps_object
    canonical_json is_blank check_event equivalent find_dedup find_event insert write append find
    update
appended = refl

append_idempotent_example : append event 9 log ≡ ok (row, log)
append_idempotent_example = append_idempotent event 2 9 empty log row appended

append-IsLog_example : IsLog log
append-IsLog_example = append-IsLog event 2 empty log row empty-IsLog appended

replay_resumes_example :
    replay 0 10 none none log
      ++ select (wanted (last_seen 0 (replay 0 10 none none log)) none none) log.rows
    ≡ select (wanted 0 none none) log.rows
replay_resumes_example = replay_resumes none none log 0 10 append-IsLog_example

abbrev acknowledged : Bus
acknowledged = record log {
  consumers = record { consumer_id = "c"; last_seq = 1; updated_at = 3 } ∷ [];
}

acked : ack "c" 1 3 log ≡ ok (1, acknowledged)
unfolding codes codes_eq is_space strip lstrip is_blank find update high_water find_consumer cursor
    advance_consumer ack
acked = refl

ack_effect_example :
    (1 ≤ high_water log.rows)
    × (1 ≡ max (cursor "c" log) 1)
    × (cursor "c" acknowledged ≡ 1)
    × (cursor "d" acknowledged ≡ (if "c" =s "d" then 1 else cursor "d" log))
    × (acknowledged.rows ≡ log.rows)
ack_effect_example = ack_effect "c" "d" 1 3 1 log acknowledged acked
