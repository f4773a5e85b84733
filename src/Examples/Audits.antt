-- ===== src/Examples/Audits.antt =====
-- The theorems on the audit log and on failures, applied.
use ultimate_harness.Base.{
  ℕ, ◌+◌, ◌≡◌, ◌≢◌, ◌↔◌, refl, true, leb, map, All, String, Option, none, some, [], ◌∷◌, ◌++◌,
  if◌then◌else◌,
}
use ultimate_harness.Base.Result.{ok}
use ultimate_harness.Text.Codes.{Codes, codes}
use ultimate_harness.Text.Value.{dumps_object}
use ultimate_harness.Audit.{
  AuditRow, AuditLog, empty_log, genesis, body, safe_metadata, new_entry, insert_entry,
  append_audit, verify_rows, verify_audit,
}
use ultimate_harness.Audit.Chain.{append_audit-verifies}
use ultimate_harness.Audit.Binding.{event_and_subject_blur}
use ultimate_harness.Failures.{failure_patterns, failure_code_map, normalize_failure}
use ultimate_harness.Failures.Words.{spaced, HasNone}
use ultimate_harness.Failures.Taxonomy.{normalize_failure-unknown}

-- A hash whose texts have no separator.
abbrev bump : ℕ → ℕ
bump c = if leb b'|' c then c + 1 else c

abbrev hash : Codes → Codes
hash s = map bump s

abbrev stamp : ℕ → Codes
stamp n = n ∷ []

-- The entry of an empty log, under an event "a|b" or "a".
abbrev entry : (event subject : Codes) → AuditRow
entry event subject = record {
  seq = 1;
  ts = 7;
  event = event;
  subject = subject;
  metadata_json = [];
  prev_hash = genesis;
  entry_hash = hash (body stamp 7 event subject [] genesis);
}

abbrev log : (event subject : Codes) → AuditLog
log event subject = record { rows = entry event subject ∷ []; last_seq = 1 }

event_and_subject_blur_example :
    verify_rows hash stamp genesis 0
      ([] ++ record (entry [] []) { event = (97 ∷ []) ++ b'|' ∷ 98 ∷ []; subject = 99 ∷ [] } ∷ [])
    ≡ verify_rows hash stamp genesis 0
        ([] ++ record (entry [] []) { event = 97 ∷ []; subject = (98 ∷ []) ++ b'|' ∷ 99 ∷ [] } ∷ [])
event_and_subject_blur_example =
    event_and_subject_blur hash stamp [] [] (entry [] []) 0 genesis (97 ∷ []) (98 ∷ []) (99 ∷ [])

abbrev keep_codes : Codes → ℕ → Codes
keep_codes text n = text

abbrev appended : AuditRow
appended =
    new_entry hash stamp 9 (101 ∷ []) (102 ∷ []) (dumps_object (safe_metadata keep_codes []))
      empty_log

append_returns :
    append_audit hash stamp keep_codes (101 ∷ []) (102 ∷ []) [] 9 empty_log
    ≡ ok (appended.entry_hash, record { rows = appended ∷ []; last_seq = 1 })
unfolding append_audit insert_entry
append_returns = refl

empty_verifies : verify_audit hash stamp empty_log ≡ (true, 0, none)
unfolding verify_audit verify_rows
empty_verifies = refl

append_audit-verifies_example :
    verify_audit hash stamp (record { rows = appended ∷ []; last_seq = 1 }) ≡ (true, 0 + 1, none)
append_audit-verifies_example =
    append_audit-verifies hash stamp keep_codes (101 ∷ []) (102 ∷ []) [] 9 0 empty_log
      (record { rows = appended ∷ []; last_seq = 1 }) appended.entry_hash empty_verifies
      append_returns

abbrev same : Codes → Codes
same text = text

same_keeps : (text : Codes) → same text ≡ [] → text ≡ []
same_keeps text h = h

abbrev odd : Option String
odd = some "odd"

normalize_failure-unknown_example :
    (normalize_failure same odd (some "out of memory") ≡ "unknown_provider_failure") ↔ (
      (odd ≢ some "circuit_open")
      × All (λ entry. odd ≢ some entry.0) failure_code_map
      × All
          (λ entry. HasNone (same (spaced (codes "odd") (codes "out of memory"))) entry.1)
          failure_patterns)
normalize_failure-unknown_example =
    normalize_failure-unknown same same_keeps odd (some "out of memory")
