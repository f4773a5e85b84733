-- ===== src/Audit.antt =====
-- harness2/store.py, Store.append_audit and verify_audit: the log whose entries are chained by their
-- hashes. A hash is a text of code points; `hash` is SHA-256 in hexadecimal, `stamp` the printing of a
-- time with six decimals and `redact` the redaction of harness2/security.py, all parameters.
use ultimate_harness.Base.{
  ℕ, zero, suc, ◌+◌, String, Bool, true, false, ◌&&◌, any, map, Option, none, some, List, [], ◌∷◌,
  ◌++◌, if◌then◌else◌,
}
use ultimate_harness.Base.Result.{Tx, ok, err}
use ultimate_harness.Text.Codes.{Codes, codes, codes_eq}
use ultimate_harness.Text.Value.{Fields, text, end, field, dumps_object}
pub mod Chain
pub mod Binding

-- A violated UNIQUE constraint of `entry_hash`.
pub data AuditError : Type 0 where
  integrity : AuditError

pub record AuditRow : Type 0 where
  pub seq : ℕ
  pub ts : ℕ
  pub event : Codes
  pub subject : Codes
  pub metadata_json : Codes
  pub prev_hash : Codes
  pub entry_hash : Codes

-- The table `audit`, in the order of `seq`, with the counter of AUTOINCREMENT.
pub record AuditLog : Type 0 where
  pub rows : List AuditRow
  pub last_seq : ℕ

abbrev pub empty_log : AuditLog
empty_log = record { rows = []; last_seq = 0 }

-- "0" * 64
abbrev pub repeat : ℕ → ℕ → Codes
repeat zero c = []
repeat (suc n) c = c ∷ repeat n c

unfoldable pub genesis : Codes
genesis = repeat 64 b'0'

-- `row[0] if row else "0" * 64` of the last row
unfoldable pub last_hash : Codes → List AuditRow → Codes
last_hash previous [] = previous
last_hash previous (row ∷ rows) = last_hash row.entry_hash rows

-- f"{ts:.6f}|{event}|{subject}|{payload}|{prev}"
unfoldable pub body :
    (stamp : ℕ → Codes) → (ts : ℕ) (event subject payload previous : Codes) → Codes
body stamp ts event subject payload previous =
    stamp ts ++ (b'|' ∷ (event ++ (b'|' ∷ (subject ++ (b'|' ∷ (payload ++ b'|' ∷ previous))))))

abbrev pub row_body : (stamp : ℕ → Codes) → AuditRow → Codes → Codes
row_body stamp row = body stamp row.ts row.event row.subject row.metadata_json

-- {str(k): redact(v, 300) for k, v in metadata.items()}
unfoldable pub safe_metadata : (redact : Codes → ℕ → Codes) → List (Codes × Codes) → Fields
safe_metadata redact [] = end
safe_metadata redact ((key, value) ∷ rest) =
    field key (text (redact value 300)) (safe_metadata redact rest)

module _ (hash : Codes → Codes) (stamp : ℕ → Codes) where
  abbrev pub new_entry : (now : ℕ) (event subject payload : Codes) → AuditLog → AuditRow
  new_entry now event subject payload log =
      let previous = last_hash genesis log.rows in
      record {
        seq = log.last_seq + 1;
        ts = now;
        event = event;
        subject = subject;
        metadata_json = payload;
        prev_hash = previous;
        entry_hash = hash (body stamp now event subject payload previous);
      }

  -- INSERT INTO audit
  unfoldable pub insert_entry : AuditRow → Tx AuditError AuditLog Codes
  insert_entry row log =
      if any (λ r. codes_eq r.entry_hash row.entry_hash) log.rows
      then err integrity
      else ok (row.entry_hash, record { rows = log.rows ++ row ∷ []; last_seq = row.seq })

  -- Store.append_audit
  unfoldable pub append_audit :
      (redact : Codes → ℕ → Codes) (event subject : Codes) (metadata : List (Codes × Codes))
      (now : ℕ)
      → Tx AuditError AuditLog Codes
  unfolding insert_entry safe_metadata
  append_audit redact event subject metadata now log =
      insert_entry (new_entry now event subject (dumps_object (safe_metadata redact metadata)) log)
        log

  -- `row["prev_hash"] != previous or row["entry_hash"] != digest`, negated
  abbrev pub is_linked : (previous : Codes) → AuditRow → Bool
  is_linked previous row =
      codes_eq row.prev_hash previous
      && codes_eq row.entry_hash (hash (row_body stamp row previous))

  -- The loop of verify_audit. The new `previous` is the digest, which is the entry's hash here.
  unfoldable pub verify_rows : (previous : Codes) (count : ℕ) → List AuditRow → Bool × ℕ × Option ℕ
  verify_rows previous count [] = (true, count, none)
  verify_rows previous count (row ∷ rows) =
      let rest = verify_rows (hash (row_body stamp row previous)) (count + 1) rows in
      if is_linked previous row then rest else (false, count + 1, some row.seq)

  -- Store.verify_audit
  unfoldable pub verify_audit : AuditLog → Bool × ℕ × Option ℕ
  unfolding verify_rows
  verify_audit log = verify_rows genesis 0 log.rows
