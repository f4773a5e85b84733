-- ===== src/Audit/Chain.antt =====
-- Appending keeps the chain intact, and what an intact chain looks like.
use ultimate_harness.Base.{
  ℕ, ◌+◌, ◌≡◌, refl, sym, subst, ap, ◌∙◌, Bool, true, Bool-cases, inl, inr, Option, none, List, [],
  ◌∷◌, ◌++◌, arith, length, length-append,
}
use ultimate_harness.Base.Result.{ok}
use ultimate_harness.Text.Codes.{Codes}
use ultimate_harness.Text.Codes.Laws.{codes_eq_refl, eq_of_codes_eq}
use ultimate_harness.Text.Value.{dumps_object}
use ultimate_harness.Audit.{
  AuditRow, AuditLog, genesis, last_hash, row_body, safe_metadata, new_entry, insert_entry,
  append_audit, is_linked, verify_rows, verify_audit,
}

module _ (hash : Codes → Codes) (stamp : ℕ → Codes) where
  -- A chain that begins behind `previous`.
  pub data Linked : Codes → List AuditRow → Type 0 where
    done : (previous : Codes) → Linked previous []
    link :
        (previous : Codes) (row : AuditRow) (rows : List AuditRow)
        → row.prev_hash ≡ previous
        → row.entry_hash ≡ hash (row_body stamp row previous)
        → Linked row.entry_hash rows
        → Linked previous (row ∷ rows)

  pub Linked-verify_rows :
      (previous : Codes) (count n : ℕ) (rows : List AuditRow)
      → verify_rows hash stamp previous count rows ≡ (true, n, none)
      → Linked previous rows × (n ≡ count + length rows)
  unfolding verify_rows
  Linked-verify_rows previous count n [] h =
      (done previous, omega (arith, ap (λ (x : Bool × ℕ × Option ℕ). x.1) h))
  Linked-verify_rows previous count n (row ∷ rows) h =
      elim (Bool-cases (is_linked hash stamp previous row)) [
        | inr bad ↦ absurd (ground arith)
        | inl good ↦
            let p : row.prev_hash ≡ previous =
              eq_of_codes_eq row.prev_hash previous (ground arith) in
            let e : row.entry_hash ≡ hash (row_body stamp row previous) =
              eq_of_codes_eq row.entry_hash (hash (row_body stamp row previous)) (ground arith) in
            let rest : verify_rows hash stamp (hash (row_body stamp row previous)) (count + 1) rows
                ≡ (true, n, none) =
              ground arith in
            let (l, m) = Linked-verify_rows row.entry_hash (count + 1) n rows (
              subst (λ p. verify_rows hash stamp p (count + 1) rows ≡ (true, n, none)) (sym e)
                rest) in
            (link previous row rows p e l, omega (arith, m))
      ]

  pub verify_rows-Linked :
      (previous : Codes) (count : ℕ) (rows : List AuditRow)
      → Linked previous rows
      → verify_rows hash stamp previous count rows ≡ (true, count + length rows, none)
  unfolding verify_rows
  verify_rows-Linked _ count _ (done previous) = ap (λ n. (true, n, none)) (omega arith)
  verify_rows-Linked _ count _ (link previous row rows p e l) =
      let good : is_linked hash stamp previous row ≡ true =
        rw (p, e, codes_eq_refl previous, codes_eq_refl (hash (row_body stamp row previous)))
          refl in
      rw good (
        subst
          (λ d.
            verify_rows hash stamp d (count + 1) rows ≡ (true, count + length (row ∷ rows), none))
          e
          (verify_rows-Linked row.entry_hash (count + 1) rows l
            ∙ ap (λ n. (true, n, none)) (omega arith)))

  Linked-append :
      (previous : Codes) (rows : List AuditRow) (row : AuditRow)
      → Linked previous rows
      → row.prev_hash ≡ last_hash previous rows
      → row.entry_hash ≡ hash (row_body stamp row (last_hash previous rows))
      → Linked previous (rows ++ row ∷ [])
  unfolding last_hash
  Linked-append _ _ row (done previous) p e = link previous row [] p e (done row.entry_hash)
  Linked-append _ _ row (link previous first rows p e l) p' e' =
      link previous first (rows ++ row ∷ []) p e (Linked-append first.entry_hash rows row l p' e')

  insert_entry-ok :
      (row : AuditRow) (log log' : AuditLog) (digest : Codes)
      → insert_entry hash stamp row log ≡ ok (digest, log')
      → (digest ≡ row.entry_hash) × (log'.rows ≡ log.rows ++ row ∷ [])
  unfolding insert_entry
  insert_entry-ok row log log' digest h = (ground arith, ground arith)

  -- The rows of a log grow at their end.
  pub append_audit-rows :
      (redact : Codes → ℕ → Codes) (event subject : Codes) (metadata : List (Codes × Codes))
      (now : ℕ) (log log' : AuditLog) (digest : Codes)
      → append_audit hash stamp redact event subject metadata now log ≡ ok (digest, log')
      → (row : AuditRow) × (log'.rows ≡ log.rows ++ row ∷ [])
  unfolding append_audit
  append_audit-rows redact event subject metadata now log log' digest h =
      let payload = dumps_object (safe_metadata redact metadata) in
      let row = new_entry hash stamp now event subject payload log in
      (row, (insert_entry-ok row log log' digest h).1)

  -- An entry that is appended to a log that verifies leaves a log that verifies, with one entry more.
  pub append_audit-verifies :
      (redact : Codes → ℕ → Codes) (event subject : Codes) (metadata : List (Codes × Codes))
      (now n : ℕ) (log log' : AuditLog) (digest : Codes)
      → verify_audit hash stamp log ≡ (true, n, none)
      → append_audit hash stamp redact event subject metadata now log ≡ ok (digest, log')
      → verify_audit hash stamp log' ≡ (true, n + 1, none)
  unfolding verify_audit append_audit
  append_audit-verifies redact event subject metadata now n log log' digest v h =
      let payload = dumps_object (safe_metadata redact metadata) in
      let row = new_entry hash stamp now event subject payload log in
      let grown = (insert_entry-ok row log log' digest h).1 in
      let (l, m) = Linked-verify_rows genesis 0 n log.rows v in
      rw grown (
        verify_rows-Linked genesis 0 (log.rows ++ row ∷ [])
          (Linked-append genesis log.rows row l refl refl)
        ∙ ap (λ k. (true, k, none)) (omega (arith, length-append log.rows (row ∷ []), m)))
