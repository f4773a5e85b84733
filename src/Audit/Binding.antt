-- ===== src/Audit/Binding.antt =====
-- What the last hash of an intact log says of the whole log.
use ultimate_harness.Base.{
  ℕ, ◌+◌, ◌≡◌, ◌≢◌, refl, sym, ap, ◌∙◌, Bool, not, all, ◌==◌, Option, none, some, List, [], ◌∷◌,
  ◌++◌, if◌then◌else◌,
}
use ultimate_harness.Text.Codes.{Codes}
use ultimate_harness.Audit.{AuditRow, body, row_body, verify_rows}

-- A text without the separator of a body.
abbrev pub has_no_bar : Codes → Bool
has_no_bar text = all (λ c. not (c == b'|')) text

-- The text behind the last separator.
after_last_bar : Codes → Option Codes
after_last_bar [] = none
after_last_bar (c ∷ cs) = elim (after_last_bar cs) [
  | some rest ↦ some rest
  | none ↦ if c == b'|' then some cs else none
]

module _ (hash : Codes → Codes) (stamp : ℕ → Codes) where
  -- The texts whose hashes make up a log.
  abbrev pub bodies : Codes → List AuditRow → List Codes
  bodies previous [] = []
  bodies previous (row ∷ rows) = row_body stamp row previous ∷ bodies row.entry_hash rows

  -- Two texts with one hash.
  abbrev pub Collision : Type 0
  Collision = (s : Codes) × (t : Codes) × (s ≢ t) × (hash s ≡ hash t)

  append_assoc : (s t u : Codes) → (s ++ t) ++ u ≡ s ++ (t ++ u)
  append_assoc [] t u = refl
  append_assoc (c ∷ s) t u = ap (λ x. c ∷ x) (append_assoc s t u)

  blurred_body :
      (ts : ℕ) (payload previous event part subject : Codes)
      → body stamp ts (event ++ b'|' ∷ part) subject payload previous
        ≡ body stamp ts event (part ++ b'|' ∷ subject) payload previous
  unfolding body
  blurred_body ts payload previous event part subject =
      ap (λ x. stamp ts ++ (b'|' ∷ x))
        (append_assoc event (b'|' ∷ part) _
          ∙ ap (λ x. event ++ (b'|' ∷ x)) (sym (append_assoc part (b'|' ∷ subject) _)))

  -- The text that is hashed does not tell the event from the subject: a log verifies as before when a
  -- part of the event that begins with the separator is moved to the subject of an entry.
  pub event_and_subject_blur :
      (before after : List AuditRow) (row : AuditRow) (count : ℕ)
      (previous event part subject : Codes)
      → verify_rows hash stamp previous count
          (before ++ record row { event = event ++ b'|' ∷ part; subject = subject } ∷ after)
        ≡ verify_rows hash stamp previous count
            (before ++ record row { event = event; subject = part ++ b'|' ∷ subject } ∷ after)
  unfolding verify_rows
  event_and_subject_blur [] after row count previous event part subject =
      let e = blurred_body row.ts row.metadata_json previous event part subject in rw e refl
  event_and_subject_blur (first ∷ before) after row count previous event part subject =
      let rest =
        event_and_subject_blur before after row (count + 1) (hash (row_body stamp first previous))
          event part subject in
      rw rest refl
