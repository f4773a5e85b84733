-- ===== src/Sessions/Framing/TaskText.antt =====
-- The envelope of a session prompt and the text that the policy classifies: what the one writes, the
-- other finds.
use mathlib.Core.List.{append_assoc, reverse-append, reverse-reverse}
use ultimate_harness.Base.{
  ℕ, String, ◌≡◌, refl, sym, ap, ◌∙◌, true, false, none, some, List, [], ◌∷◌, ◌++◌, reverse, arith,
  ◌==◌, any, all-append,
}
use ultimate_harness.Base.Result.{Result, ok, err}
use ultimate_harness.Text.Codes.{Codes, codes, codes_eq, lstrip, is_space, strip, join}
use ultimate_harness.Text.Json.{quote, escape, dumps_text}
use ultimate_harness.Text.Json.Laws.{
  loads_text-dumps_text, loads_text-control, escape-no_break, escape-append, escape-separator,
}
use ultimate_harness.Text.Lines.{is_separator, splitlines}
use ultimate_harness.Text.Lines.Laws.{
  no_break, splitlines-append_lf, splitlines-break, splitlines-single, splitlines-append_one,
}
use ultimate_harness.Policy.TaskText.{
  PolicyRefusal, not_a_text, current_request_header, after_last_header, decode_section,
  policy_task_text,
}
use ultimate_harness.Sessions.Framing.{
  semantics_text, history_header, current_header, current_section, assemble_session_prompt,
}

-- Every session prompt ends with the line of the header and the encoded request.
prompt_shape :
    (context prompt : Codes)
    → (before : Codes) × (assemble_session_prompt context prompt
        ≡ before ++ 10 ∷ (current_header ++ 10 ∷ dumps_text prompt))
unfolding assemble_session_prompt current_section
prompt_shape [] prompt = (semantics_text ++ 10 ∷ [], sym (append_assoc semantics_text (10 ∷ []) _))
prompt_shape (c ∷ context) prompt = (
  semantics_text ++ (10 ∷ 10 ∷ ((history_header ++ 10 ∷ c ∷ context) ++ 10 ∷ [])),
  simp append_assoc,
)

-- A header found later hides the lines before it.
after_last_header-append :
    (before rest found : List Codes)
    → after_last_header rest ≡ some found
    → after_last_header (before ++ rest) ≡ some found
unfolding after_last_header
after_last_header-append [] rest found h = h
after_last_header-append (l ∷ before) rest found h =
    rw (after_last_header-append before rest found h, after_last_header) refl

splitlines-header :
    (body : Codes)
    → splitlines (current_header ++ 10 ∷ body) ≡ current_request_header ∷ splitlines body
unfolding current_header current_request_header
splitlines-header body = splitlines-break current_request_header body 10 refl refl refl

reverse-quoted : (s : Codes) → reverse (quote ∷ (s ++ quote ∷ [])) ≡ quote ∷ reverse (quote ∷ s)
reverse-quoted s = reverse-append (quote ∷ s) (quote ∷ [])

lstrip-quote : (s : Codes) → lstrip (quote ∷ s) ≡ quote ∷ s
unfolding lstrip is_space
lstrip-quote s = refl

strip-quoted : (s : Codes) → strip (quote ∷ (s ++ quote ∷ [])) ≡ quote ∷ (s ++ quote ∷ [])
unfolding strip
strip-quoted s =
    let t : Codes = quote ∷ (s ++ quote ∷ []) in
    ap (λ x. reverse (lstrip (reverse x))) (lstrip-quote (s ++ quote ∷ []))
    ∙ ap (λ x. reverse (lstrip x)) (reverse-quoted s)
    ∙ ap reverse (lstrip-quote (reverse (quote ∷ s)))
    ∙ ap reverse (sym (reverse-quoted s))
    ∙ reverse-reverse t

after_last_header-quoted :
    (s : Codes) (rest : List Codes)
    → after_last_header rest ≡ none
    → after_last_header (current_request_header ∷ (quote ∷ s) ∷ rest) ≡ some ((quote ∷ s) ∷ rest)
unfolding after_last_header current_request_header codes_eq
after_last_header-quoted s rest h = rw (h, after_last_header) refl

-- The lines behind the genuine header decide, whatever the history holds.
tail_found :
    (context prompt : Codes) (found : List Codes)
    → after_last_header (current_request_header ∷ splitlines (dumps_text prompt)) ≡ some found
    → after_last_header (splitlines (assemble_session_prompt context prompt)) ≡ some found
tail_found context prompt found h =
    let (before, shape) = prompt_shape context prompt in
    let (lines, cut) = splitlines-append_lf before (current_header ++ 10 ∷ dumps_text prompt) in
    rw (shape, cut, splitlines-header (dumps_text prompt))
      (after_last_header-append lines _ found h)

dumps_text-one_line :
    (prompt : Codes)
    → any is_separator prompt ≡ false
    → splitlines (dumps_text prompt) ≡ dumps_text prompt ∷ []
unfolding dumps_text
dumps_text-one_line prompt clean =
    splitlines-single quote (escape prompt ++ quote ∷ [])
      (rw (all-append no_break (escape prompt) (quote ∷ []), escape-no_break prompt clean))

-- A section that is a quoted text is decoded as it stands.
section_decoded :
    (session : String) (text body : Codes) (rest : List Codes) (r : Result PolicyRefusal Codes)
    → after_last_header (splitlines text) ≡ some rest
    → join (10 ∷ []) rest ≡ quote ∷ (body ++ quote ∷ [])
    → decode_section (quote ∷ (body ++ quote ∷ [])) ≡ r
    → policy_task_text (some session) text ≡ r
unfolding policy_task_text
section_decoded session text body rest r found joined decoded =
    rw (found, policy_task_text) (rw (joined, strip-quoted body) decoded)

dumps_text-found :
    (prompt : Codes)
    → after_last_header (current_request_header ∷ dumps_text prompt ∷ [])
      ≡ some (dumps_text prompt ∷ [])
unfolding dumps_text after_last_header
dumps_text-found prompt = after_last_header-quoted (escape prompt ++ quote ∷ []) [] refl

dumps_text-join :
    (prompt : Codes)
    → join (10 ∷ []) (dumps_text prompt ∷ []) ≡ quote ∷ (escape prompt ++ quote ∷ [])
unfolding join dumps_text
dumps_text-join prompt = refl

decoded_as_dumped :
    (prompt : Codes) → decode_section (quote ∷ (escape prompt ++ quote ∷ [])) ≡ ok prompt
unfolding decode_section dumps_text
decoded_as_dumped prompt = rw (loads_text-dumps_text prompt, decode_section) refl

-- The text that the policy classifies in a session is the user's request itself, whatever the
-- history and the request say, if the request has no NEL, LINE SEPARATOR or PARAGRAPH SEPARATOR.
pub policy_task_text-assemble_session_prompt :
    (session : String) (context prompt : Codes)
    → any is_separator prompt ≡ false
    → policy_task_text (some session) (assemble_session_prompt context prompt) ≡ ok prompt
unfolding join
policy_task_text-assemble_session_prompt session context prompt clean =
    section_decoded session (assemble_session_prompt context prompt) (escape prompt)
      (dumps_text prompt ∷ []) (ok prompt)
      (tail_found context prompt (dumps_text prompt ∷ [])
        (rw (dumps_text-one_line prompt clean) (dumps_text-found prompt)))
      (dumps_text-join prompt) (decoded_as_dumped prompt)

codes_eq-last :
    (xs ys : Codes) (x y : ℕ) → (x == y) ≡ false → codes_eq (xs ++ x ∷ []) (ys ++ y ∷ []) ≡ false
unfolding codes_eq
codes_eq-last [] [] x y h = ground arith
codes_eq-last [] (d ∷ []) x y h = ground arith
codes_eq-last [] (d ∷ e ∷ ds) x y h = ground arith
codes_eq-last (c ∷ []) [] x y h = ground arith
codes_eq-last (c ∷ e ∷ cs) [] x y h = ground arith
codes_eq-last (c ∷ cs) (d ∷ ds) x y h = ground (arith, codes_eq-last cs ds x y)

last_line-none : (s : Codes) → after_last_header ((s ++ quote ∷ []) ∷ []) ≡ none
unfolding after_last_header current_request_header
last_line-none s =
    rw (codes_eq-last s (codes "[harness:current-request") quote b']' refl, after_last_header) refl

-- The two lines into which a separator cuts the encoded request.
dumps_text-separator :
    (a b : Codes) (c : ℕ)
    → is_separator c ≡ true
    → any is_separator a ≡ false
    → any is_separator b ≡ false
    → splitlines (dumps_text (a ++ c ∷ b)) ≡ (quote ∷ escape a) ∷ (escape b ++ quote ∷ []) ∷ []
unfolding dumps_text
dumps_text-separator a b c h clean_a clean_b =
    rw (escape-append a (c ∷ b), escape-separator c b h, append_assoc (escape a))
      (splitlines-break (quote ∷ escape a) (escape b ++ quote ∷ []) c
          (rw (escape-no_break a clean_a) refl) (ground arith) (ground arith)
        ∙ ap (λ ls. (quote ∷ escape a) ∷ ls)
            (splitlines-append_one (escape b) quote (escape-no_break b clean_b) refl))

decoded_refused :
    (a b : Codes) → decode_section (quote ∷ ((escape a ++ 10 ∷ b) ++ quote ∷ [])) ≡ err not_a_text
unfolding decode_section
decoded_refused a b =
    rw (append_assoc (escape a) (10 ∷ b) (quote ∷ []))
      (rw (loads_text-control a (b ++ quote ∷ []) 10 (omega arith), decode_section) refl)

-- A session request that has one NEL, LINE SEPARATOR or PARAGRAPH SEPARATOR is refused as a broken
-- envelope, whatever the history and the rest of the request are.
pub separator_refused :
    (session : String) (context a b : Codes) (c : ℕ)
    → is_separator c ≡ true
    → any is_separator a ≡ false
    → any is_separator b ≡ false
    → policy_task_text (some session) (assemble_session_prompt context (a ++ c ∷ b))
      ≡ err not_a_text
unfolding join after_last_header
separator_refused session context a b c h clean_a clean_b =
    let rest : List Codes = (quote ∷ escape a) ∷ (escape b ++ quote ∷ []) ∷ [] in
    section_decoded session (assemble_session_prompt context (a ++ c ∷ b))
      (escape a ++ 10 ∷ escape b) rest (err not_a_text)
      (tail_found context (a ++ c ∷ b) rest (
        rw (dumps_text-separator a b c h clean_a clean_b) (
          after_last_header-quoted (escape a) ((escape b ++ quote ∷ []) ∷ [])
            (last_line-none (escape b)))))
      (ap (λ x. quote ∷ x) (sym (append_assoc (escape a) (10 ∷ escape b) (quote ∷ []))))
      (decoded_refused a (escape b))
