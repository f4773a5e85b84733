-- ===== src/Examples/Texts.antt =====
-- The theorems on texts and on the envelope of a session, applied.
use ultimate_harness.Base.{
  ℕ, ◌≤◌, String, ◌≡◌, refl, false, some, List, [], ◌∷◌, ◌++◌, length, map, select,
}
use ultimate_harness.Base.Result.{ok, err}
use ultimate_harness.Text.Codes.{codes, utf8_size}
use ultimate_harness.Text.Value.{
  show_digits, show, codes_lt, insert_field, sort_fields, render, dumps_object,
}
use ultimate_harness.Sessions.Context.{
  TurnRecord, SessionContextBuilder, is_eligible_turn, line, select_turns, build,
}
use ultimate_harness.Sessions.Context.Budget.{build-limits, build_complete}
use ultimate_harness.Text.Json.{dumps_text, escape_char, escape}
use ultimate_harness.Policy.TaskText.{not_a_text, policy_task_text}
use ultimate_harness.Sessions.Framing.{assemble_session_prompt}
use ultimate_harness.Sessions.Framing.TaskText.{
  policy_task_text-assemble_session_prompt, separator_refused,
}

policy_task_text-assemble_session_prompt_example :
    policy_task_text (some "s") (assemble_session_prompt [] (104 ∷ 10 ∷ 105 ∷ []))
    ≡ ok (104 ∷ 10 ∷ 105 ∷ [])
policy_task_text-assemble_session_prompt_example =
    policy_task_text-assemble_session_prompt "s" [] (104 ∷ 10 ∷ 105 ∷ []) refl

-- A LINE SEPARATOR between two letters.
separator_refused_example :
    policy_task_text (some "s") (assemble_session_prompt [] ((104 ∷ []) ++ 8232 ∷ 105 ∷ []))
    ≡ err not_a_text
separator_refused_example = separator_refused "s" [] (104 ∷ []) (105 ∷ []) 8232 refl refl refl

abbrev turn : ℕ → String → TurnRecord
turn n status = record {
  seq = n;
  role = "user";
  status = status;
  content = 104 ∷ 105 ∷ [];
  sensitive = false;
  untrusted = false;
}

abbrev builder : SessionContextBuilder
builder = record { turn_limit = 2; byte_limit = 256 }

-- Three turns, of which the second is not completed.
abbrev turns : List TurnRecord
turns = turn 1 "completed" ∷ turn 2 "pending" ∷ turn 3 "completed" ∷ []

build-limits_example :
    (length (build builder turns false false).included_seq ≤ 2)
    × (utf8_size (build builder turns false false).body ≤ 256)
build-limits_example = build-limits builder turns false false

fits : (build builder turns false false).truncated ≡ false
unfolding codes escape_char escape dumps_text show_digits show codes_lt insert_field sort_fields
    render dumps_object utf8_size line select_turns build
fits = refl

build_complete_example :
    (build builder turns false false).included_seq
    ≡ map (λ (t : TurnRecord). t.seq) (select is_eligible_turn turns)
build_complete_example = build_complete builder turns false false fits
