-- ===== src/Policy/TaskText.antt =====
-- harness2/policy.py, policy_task_text: the text of a request that the policy classifies.
use ultimate_harness.Base.{String, Option, none, some, List, [], ◌∷◌, if◌then◌else◌}
use ultimate_harness.Base.Result.{Result, ok, err}
use ultimate_harness.Text.Codes.{Codes, codes, codes_eq, strip, join}
use ultimate_harness.Text.Json.{loads_text}
use ultimate_harness.Text.Lines.{splitlines}

-- Why a request is refused: a broken session envelope, or a rule of the router. The messages are
-- not modelled.
pub data PolicyRefusal : Type 0 where
  missing_section empty_section not_a_text : PolicyRefusal
  guarded_root unsafe_directory : PolicyRefusal
  sensitive_needs_local untrusted_needs_opencode : PolicyRefusal
  unknown_engine unavailable_engine private_hermes messaging_needs_hermes no_engine : PolicyRefusal

-- The code points of _CURRENT_REQUEST_HEADER.
unfoldable pub current_request_header : Codes
unfolding codes
current_request_header = codes "[harness:current-request]"

-- The lines behind the last line that equals the header. The source walks from the end.
unfoldable pub after_last_header : List Codes → Option (List Codes)
after_last_header [] = none
after_last_header (line ∷ lines) = elim (after_last_header lines) [
  | some rest ↦ some rest
  | none ↦ if codes_eq line current_request_header then some lines else none
]

unfoldable pub decode_section : Codes → Result PolicyRefusal Codes
decode_section [] = err empty_section
decode_section (c ∷ cs) = elim (loads_text (c ∷ cs)) [ none ↦ err not_a_text | some v ↦ ok v ]

-- `harness_session_id is None` is `session = none`. A current request that is no JSON value and one
-- that is a value of another type are refused alike.
unfoldable pub policy_task_text : Option String → Codes → Result PolicyRefusal Codes
unfolding after_last_header decode_section
policy_task_text none prompt = ok prompt
policy_task_text (some session) prompt = elim (after_last_header (splitlines prompt)) [
  | none ↦ err missing_section
  | some rest ↦ decode_section (strip (join (10 ∷ []) rest))
]
