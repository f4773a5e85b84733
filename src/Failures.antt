-- ===== src/Failures.antt =====
-- harness2/events.py, normalize_failure: the failures of engines and providers in the words of the
-- harness. A category is its text; str.lower is a parameter.
use ultimate_harness.Base.{
  String, Bool, true, false, ◌&&◌, ◌=s◌, is_some, Option, none, some, List, [], ◌∷◌, ◌++◌,
  if◌then◌else◌,
}
use ultimate_harness.Text.Codes.{Codes, codes, strip, join}
use ultimate_harness.Policy.Decide.{mentions}
pub mod Words
pub mod Taxonomy

-- The FAILURE_ constants.
abbrev pub failure_unknown : String
failure_unknown = "unknown_provider_failure"

abbrev pub failure_categories : List String
failure_categories =
    "quota_exhausted" ∷ "rate_limited" ∷ "authentication_failed" ∷ "authorization_failed"
    ∷ "model_unavailable" ∷ "provider_unavailable" ∷ "engine_unavailable" ∷ "timeout"
    ∷ "network_failure" ∷ "context_too_large" ∷ "invalid_request" ∷ "policy_denied"
    ∷ "engine_failure" ∷ failure_unknown ∷ []

-- _FAILURE_PATTERNS
abbrev pub failure_patterns : List (String × List String)
failure_patterns =
    (
      "rate_limited",
      "rate limit" ∷ "too many requests" ∷ "429" ∷ "tokens per minute" ∷ "requests per minute"
          ∷ "tpm" ∷ "rpm" ∷ "slow down" ∷ [],
    )
    ∷ (
      "quota_exhausted",
      "usage limit" ∷ "quota" ∷ "insufficient balance" ∷ "billing" ∷ "out of credits"
          ∷ "credit balance" ∷ "plan and billing" ∷ [],
    )
    ∷ (
      "authentication_failed",
      "invalid api key" ∷ "incorrect api key" ∷ "api key is not configured" ∷ "missing api key"
          ∷ "authentication failed" ∷ "invalid credentials" ∷ "401" ∷ [],
    )
    ∷ (
      "authorization_failed",
      "forbidden" ∷ "permission denied" ∷ "not authorized" ∷ "authorization failed" ∷ "403"
          ∷ "not permitted" ∷ [],
    )
    ∷ (
      "model_unavailable",
      "model not found" ∷ "model does not exist" ∷ "unknown model" ∷ "model unavailable"
          ∷ "no such model" ∷ "model id" ∷ [],
    )
    ∷ (
      "context_too_large",
      "context length" ∷ "context window" ∷ "too long" ∷ "maximum context"
          ∷ "reduce your message size" ∷ "token limit" ∷ "max tokens" ∷ [],
    )
    ∷ (
      "network_failure",
      "network" ∷ "connection" ∷ "dns" ∷ "socket" ∷ "tls" ∷ "certificate" ∷ "timed out connecting"
          ∷ [],
    )
    ∷ ("policy_denied", "policy" ∷ "not allowed" ∷ "blocked" ∷ "refused by policy" ∷ [])
    ∷ []

-- _FAILURE_CODE_MAP
abbrev pub failure_code_map : List (String × String)
failure_code_map =
    ("timeout", "timeout")
    ∷ ("unavailable", "engine_unavailable")
    ∷ ("daemon_unavailable", "provider_unavailable")
    ∷ ("spawn_error", "engine_failure")
    ∷ ("process_error", "engine_failure")
    ∷ ("engine_failure", "engine_failure")
    ∷ ("policy_denied", "policy_denied")
    ∷ ("disabled", "policy_denied")
    ∷ ("unsafe_endpoint", "policy_denied")
    ∷ ("invalid_execution", "invalid_request")
    ∷ ("invalid_request", "invalid_request")
    ∷ ("invalid_model", "model_unavailable")
    ∷ ("missing_credential", "authentication_failed")
    ∷ ("authentication_failed", "authentication_failed")
    ∷ ("context_too_large", "context_too_large")
    ∷ ("local_error", "provider_unavailable")
    ∷ ("output_limit", "context_too_large")
    ∷ ("event_limit", "context_too_large")
    ∷ ("malformed_stream", "engine_failure")
    ∷ ("truncated_stream", "engine_failure")
    ∷ ("trailing_stream", "engine_failure")
    ∷ []

-- A dict read by `in` and `[ ]`.
unfoldable pub get : String → List (String × String) → Option String
get key [] = none
get key ((k, value) ∷ rest) = if k =s key then some value else get key rest

-- _FAILURE_CODE_MAP at a code that may be None
unfoldable pub mapped : Option String → Option String
unfolding get
mapped none = none
mapped (some code) = get code failure_code_map

abbrev pub is_text : String → Option String → Bool
is_text s none = false
is_text s (some t) = t =s s

-- `x or ""`
abbrev pub codes_of : Option String → Codes
codes_of none = []
codes_of (some s) = codes s

-- `not text`
abbrev pub is_empty : Codes → Bool
is_empty [] = true
is_empty (c ∷ cs) = false

abbrev pub or_unknown : Option String → String
or_unknown none = failure_unknown
or_unknown (some category) = category

-- `[part for part in parts if part]`
unfoldable pub nonempty_parts : List Codes → List Codes
nonempty_parts [] = []
nonempty_parts ([] ∷ parts) = nonempty_parts parts
nonempty_parts ((c ∷ cs) ∷ parts) = (c ∷ cs) ∷ nonempty_parts parts

-- The loop over the patterns.
unfoldable pub first_category : List (String × List String) → Codes → Option String
first_category [] text = none
first_category ((category, needles) ∷ rest) text =
    if mentions needles text then some category else first_category rest text

-- " ".join(part for part in (error_code or "", message or "") if part)
unfoldable pub failure_text : (error_code message : Option String) → Codes
unfolding join nonempty_parts codes
failure_text error_code message =
    join (32 ∷ []) (nonempty_parts (codes_of error_code ∷ codes_of message ∷ []))

unfoldable pub normalize_failure :
    (lower : Codes → Codes) → (error_code message : Option String) → String
normalize_failure lower error_code message =
    if is_text "circuit_open" error_code
    then "provider_unavailable"
    else if is_some (mapped error_code) && is_empty (strip (codes_of message))
    then or_unknown (mapped error_code)
    else let text = lower (failure_text error_code message) in
      if is_empty text then failure_unknown else elim (first_category failure_patterns text) [
        | some category ↦ category
        | none ↦ or_unknown (mapped error_code)
      ]
