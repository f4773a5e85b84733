-- ===== src/Router.antt =====
-- harness2/router.py, fallback_order and assemble_candidates. The engines' statuses are a function of
-- the name, as the dict of the caller is.
use ultimate_harness.Base.{
  String, Bool, true, false, not, ◌&&◌, ◌=s◌, Option, none, some, List, [], ◌∷◌, ◌++◌, mem_text,
  if◌then◌else◌,
}
use Prim.Native.String
pub mod Eligible
pub mod Scores

-- EngineStatus of harness2/models.py: what the routing reads of it.
pub record EngineStatus : Type 0 where
  pub available : Bool
  pub healthy : Bool
  pub enabled : Bool
  pub detail : String
  pub capabilities : List String

abbrev pub Statuses : Type 0
Statuses = String → Option EngineStatus

-- DEFAULT_ENGINE_PREFERENCE
abbrev pub default_engine_preference : List String
default_engine_preference = "opencode" ∷ "prime" ∷ "zen" ∷ "direct" ∷ "hermes" ∷ "local" ∷ []

-- fallback_order: `configured` has the names of HARNESS_FALLBACK_ORDER between its commas, stripped,
-- those that are not empty.
abbrev pub fallback_order : List String → List String
fallback_order [] = default_engine_preference
fallback_order (name ∷ names) = name ∷ names

pub record CandidateRoute : Type 0 where
  pub candidates : List String
  pub skipped : List (String × String)

-- The variables that `consider` writes.
pub record Considered : Type 0 where
  pub seen : List String
  pub route : CandidateRoute

-- `capability and capability not in status.capabilities`
abbrev pub misses : Option String → EngineStatus → Bool
misses none status = false
misses (some capability) status =
    not (capability =s "") && not (mem_text capability status.capabilities)

abbrev pub capability_text : Option String → String
capability_text none = ""
capability_text (some capability) = capability

abbrev pub detail_or : String → String → String
detail_or default detail = if detail =s "" then default else detail

-- Why an engine is skipped, when it is.
abbrev pub skip_reason : Option String → Option EngineStatus → Option String
skip_reason capability none = some "unknown engine"
skip_reason capability (some status) =
    if not status.enabled
    then some (String.◌++◌ "disabled: " (detail_or "not enabled" status.detail))
    else if not status.available
    then some (String.◌++◌ "unavailable: " status.detail)
    else if not status.healthy
    then some (String.◌++◌ "unhealthy: " status.detail)
    else if misses capability status
    then some (String.◌++◌ "missing capability " (capability_text capability))
    else none

abbrev pub add_engine : String → Option String → CandidateRoute → CandidateRoute
add_engine name none route = record route { candidates = route.candidates ++ name ∷ [] }
add_engine name (some reason) route = record route {
  skipped = route.skipped ++ (name, reason) ∷ [];
}

-- consider, in assemble_candidates
unfoldable pub consider : Statuses → Option String → String → Considered → Considered
consider statuses capability name st = if mem_text name st.seen then st else record {
  seen = name ∷ st.seen;
  route = add_engine name (skip_reason capability (statuses name)) st.route;
}

unfoldable pub consider_all : Statuses → Option String → List String → Considered → Considered
unfolding consider
consider_all statuses capability [] st = st
consider_all statuses capability (name ∷ names) st =
    consider_all statuses capability names (consider statuses capability name st)

-- assemble_candidates: `order` is what fallback_order returned.
unfoldable pub assemble_candidates :
    List String → (primary : String) → Statuses → (capability : Option String) → CandidateRoute
unfolding consider_all
assemble_candidates order primary statuses capability =
    (consider_all statuses capability (primary ∷ order)
      (record { seen = []; route = record { candidates = []; skipped = [] } })).route
