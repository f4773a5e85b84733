-- ===== src/Policy/Decide.antt =====
-- harness2/policy.py, PolicyRouter.decide. The file system (prepare_working_directory, os.path), the
-- environment and str.lower are parameters.
use Prim.Native.String
use ultimate_harness.Base.{
  String, Bool, true, false, not, ◌&&◌, ◌||◌, ◌=s◌, leb, any, length, Option, none, some, List, [],
  ◌∷◌, if◌then◌else◌,
}
use ultimate_harness.Base.Int.{ℤ}
use ultimate_harness.Base.Result.{Result, ok, err}
use ultimate_harness.Text.Codes.{Codes, codes, codes_eq}
use ultimate_harness.Policy.TaskText.{
  PolicyRefusal, guarded_root, unsafe_directory, sensitive_needs_local, untrusted_needs_opencode,
  unknown_engine, unavailable_engine, private_hermes, messaging_needs_hermes, no_engine,
  policy_task_text,
}
use ultimate_harness.Router.{EngineStatus, Statuses, CandidateRoute, assemble_candidates}

-- RunRequest, without the timeout, which is for the engines.
pub record RunRequest : Type 0 where
  pub prompt : Codes
  pub engine : String
  pub agent : Option String
  pub model : Option String
  pub provider : Option String
  pub cwd : Option String
  pub sensitive : Bool
  pub untrusted : Bool
  pub no_fallback : Bool
  pub dry_run : Bool
  pub retries : ℤ
  pub harness_session_id : Option String

pub record RoutingDecision : Type 0 where
  pub engine : String
  pub agent : Option String
  pub model : Option String
  pub reason : String
  pub fallbacks : List String
  pub task_class : String
  pub candidates : List String
  pub skipped : List (String × String)

-- What the code reads of its surroundings. `inside root path` is `_inside(path, root)` for a path
-- that is there.
pub record Surroundings : Type 0 where
  pub prepare_working_directory : Option String → Option String
  pub guarded_roots : List String
  pub inside : String → String → Bool
  pub lower : Codes → Codes
  pub default_agent : Option String
  pub default_model : Option String
  pub order : List String

-- `a or b` on texts that may be absent
abbrev pub ◌or◌ : Option String → Option String → Option String
◌or◌ none b = b
◌or◌ (some a) b = if a =s "" then b else some a

abbrev pub is_prefix : Codes → Codes → Bool
is_prefix [] text = true
is_prefix (c ∷ cs) [] = false
is_prefix (c ∷ cs) (d ∷ ds) = codes_eq (c ∷ []) (d ∷ []) && is_prefix cs ds

-- `token in text`
abbrev pub occurs : Codes → Codes → Bool
occurs token [] = is_prefix token []
occurs token (d ∷ ds) = is_prefix token (d ∷ ds) || occurs token ds

abbrev pub mentions : List String → Codes → Bool
mentions tokens text = any (λ token. occurs (codes token) text) tokens

-- _DURABLE, _MESSAGING and _PARALLEL
abbrev pub durable_tokens : List String
durable_tokens =
    "long-running" ∷ "long running" ∷ "background agent" ∷ "persistent" ∷ "ipython"
    ∷ "recursive subagent" ∷ "schedule" ∷ "heartbeat" ∷ "detach" ∷ "reattach" ∷ "rlm" ∷ []

abbrev pub messaging_tokens : List String
messaging_tokens =
    "telegram" ∷ "discord" ∷ "whatsapp" ∷ "signal" ∷ "send message" ∷ "broadcast" ∷ "gateway" ∷ []

abbrev pub parallel_tokens : List String
parallel_tokens =
    "parallel agents" ∷ "fan out" ∷ "fan-out" ∷ "delegate in parallel" ∷ "multiple workers" ∷ []

-- PolicyRouter._usable
abbrev pub is_usable : Option EngineStatus → Bool
is_usable none = false
is_usable (some status) = status.available && status.enabled

abbrev pub is_healthy : Option EngineStatus → Bool
is_healthy none = false
is_healthy (some status) = status.healthy

-- tuple(c for c in route.candidates if c != engine)
abbrev pub without : String → List String → List String
without engine [] = []
without engine (c ∷ cs) = let rest = without engine cs in if c =s engine then rest else c ∷ rest

-- A decision without a route behind it.
abbrev pub direct_decision :
    (engine : String) (agent model : Option String) (reason task_class : String) → RoutingDecision
direct_decision engine agent model reason task_class = record {
  engine = engine;
  agent = agent;
  model = model;
  reason = reason;
  fallbacks = [];
  task_class = task_class;
  candidates = [];
  skipped = [];
}

-- A decision along a route; the fallbacks are the other candidates.
abbrev pub routed_decision :
    (engine : String) (agent model : Option String) (reason task_class : String)
    → CandidateRoute
    → RoutingDecision
routed_decision engine agent model reason task_class route = record {
  engine = engine;
  agent = agent;
  model = model;
  reason = reason;
  fallbacks = without engine route.candidates;
  task_class = task_class;
  candidates = route.candidates;
  skipped = route.skipped;
}

-- expert_for_task
abbrev pub expert_reason : String
expert_reason = "trusted deterministic routing; no external router executed"

module _ (env : Surroundings) (statuses : Statuses) where
  abbrev pub route_from : String → CandidateRoute
  route_from primary = assemble_candidates env.order primary statuses none

  abbrev pub usable : String → Bool
  usable name = is_usable (statuses name)

  unfoldable pub decide_sensitive : RunRequest → Result PolicyRefusal RoutingDecision
  decide_sensitive request =
      if not (usable "local") || not (is_healthy (statuses "local"))
      then err sensitive_needs_local
      else ok
          (direct_decision "local" none request.model "sensitive policy: loopback only" "sensitive")

  unfoldable pub decide_untrusted : RunRequest → Result PolicyRefusal RoutingDecision
  decide_untrusted request =
      if not (request.engine =s "auto") && not (request.engine =s "opencode")
      then err untrusted_needs_opencode
      else ok (
          direct_decision "opencode" (some "harness-sandbox") request.model
            "untrusted policy: plugins off, read-only sandbox agent" "untrusted")

  abbrev pub is_agent_engine : String → Bool
  is_agent_engine engine = engine =s "opencode" || engine =s "zen"

  unfoldable pub decide_explicit : RunRequest → Result PolicyRefusal RoutingDecision
  decide_explicit request = elim (statuses request.engine) [
    | none ↦ err unknown_engine
    | some status ↦
        if not (is_usable (some status))
        then err unavailable_engine
        else if request.engine =s "hermes" && (request.sensitive || request.untrusted)
        then err private_hermes
        else let chosen_agent =
            if is_agent_engine request.engine then ◌or◌ env.default_agent none else none in
          ok
            (record (direct_decision request.engine (◌or◌ request.agent chosen_agent)
              (◌or◌ request.model (◌or◌ request.model (◌or◌ env.default_model none)))
              "explicit engine selection" "explicit") { candidates = request.engine ∷ [] })
  ]

  -- The short general prompts go to the direct engine, the others to the control plane.
  unfoldable pub decide_general : RunRequest → Codes → Result PolicyRefusal RoutingDecision
  decide_general request task_text =
      let model = ◌or◌ request.model (◌or◌ env.default_model none) in
      let fast = route_from "direct" in
      let route = route_from "opencode" in
      if is_healthy (statuses "direct") && leb (length task_text) 200 && some_engine fast
      then ok (
          routed_decision "direct" none model "Q&A fast path (short general prompt; direct REST)"
            "fast" fast)
      else if some_engine route
      then ok (
          routed_decision "opencode" (◌or◌ request.agent (◌or◌ env.default_agent none))
            (◌or◌ request.model model) (String.◌++◌ "OpenCode control-plane policy; " expert_reason)
            "control" route)
      else err no_engine
    where
      some_engine : CandidateRoute → Bool
      some_engine route = elim route.candidates [ [] ↦ false | c ∷ cs ↦ true ]

  unfoldable pub decide_auto : RunRequest → Codes → Result PolicyRefusal RoutingDecision
  unfolding decide_general
  decide_auto request task_text =
      let text = env.lower task_text in
      if mentions messaging_tokens text
      then if usable "hermes"
        then ok (direct_decision "hermes" none none "messaging capability required" "messaging")
        else err messaging_needs_hermes
      else if mentions parallel_tokens text && usable "hermes"
      then ok (
          routed_decision "hermes" none none "parallel worker policy" "parallel"
            (route_from "hermes"))
      else if mentions durable_tokens text && usable "prime"
      then ok (
          routed_decision "prime" none request.model "durable/RLM capability required" "durable"
            (route_from "prime"))
      else if not (usable "opencode") && usable "prime"
      then ok (direct_decision "prime" none request.model "OpenCode unavailable" "fallback")
      else decide_general request task_text

  -- The part of decide behind the guards.
  unfoldable pub decide_task : RunRequest → Codes → Result PolicyRefusal RoutingDecision
  unfolding decide_sensitive decide_untrusted decide_explicit decide_auto
  decide_task request task_text =
      if request.sensitive
      then decide_sensitive request
      else if request.untrusted
      then decide_untrusted request
      else if not (request.engine =s "auto")
      then decide_explicit request
      else decide_auto request task_text

  -- _inside: an absent or an empty path is inside no root.
  abbrev pub is_inside : Option String → String → Bool
  is_inside none root = false
  is_inside (some path) root = if path =s "" then false else env.inside root path

  -- PolicyRouter.decide
  unfoldable pub decide : RunRequest → Result PolicyRefusal RoutingDecision
  unfolding decide_task
  decide request = elim (env.prepare_working_directory request.cwd) [
    | none ↦ err unsafe_directory
    | some cwd ↦
        if any (is_inside (some cwd)) env.guarded_roots
        then err guarded_root
        else elim (policy_task_text request.harness_session_id request.prompt) [
          | err x ↦ err x
          | ok task_text ↦ decide_task request task_text
        ]
  ]
