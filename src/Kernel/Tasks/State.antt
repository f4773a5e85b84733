-- ===== src/Kernel/Tasks/State.antt =====
-- harness2/kernel/tasks.py, TaskState and ALLOWED_TRANSITIONS.
use ultimate_harness.Base.{String, Bool, true, false}

pub data TaskState : Type 0 where
  created planned ready running waiting verifying completed failed cancelled blocked retrying
        degraded recovering :
      TaskState

-- TaskState.value
abbrev pub state_value : TaskState → String
state_value created = "created"
state_value planned = "planned"
state_value ready = "ready"
state_value running = "running"
state_value waiting = "waiting"
state_value verifying = "verifying"
state_value completed = "completed"
state_value failed = "failed"
state_value cancelled = "cancelled"
state_value blocked = "blocked"
state_value retrying = "retrying"
state_value degraded = "degraded"
state_value recovering = "recovering"

-- `state in TERMINAL_STATES`
abbrev pub is_terminal : TaskState → Bool
is_terminal completed = true
is_terminal failed = true
is_terminal cancelled = true
is_terminal _ = false

abbrev pub is_running : TaskState → Bool
is_running running = true
is_running _ = false

abbrev pub is_failed : TaskState → Bool
is_failed failed = true
is_failed _ = false

-- The states from which `claim` starts an attempt.
abbrev pub is_claimable : TaskState → Bool
is_claimable ready = true
is_claimable retrying = true
is_claimable recovering = true
is_claimable _ = false

-- `to in ALLOWED_TRANSITIONS[from]`
abbrev pub is_allowed : TaskState → TaskState → Bool
is_allowed created planned = true
is_allowed created cancelled = true
is_allowed created blocked = true
is_allowed planned ready = true
is_allowed planned blocked = true
is_allowed planned cancelled = true
is_allowed ready running = true
is_allowed ready cancelled = true
is_allowed ready blocked = true
is_allowed running waiting = true
is_allowed running degraded = true
is_allowed running cancelled = true
is_allowed waiting ready = true
is_allowed waiting running = true
is_allowed waiting cancelled = true
is_allowed waiting blocked = true
is_allowed verifying degraded = true
is_allowed retrying ready = true
is_allowed retrying running = true
is_allowed retrying failed = true
is_allowed retrying cancelled = true
is_allowed degraded recovering = true
is_allowed degraded retrying = true
is_allowed degraded failed = true
is_allowed degraded cancelled = true
is_allowed recovering ready = true
is_allowed recovering running = true
is_allowed recovering failed = true
is_allowed recovering cancelled = true
is_allowed blocked ready = true
is_allowed blocked cancelled = true
is_allowed blocked failed = true
is_allowed failed retrying = true
is_allowed _ _ = false
