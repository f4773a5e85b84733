-- ===== src/Sessions/Service/Marks.antt =====
-- The mark `sensitive` from a session's history to the engines that are called.
use ultimate_harness.Base.{◌≡◌, All}
use ultimate_harness.Base.Result.{Result}
use ultimate_harness.Base.Io.{Keeps}
use ultimate_harness.Text.Codes.{Codes}
use ultimate_harness.Orchestrator.{Call}
use ultimate_harness.Sessions.Service.{SessionState}

abbrev IsLocal : Call → Type 0
IsLocal c = c.engine ≡ "local"

-- Every call that was made went to the local engine.
abbrev AllLocal : SessionState → Type 0
AllLocal s = All IsLocal s.harness.calls
