-- ===== src/Kernel/Tasks/Edges.antt =====
-- The state machine of a task, written out: which states each operation may lead from and to.
use ultimate_harness.Base.{String, Bool, true, false, Option, none, some}
use ultimate_harness.Text.Codes.{Codes}
use ultimate_harness.Kernel.Tasks.State.{
  TaskState, created, planned, ready, running, waiting, verifying, completed, failed, cancelled,
  blocked, retrying, degraded, recovering,
}
use ultimate_harness.Kernel.Tasks.Store.{Db}
use ultimate_harness.Kernel.Tasks.Steps.{
  Step, submits, moves, prepares, claims, renews, completes, fails, cancels, retries, recovers,
}

-- The state machine of a task: where a move may start that ends in a state. `none` is a task that was
-- not submitted.
abbrev pub comes_from : (to from : TaskState) → Bool
comes_from planned created = true
comes_from ready planned = true
comes_from ready waiting = true
comes_from ready retrying = true
comes_from ready recovering = true
comes_from ready blocked = true
comes_from running ready = true
comes_from running waiting = true
comes_from running retrying = true
comes_from running recovering = true
comes_from waiting running = true
comes_from degraded running = true
comes_from degraded verifying = true
comes_from blocked created = true
comes_from blocked planned = true
comes_from blocked ready = true
comes_from blocked waiting = true
comes_from recovering degraded = true
comes_from retrying degraded = true
comes_from retrying failed = true
comes_from failed retrying = true
comes_from failed degraded = true
comes_from failed recovering = true
comes_from failed blocked = true
comes_from cancelled created = true
comes_from cancelled planned = true
comes_from cancelled ready = true
comes_from cancelled running = true
comes_from cancelled waiting = true
comes_from cancelled retrying = true
comes_from cancelled degraded = true
comes_from cancelled recovering = true
comes_from cancelled blocked = true
comes_from _ _ = false

-- The edges of each operation.
abbrev pub submit_edge : Option TaskState → TaskState → Bool
submit_edge none created = true
submit_edge _ _ = false

abbrev pub move_edge : Option TaskState → TaskState → Bool
move_edge none to = false
move_edge (some from) to = comes_from to from

abbrev pub prepare_edge : Option TaskState → TaskState → Bool
prepare_edge (some created) ready = true
prepare_edge (some planned) ready = true
prepare_edge (some blocked) ready = true
prepare_edge _ _ = false

abbrev pub claim_edge : Option TaskState → TaskState → Bool
claim_edge (some ready) running = true
claim_edge (some retrying) running = true
claim_edge (some recovering) running = true
claim_edge _ _ = false

abbrev pub end_edge : (success retryable : Bool) → Option TaskState → TaskState → Bool
end_edge true retryable (some running) completed = true
end_edge false true (some running) retrying = true
end_edge false retryable (some running) failed = true
end_edge _ _ _ _ = false

abbrev pub cancel_edge : Option TaskState → TaskState → Bool
cancel_edge (some from) cancelled = comes_from cancelled from
cancel_edge _ _ = false

abbrev pub retry_edge : Option TaskState → TaskState → Bool
retry_edge (some failed) retrying = true
retry_edge _ _ = false

abbrev pub recover_edge : Option TaskState → TaskState → Bool
recover_edge (some running) recovering = true
recover_edge (some running) failed = true
recover_edge _ _ = false

-- The edges that an operation with its arguments may take.
abbrev pub edge :
    {sha256 : Codes → String} {db db' : Db}
    → Step sha256 db db'
    → Option TaskState
    → TaskState
    → Bool
edge (submits q s now fresh db db' r h) = submit_edge
edge (moves id to reason causation now fresh db db' r h) = move_edge
edge (prepares id now fresh db db' r h) = prepare_edge
edge (claims id plan owner seconds now aid fresh db db' r h) = claim_edge
edge (renews lease seconds now fresh db db' r h) = λ from to. false
edge (completes lease success outcome error retryable retry_at now fresh db db' r h) =
    end_edge success retryable
edge (fails lease error retryable retry_at now fresh db db' r h) = end_edge false retryable
edge (cancels id lease now fresh db db' r h) = cancel_edge
edge (retries id now fresh db db' r h) = retry_edge
edge (recovers now limit fresh db db' n h) = recover_edge
