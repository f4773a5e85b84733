-- ===== src/Lib.antt =====
-- Harness v2: a local control process that accepts tasks, routes them to engines and keeps what
-- happened. This library models the parts of it that decide and that keep state.
--
-- Parts, with the path of the code from the root of the repository:
-- - Kernel.Events: harness2/kernel/event_bus.py, EventBus. A log of typed events with deduplication,
--   pages and cursors of consumers. `append`, `replay`, `ack`, `cursor` have the names of the code.
-- - Kernel.Tasks: harness2/kernel/tasks.py, TaskRepository. State and Store hold the rows and the
--   statements; Submit, Control, Lease, Cancel and Recovery hold one function for each method. The
--   modules Frames, Effects, LeaseEffects, ClaimEffects, SubmitEffects say what a call that returned
--   did to the tables; Invariant, Puts, Preservation, LeasePreservation and Steps carry the invariant
--   over runs; Recovering, RecoveryQuery, Overdue and Recovered follow recover_expired; Edges has the
--   state machine of a task and Machine shows that the operations refine it; Fencing, Ending, Final and Resubmit prove what callers rely on.
-- - Text: json.dumps and json.loads of texts, canonical objects and str.splitlines, as far as the
--   other parts use them. A text is a list of code points.
-- - Sessions: harness2/sessions.py, the envelope of a session (Framing), the builder of its history
--   (Context), and SessionService: its rows (Service), its turns (Service.Turns) and run_session_turn
--   (Service.Conversation). Retry and Marks follow a turn through the orchestrator.
-- - Policy: harness2/policy.py, policy_task_text (TaskText) and PolicyRouter.decide (Decide).
-- - Router: harness2/router.py, the candidates of a route (Eligible) and their scores (Scores).
-- - Resources: harness2/kernel/resources.py, ResourceGovernor.evaluate.
-- - Circuit: harness2/circuit.py and the table of circuits in harness2/store.py.
-- - Audit: the table of audit entries in harness2/store.py, append_audit and verify_audit, with what a
--   verified chain says (Chain, Binding).
-- - Failures: harness2/events.py, normalize_failure; Words describes what it reads.
-- - Orchestrator: harness2/orchestrator.py, prepare and run, with record_run of harness2/store.py:
--   the values that a run computes (Route), its two loops (Attempts) and the whole of it (Run). Keeps
--   and Attempts.Keeps have the rule for what a run keeps; Calls, Bounds and Chain apply it.
-- - Examples: runs on concrete inputs. Base: helpers that all parts share.
--
-- A task emits its events through the bus in the transaction that changes the task; the policy reads
-- the envelope that the session wrote, and takes its routes from the router. A session turn is a run of
-- the orchestrator, which asks the policy for a route, the circuits for leave and the engines for an
-- answer, and writes the audit log and the table of runs.
--
-- Conventions. Where a method makes several transactions (Orchestrator, Sessions.Service), it is a
-- function from the state to a result and the state that it leaves, also where it ends with an
-- exception. An engine is a function from the number of clock readings so far to its answer, so
-- that it may answer each call differently; the calls are kept in the state to speak about them. A
-- call inside a database transaction is a function from the database to a value with the new
-- database, or an error, which rolls back. Times and durations are natural numbers of seconds, and
-- a method of the circuit breaker reads the clock once. Identifiers that the code draws at random,
-- and the clock, are arguments (Fresh). SHA-256, the encryption of session turns, the redaction of
-- error texts, str.lower, the file system and the environment are parameters. prepare runs its
-- transitions in the caller's transaction. No definition runs on fuel except the printing of a
-- number, which has as much as the number is large.
--
-- Not modelled: processes, sockets, engines, files, cryptography, the command line, jobs and the
-- supervisor, the context compiler, skills, and the checkpoints of running tasks; of the parts that
-- are modelled, texts with a lone surrogate, which the code cannot encode, a negative sequence
-- number given to ack, and the comparison of the identity of a working directory that was prepared
-- before.
pub mod Base
pub mod Circuit
pub mod Text
pub mod Policy
pub mod Sessions
pub mod Kernel
pub mod Router
pub mod Resources
pub mod Examples
pub mod Audit
pub mod Failures
pub mod Orchestrator
