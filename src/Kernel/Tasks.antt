-- ===== src/Kernel/Tasks.antt =====
-- harness2/kernel/tasks.py: the persistent task state machine with fenced attempts.
pub mod State
pub mod Store
pub mod Submit
pub mod Control
pub mod Lease
pub mod Cancel
pub mod Recovery
pub mod Recovering
pub mod RecoveryQuery
pub mod Overdue
pub mod Recovered
pub mod Edges
pub mod Machine
pub mod Frames
pub mod Effects
pub mod LeaseEffects
pub mod Invariant
pub mod Preservation
pub mod Puts
pub mod ClaimEffects
pub mod LeasePreservation
pub mod SubmitEffects
pub mod Steps
pub mod Fencing
pub mod Ending
pub mod Final
pub mod Resubmit
