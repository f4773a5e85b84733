-- ===== src/Examples.antt =====
-- Runs of the definitions on concrete inputs.
pub mod Runs
pub mod Tasks
pub mod Events
pub mod Texts
pub mod Routing
pub mod Circuits
pub mod Audits
pub mod Orchestration
pub mod Conversations
