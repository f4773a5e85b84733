-- ===== src/Sessions.antt =====
-- harness2/sessions.py: conversation sessions.
pub mod Framing
pub mod Context
pub mod Service
