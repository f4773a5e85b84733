-- ===== src/Policy.antt =====
-- harness2/policy.py: the classification of a request.
pub mod TaskText
pub mod Decide
pub mod Refusals
