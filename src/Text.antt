-- ===== src/Text.antt =====
-- Python text as a list of code points: the operations of `str` and of `json` that the program uses.
pub mod Codes
pub mod Json
pub mod Value
pub mod Lines
