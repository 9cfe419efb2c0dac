-- ===== src/Clarity.antt =====
-- Clarity, the language of the contracts under contracts/, and the contracts that they all call.
pub mod Outcome
pub mod Cursor
pub mod Types
pub mod Walk
pub mod Reading
