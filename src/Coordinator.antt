-- ===== src/Coordinator.antt =====
-- The coordinator's dispatch of one job to the specialists (app/coordinator).
pub mod Memo
pub mod Dispatch
pub mod Run
pub mod Synthesis
pub mod Submission
