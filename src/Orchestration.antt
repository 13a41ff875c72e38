-- ===== src/Orchestration.antt =====
-- The workflow graph, its plan and its state (app/orchestration).
pub mod Graph
pub mod Plan
pub mod State
