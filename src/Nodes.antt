-- ===== src/Nodes.antt =====
-- The nodes' services (app/nodes).
pub mod Policy
pub mod Verifier
