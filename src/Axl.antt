-- ===== src/Axl.antt =====
-- Peers of the agent exchange layer (app/axl).
pub mod Registry
pub mod Capability
