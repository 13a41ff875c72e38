-- ===== src/Identity.antt =====
-- Hashing and signing of agent executions (app/identity).
pub mod Hashing
pub mod Signing
pub mod Roundtrip
