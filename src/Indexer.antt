-- ===== src/Indexer.antt =====
-- The chain indexer (app/indexer): events, the scheduler that follows the chain, and projections.
pub mod Events
pub mod Scheduler
pub mod Projections
pub mod Decoding
