-- ===== src/Chain.antt =====
-- Writing receipts to the Gensyn test network, and reading them back (app/chain).
pub mod Config
pub mod Client
pub mod Receipts
pub mod Rpc
pub mod Updates
pub mod Broadcaster
pub mod Verification
