-- ===== src/Examples.antt =====
-- Concrete inputs for the theorems, and tests of the definitions.
mod Graph
mod Peers
mod Dispatch
mod Indexer
mod Floats
mod Router
mod Run
mod Whole
mod Credited
mod Submission
mod Signing
mod Receipts
mod Reputation
mod Payouts
mod Chain
mod Projections
mod Verifier
mod Store
mod Tamper
