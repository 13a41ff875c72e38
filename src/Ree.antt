-- ===== src/Ree.antt =====
-- Receipts of reproducible inference and the claims made of them (app/ree).
pub mod Receipts
pub mod Validator
pub mod Claims
