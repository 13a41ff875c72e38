-- ===== src/Tamper.antt =====
-- Tamper checks of signed executions (app/tamper).
pub mod Detector
pub mod Adversarial
