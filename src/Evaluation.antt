-- ===== src/Evaluation.antt =====
-- What the verifier's verdicts are worth (app/evaluation).
pub mod Reputation
pub mod PayoutLedger
pub mod Payouts
pub mod Scoring
pub mod Attestations
