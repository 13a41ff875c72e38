-- ===== src/Evaluation/Reputation.antt =====
-- Reputation points from attestations and their leaderboard (app/evaluation/reputation.py).
pub mod Counts
pub mod Leaderboard
use signal_count.Base.{
  ℕ, ◌+◌, String, Bool, true, false, ◌&&◌, ◌||◌, not, Option, none, some, List, [], ◌∷◌, map, ◌==◌,
  pair_eq, string_eq, if◌then◌else◌,
}
use signal_count.Base.Dict.{Dict, lookup, insert}
use signal_count.Base.Text.{is_empty, lower}
use signal_count.Base.Floats.{Floats}
use signal_count.Schemas.{VerificationAttestation}

pub record ReputationUpdate (F : Type 0) : Type 0 where
  pub job_id : String
  pub node_role : String
  pub peer_id : String
  pub agent_wallet : Option String
  pub verifier_status : String
  pub verifier_score : F
  pub credit_eligible : Bool
  pub reputation_points : F
  pub reason : String

pub record ReputationLedgerEntry (F : Type 0) : Type 0 where
  pub node_role : String
  pub peer_id : String
  pub reputation_points : F
  pub accepted_contributions : ℕ
  pub rejected_contributions : ℕ
  pub total_verifier_score : F

abbrev is_given : Option String → Bool
is_given none = false
is_given (some s) = not (is_empty s)

abbrev same_lower : Option String → Option String → Bool
same_lower (some a) (some b) = lower a == lower b
same_lower _ _ = false

-- `_credit_eligible`
unfoldable pub credit_eligible : {F : Type 0} → VerificationAttestation F → Bool
credit_eligible a =
    a.status == "accepted"
    && is_given a.signer
    && is_given a.agent_wallet
    && is_given a.output_hash
    && same_lower a.signer a.agent_wallet

-- `_reason_for_attestation`
unfoldable pub reason_for_attestation : {F : Type 0} → VerificationAttestation F → Bool → String
reason_for_attestation a eligible =
    if eligible
    then "verifier_score_credit"
    else if not (a.status == "accepted")
    then "no_credit_for_rejected_verifier_status"
    else if is_given a.signer && is_given a.agent_wallet && not (same_lower a.signer a.agent_wallet)
    then "no_credit_for_signer_wallet_mismatch"
    else "no_credit_without_verified_execution_signer"

-- `round6` rounds to six places, `percent` multiplies by 100, and `add` adds floats.
module _ (fl : Floats) (round6 percent : fl.Float → fl.Float)
    (add : fl.Float → fl.Float → fl.Float) where
  open fl use {Float, zero, lt}

  abbrev pub update_of : VerificationAttestation Float → ReputationUpdate Float
  update_of a =
      let eligible = credit_eligible a in
      record {
        job_id = a.job_id;
        node_role = a.node_role;
        peer_id = a.peer_id;
        agent_wallet = a.agent_wallet;
        verifier_status = a.status;
        verifier_score = if eligible then round6 a.score else zero;
        credit_eligible = eligible;
        reputation_points = if eligible then round6 (percent a.score) else zero;
        reason = reason_for_attestation a eligible;
      }

  unfoldable pub build_reputation_updates :
      List (VerificationAttestation Float) → List (ReputationUpdate Float)
  build_reputation_updates attestations = map update_of attestations

  -- The dict of aggregates, by role and then by peer.
  abbrev pub Ledger : Type 0
  Ledger = Dict (String × String) (ReputationLedgerEntry Float)

  abbrev pub key_of : ReputationUpdate Float → String × String
  key_of u = (u.node_role, u.peer_id)

  abbrev empty_entry : ReputationUpdate Float → ReputationLedgerEntry Float
  empty_entry u = record {
    node_role = u.node_role;
    peer_id = u.peer_id;
    reputation_points = zero;
    accepted_contributions = 0;
    rejected_contributions = 0;
    total_verifier_score = zero;
  }

  -- `setdefault`
  abbrev pub entry_or_new :
      ReputationUpdate Float → Option (ReputationLedgerEntry Float) → ReputationLedgerEntry Float
  entry_or_new u none = empty_entry u
  entry_or_new u (some entry) = entry

  abbrev pub added :
      ReputationUpdate Float → ReputationLedgerEntry Float → ReputationLedgerEntry Float
  added u entry =
      let accepted = u.verifier_status == "accepted" in
      let rejected = u.verifier_status == "rejected" in
      record entry {
        reputation_points = round6 (add entry.reputation_points u.reputation_points);
        accepted_contributions =
            if accepted then entry.accepted_contributions + 1 else entry.accepted_contributions;
        total_verifier_score =
            if accepted
            then round6 (add entry.total_verifier_score u.verifier_score)
            else entry.total_verifier_score;
        rejected_contributions =
            if accepted
            then entry.rejected_contributions
            else if rejected
            then entry.rejected_contributions + 1
            else entry.rejected_contributions;
      }

  -- The update is passed over.
  abbrev pub is_skipped : ReputationUpdate Float → Bool
  is_skipped u = u.verifier_status == "accepted" && not u.credit_eligible

  -- One round of the loop of `build_reputation_leaderboard`.
  abbrev pub aggregate_one : ReputationUpdate Float → Ledger → Ledger
  aggregate_one u ledger =
      if is_skipped u
      then ledger
      else insert (key_of u) (added u (entry_or_new u (lookup (key_of u) ledger))) ledger

  unfoldable pub aggregate : List (ReputationUpdate Float) → Ledger → Ledger
  aggregate [] ledger = ledger
  aggregate (u ∷ us) ledger = aggregate us (aggregate_one u ledger)
