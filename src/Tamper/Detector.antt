-- ===== src/Tamper/Detector.antt =====
-- The nine checks of a signed execution (app/tamper/detector.py).
pub mod Agreement
use signal_count.Base.{
  String, Bool, true, false, ◌&&◌, not, Option, none, some, List, [], ◌∷◌, map, select, ◌==◌,
  string_eq, if◌then◌else◌,
}
use signal_count.Base.Text.{fstring, join, lower}
use signal_count.Base.Outcome.{Outcome, ok, err, ◌>>=◌}
use signal_count.Schemas.{SignedAgentExecution}
use signal_count.Identity.Hashing.{Crypto, task_hash, output_hash}
use signal_count.Identity.Signing.{SigningError, to_checksum_address, recover_execution_signer}
use signal_count.Ree.Receipts.{ReceiptLibrary}
use signal_count.Ree.Claims.{ReceiptClaimCheck, check_receipt_claim}

pub record CheckResult : Type 0 where
  pub name : String
  pub passed : Bool
  pub detail : String
  pub expected : Option String
  pub observed : Option String

pub record DetectionResult : Type 0 where
  pub status : String
  pub checks : List CheckResult
  pub failed_check_names : List String

abbrev pub is_nil : List String → Bool
is_nil [] = true
is_nil (x ∷ xs) = false

-- `[check.name for check in checks if not check.passed]`
abbrev pub failed_names : List CheckResult → List String
failed_names checks = map (λ c. c.name) (select (λ c. not c.passed) checks)

unfoldable pub result_of : List CheckResult → DetectionResult
result_of checks = record {
  status = if is_nil (failed_names checks) then "clean" else "tampered";
  checks = checks;
  failed_check_names = failed_names checks;
}

-- `message_of` is the text of an exception.
module _ {F : Type 0} (crypto : Crypto F) (lib : ReceiptLibrary)
    (message_of : SigningError → String) (e : SignedAgentExecution F) where
  abbrev pub check_output_hash : CheckResult
  check_output_hash = record {
    name = "output_hash_match";
    passed = lower e.signature.output_hash == lower (output_hash crypto e.response);
    detail = "response body must canonical-hash to envelope.output_hash";
    expected = some e.signature.output_hash;
    observed = some (output_hash crypto e.response);
  }

  abbrev pub check_task_hash : CheckResult
  check_task_hash = record {
    name = "task_hash_match";
    passed = lower e.signature.task_hash == lower (task_hash crypto e.task);
    detail = "task body must canonical-hash to envelope.task_hash";
    expected = some e.signature.task_hash;
    observed = some (task_hash crypto e.task);
  }

  abbrev pub check_identity_role : CheckResult
  check_identity_role = record {
    name = "identity_role_match";
    passed = e.identity.role == e.response.node_role;
    detail = "identity.role must equal response.node_role";
    expected = some e.identity.role;
    observed = some e.response.node_role;
  }

  abbrev pub check_identity_peer_id : CheckResult
  check_identity_peer_id = record {
    name = "identity_peer_id_match";
    passed = e.identity.peer_id == e.response.peer_id;
    detail = "identity.peer_id must equal response.peer_id";
    expected = some e.identity.peer_id;
    observed = some e.response.peer_id;
  }

  abbrev pub check_signer_matches_identity : CheckResult
  check_signer_matches_identity = record {
    name = "signer_equals_identity_wallet";
    passed = lower e.signature.signer == lower e.identity.wallet;
    detail = "envelope.signer must equal identity.wallet";
    expected = some e.identity.wallet;
    observed = some e.signature.signer;
  }

  abbrev pub wallet_result : Bool → String → String → CheckResult
  wallet_result matches expected observed = record {
    name = "response_wallet_matches_identity";
    passed = matches;
    detail = "response.agent_wallet must be absent or equal the signed identity wallet";
    expected = some expected;
    observed = some observed;
  }

  abbrev pub wallet_check : Option String → String → Outcome SigningError CheckResult
  wallet_check none identity_wallet = ok (wallet_result true identity_wallet "not_declared")
  wallet_check (some w) identity_wallet = do
    response_wallet ← to_checksum_address crypto w
    ok (wallet_result (response_wallet == identity_wallet) identity_wallet response_wallet)

  unfoldable pub check_response_wallet_matches_identity : Outcome SigningError CheckResult
  check_response_wallet_matches_identity = do
    identity_wallet ← to_checksum_address crypto e.identity.wallet
    wallet_check e.response.agent_wallet identity_wallet

  -- What the `try` of `_check_signature_recovers_signer` comes to.
  abbrev pub recovery_check : Outcome SigningError String → Outcome SigningError CheckResult
  recovery_check (err x) = ok (record {
    name = "signature_recovers_signer";
    passed = false;
    detail = fstring ("signature recovery raised: " ∷ message_of x ∷ []);
    expected = some e.signature.signer;
    observed = none;
  })
  recovery_check (ok recovered) = do
    claimed ← to_checksum_address crypto e.signature.signer
    ok (record {
      name = "signature_recovers_signer";
      passed = lower claimed == lower recovered;
      detail = "EIP-191 recovery must return envelope.signer";
      expected = some claimed;
      observed = some recovered;
    })

  unfoldable pub check_signature_recovers_signer : Outcome SigningError CheckResult
  check_signature_recovers_signer = recovery_check (recover_execution_signer crypto e)

  abbrev pub check_receipt_consistency : CheckResult
  check_receipt_consistency =
      let check = check_receipt_claim lib e.response in
      record {
        name = "receipt_consistency";
        passed = check.valid;
        detail =
            if check.valid
            then "receipt claim material passed fail-closed validation"
            else fstring ("receipt claim failed: " ∷ join "," check.reasons ∷ []);
        expected = some "valid embedded evidence for the claimed receipt status";
        observed = some check.status;
      }

  abbrev pub check_signature_algorithm : CheckResult
  check_signature_algorithm = record {
    name = "signature_algorithm_supported";
    passed = e.signature.algorithm == "eip191";
    detail = "only eip191 signatures are accepted";
    expected = some "eip191";
    observed = some e.signature.algorithm;
  }

  abbrev pub all_checks : CheckResult → CheckResult → List CheckResult
  all_checks wallet recovery =
      check_output_hash ∷ check_task_hash ∷ check_identity_role ∷ check_identity_peer_id
      ∷ check_signer_matches_identity ∷ wallet ∷ recovery ∷ check_receipt_consistency
      ∷ check_signature_algorithm ∷ []

  unfoldable pub detect_tampering : Outcome SigningError DetectionResult
  unfolding check_response_wallet_matches_identity check_signature_recovers_signer result_of
  detect_tampering = do
    wallet ← check_response_wallet_matches_identity
    recovery ← check_signature_recovers_signer
    ok (result_of (all_checks wallet recovery))
