-- ===== src/Examples/Verifier.antt =====
-- A verifier with a key, to test app/nodes/verifier/service.py with.
use signal_count.Base.{ℕ, ◌+◌, ◌-◌, ◌*◌, String, ◌≡◌, refl, ◌↔◌, true, false, none, some, []}
use signal_count.Base.Json.{null}
use signal_count.Base.Text.{lower, strip, contains, text_length, is_empty}
use signal_count.Base.Outcome.{ok}
use signal_count.Schemas.{VerificationAttestation}
use signal_count.Identity.Hashing.{task_hash, output_hash, canonical_json_hash}
use signal_count.Identity.Signing.{
  verify_signed_execution, normalize_identity, is_signed, response_wallet_matches_identity,
  recover_execution_signer, signable_message,
}
use signal_count.Ree.Claims.{
  check_receipt_claim, canonical_validated_receipt_body, claimed_status, check_status,
  has_receipt_material,
}
use signal_count.Evaluation.Scoring.{
  ScoreArithmetic, score_specialist_response, score_total, task_relevance, evidence_specificity,
  dissent_value, receipt_strength,
}
use signal_count.Evaluation.Reputation.{credit_eligible}
use signal_count.Evaluation.Attestations.{
  verification_attestation_hash, verification_attestation_message, sign_if_configured,
  verify_verification_attestation,
}
use signal_count.Evaluation.Attestations.Roundtrip.{sign_if_configured-verifies}
use signal_count.Nodes.Verifier.{
  score_reasons, decide_response, verify_with, verify_response, attest_execution, plain,
}
use signal_count.Nodes.Policy.{required_ree_failure, VerifierService}
use signal_count.Nodes.Verifier.Accepting.{Acceptable, verify_with-accepted}
use signal_count.Nodes.Verifier.Crediting.{attest_execution-credited}
use signal_count.Examples.Dispatch.{sample_response}
use signal_count.Examples.Floats.{sample_floats}
use signal_count.Examples.Signing.{crypto, task, signed, no_receipts}

-- Hundredths in place of floats.
abbrev pub hundredths : ScoreArithmetic sample_floats
hundredths = record {
  decimal = λ n k. n * 10;
  add = λ a b. a + b;
  sub = λ a b. a - b;
  mul = λ a b. a * b;
  ratio = λ a b. a;
  round4 = λ a. a;
  fixed4 = λ a. "0.0000";
  lower_text = λ s. s;
}

abbrev pub service : VerifierService ℕ
service = record {
  acceptance_threshold = 50;
  verifier_private_key = "key";
  ree_policy = "risk-only-ree";
  enforce_ree_policy = false;
}

attests :
    (a : VerificationAttestation ℕ) × (attest_execution sample_floats hundredths crypto no_receipts
        (λ a. null)
        service
        signed
      ≡ ok a)
    × (credit_eligible a ≡ true)
unfolding attest_execution verify_with decide_response required_ree_failure check_receipt_claim
    claimed_status check_status has_receipt_material canonical_validated_receipt_body
    score_specialist_response score_total task_relevance evidence_specificity dissent_value
    receipt_strength score_reasons output_hash task_hash canonical_json_hash sign_if_configured
    verification_attestation_hash verification_attestation_message verify_signed_execution
    normalize_identity is_signed response_wallet_matches_identity recover_execution_signer
    signable_message credit_eligible lower strip contains text_length
attests = (_, refl, refl)

judged :
    (a : VerificationAttestation ℕ) × (verify_response sample_floats hundredths crypto no_receipts
        (λ a. null)
        service
        task
        sample_response
      ≡ ok a)
    × (a.status ≡ "accepted")
unfolding verify_response verify_with decide_response required_ree_failure check_receipt_claim
    claimed_status check_status has_receipt_material canonical_validated_receipt_body
    score_specialist_response score_total task_relevance evidence_specificity dissent_value
    receipt_strength score_reasons output_hash task_hash canonical_json_hash sign_if_configured
    verification_attestation_hash verification_attestation_message verify_signed_execution
    normalize_identity is_signed response_wallet_matches_identity recover_execution_signer
    signable_message credit_eligible lower strip contains text_length
judged = (_, refl, refl)

verify_with-accepted_example :
    (judged.0.status ≡ "accepted")
    ↔ Acceptable sample_floats hundredths crypto no_receipts
        (λ a. null)
        service
        task
        sample_response
unfolding verify_response
verify_with-accepted_example =
    verify_with-accepted sample_floats hundredths crypto no_receipts (λ a. null) service task
      sample_response none none refl judged.1

attest_execution-credited_example :
    (verify_signed_execution crypto signed ≡ ok true)
    × (attests.0.signer ≡ some "0xa")
    × Acceptable sample_floats hundredths crypto no_receipts
        (λ a. null)
        service
        task
        sample_response
attest_execution-credited_example =
    attest_execution-credited sample_floats hundredths crypto no_receipts (λ a. null) service signed
      refl attests.1 attests.2

abbrev an_attestation : VerificationAttestation ℕ
an_attestation = plain "j1" "risk" "b" "accepted" 60 [] none none none

signs :
    (a : VerificationAttestation ℕ) × (sign_if_configured crypto (λ a. null) "key" an_attestation
      ≡ ok a)
unfolding sign_if_configured
signs = (_, refl)

one_signer : (signer : String) → some "0xa" ≡ some signer → is_empty signer ≡ false
one_signer signer h = cc

sign_if_configured-verifies_example :
    verify_verification_attestation crypto (λ a. null) signs.0 ≡ true
sign_if_configured-verifies_example =
    sign_if_configured-verifies crypto (λ a. null) "key" an_attestation signs.0 refl one_signer
      signs.1
