-- ===== src/Nodes/Verifier/Crediting.antt =====
-- Whom VerifierService of app/nodes/verifier/service.py gives credit, as app/evaluation/reputation.py
-- reads its attestations.
use signal_count.Base.{
  ◌≡◌, ap, ◌∙◌, sym, inl, inr, Bool, true, false, some, ◌==◌, string_eq, Bool-cases,
}
use signal_count.Base.Json.{Json}
use signal_count.Base.Outcome.{ok, >>=-ok}
use signal_count.Base.Floats.{Floats}
use signal_count.Schemas.{SignedAgentExecution, VerificationAttestation}
use signal_count.Identity.Hashing.{Crypto}
use signal_count.Identity.Signing.{verify_signed_execution}
use signal_count.Ree.Receipts.{ReceiptLibrary}
use signal_count.Evaluation.Scoring.{ScoreArithmetic}
use signal_count.Evaluation.Reputation.{credit_eligible}
use signal_count.Nodes.Verifier.{lift_error, gate, refused, by_signature, attest_execution}
use signal_count.Nodes.Policy.{signing, attestation, VerifierService}
use signal_count.Nodes.Verifier.Accepting.{
  rejected_apart, lift_error-ok, Acceptable, sign_if_configured-status, verify_with-accepted,
  verify_with-OfResponse,
}

credit_eligible-accepted :
    {F : Type 0} (a : VerificationAttestation F) → credit_eligible a ≡ true → a.status ≡ "accepted"
unfolding credit_eligible
credit_eligible-accepted a h = elim (Bool-cases (a.status == "accepted")) [
  | inl same ↦ (string_eq.beq_iff a.status "accepted").0 same
  | inr other ↦ let bad = rw other at h in cc
]

module _ (fl : Floats) (ops : ScoreArithmetic fl) (crypto : Crypto fl.Float) (lib : ReceiptLibrary)
    (dump : VerificationAttestation fl.Float → Json) (service : VerifierService fl.Float) where
  open fl use {Float, lt}

  by_signature-credited :
      (e : SignedAgentExecution Float) (verified : Bool) {a : VerificationAttestation Float}
      → lt (gate fl ops crypto lib dump service) service.acceptance_threshold ≡ true
      → verify_signed_execution crypto e ≡ ok verified
      → by_signature fl ops crypto lib dump service e verified ≡ ok a
      → credit_eligible a ≡ true
      → (verify_signed_execution crypto e ≡ ok true)
        × (a.signer ≡ some e.signature.signer)
        × Acceptable fl ops crypto lib dump service e.task e.response
  by_signature-credited e false {a} h checked made eligible =
      let kept =
        sign_if_configured-status fl ops crypto lib dump service service.verifier_private_key
          (refused fl ops crypto lib dump service e) a (lift_error-ok attestation _ made) in
      rejected_apart (sym (ap (λ x. x.0) kept) ∙ credit_eligible-accepted a eligible)
  by_signature-credited e true {a} h checked made eligible =
      let signer = some e.signature.signer in
      let output = some e.signature.output_hash in
      (
        checked,
        (verify_with-OfResponse fl ops crypto lib dump service e.task e.response signer output a
            made).0,
        (verify_with-accepted fl ops crypto lib dump service e.task e.response signer output h
              made).0
            (credit_eligible-accepted a eligible),
      )

  -- Under a gate below the threshold, an attestation that the reputation gives credit for is of an
  -- execution whose signature verifies, names its signer, and is of an acceptable response.
  pub attest_execution-credited :
      (e : SignedAgentExecution Float) {a : VerificationAttestation Float}
      → lt (gate fl ops crypto lib dump service) service.acceptance_threshold ≡ true
      → attest_execution fl ops crypto lib dump service e ≡ ok a
      → credit_eligible a ≡ true
      → (verify_signed_execution crypto e ≡ ok true)
        × (a.signer ≡ some e.signature.signer)
        × Acceptable fl ops crypto lib dump service e.task e.response
  unfolding attest_execution
  attest_execution-credited e {a} h made eligible =
      let (verified, checked, rest) =
        >>=-ok (lift_error signing (verify_signed_execution crypto e)) _ made in
      by_signature-credited e verified h (lift_error-ok signing _ checked) rest eligible
