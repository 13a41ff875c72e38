-- ===== src/Nodes/Verifier.antt =====
-- The verifier of signed executions (app/nodes/verifier/service.py).
pub mod Accepting
pub mod Crediting
pub mod Judging
pub mod Dispatched
use signal_count.Nodes.Policy.{
  required_ree_failure, role_failure, VerifierError, VerifierService, attestation, claim,
  make_verifier, required_ree_roles, run_metadata, signing, unsupported_policy,
}
use signal_count.Base.{
  ℕ, String, Bool, true, false, not, ◌&&◌, Option, none, some, List, [], ◌∷◌, ◌++◌, map, is_mem,
  ◌==◌, string_eq, if◌then◌else◌,
}
use signal_count.Base.Json.{Json, Fields, bool, str, field, end}
use signal_count.Base.Text.{fstring, is_empty, strip, lower, replace_char}
use signal_count.Base.Outcome.{Outcome, ok, err, ◌>>=◌}
use signal_count.Base.Floats.{Floats}
use signal_count.Schemas.{
  TaskSpec, SpecialistResponse, SignedAgentExecution, VerificationAttestation,
}
use signal_count.Identity.Hashing.{Crypto, output_hash}
use signal_count.Identity.Signing.{SigningError, verify_signed_execution}
use signal_count.Ree.Receipts.{ReceiptLibrary}
use signal_count.Ree.Claims.{
  ReceiptClaimCheck, ClaimError, check_receipt_claim, canonical_validated_receipt_body,
}
use signal_count.Evaluation.Scoring.{
  ScoreArithmetic, score_specialist_response, score_total, min_float,
}
use signal_count.Evaluation.Attestations.{AttestationError, sign_if_configured}

-- `_execution_context_failure_reasons`
unfoldable pub context_failure_reasons : {F : Type 0} → SignedAgentExecution F → List String
context_failure_reasons e =
    (if e.task.job_id == e.response.job_id then [] else "task_response_job_id_mismatch" ∷ [])
    ++ ((if e.identity.role == e.response.node_role
          then []
          else "identity_response_role_mismatch" ∷ [])
        ++ (if e.identity.peer_id == e.response.peer_id
            then []
            else "identity_response_peer_id_mismatch" ∷ []))

abbrev or_reasons : List String → List String → List String
or_reasons [] other = other
or_reasons (r ∷ rs) other = r ∷ rs

abbrev is_no_item : List String → Bool
is_no_item [] = true
is_no_item (x ∷ xs) = false

-- `f"receipt_status={status}"`, if there is a status.
abbrev status_reason : Option String → List String
status_reason none = []
status_reason (some s) = if is_empty s then [] else fstring ("receipt_status=" ∷ s ∷ []) ∷ []

abbrev pub lift_error : {E A : Type 0} → (E → VerifierError) → Outcome E A → Outcome VerifierError A
lift_error wrap (ok a) = ok a
lift_error wrap (err e) = err (wrap e)

-- An attestation before it is signed: without a receipt, and of a status and score.
abbrev pub plain :
    {F : Type 0}
    → String
    → String
    → String
    → String
    → F
    → List String
    → Option String
    → Option String
    → Option String
    → VerificationAttestation F
plain job_id node_role peer_id status score reasons signer agent_wallet output = record {
  job_id = job_id;
  node_role = node_role;
  peer_id = peer_id;
  status = status;
  score = score;
  reasons = reasons;
  signer = signer;
  agent_wallet = agent_wallet;
  output_hash = output;
  ree_receipt_hash = none;
  receipt_status = none;
  ree_prompt_hash = none;
  ree_tokens_hash = none;
  ree_model_name = none;
  ree_receipt_body = none;
  ree_receipt_path = none;
  verifier = none;
  attestation_hash = none;
  verifier_signature = none;
  signature_algorithm = none;
}

-- `verified_output_hash or canonical_json_hash(response)`
abbrev or_hash : Option String → String → String
or_hash none other = other
or_hash (some h) other = if is_empty h then other else h

-- The score and the reasons, as they are changed on the way.
abbrev pub Judged : Type 0 → Type 0
Judged F = F × List String

module _ (fl : Floats) (ops : ScoreArithmetic fl) (crypto : Crypto fl.Float) (lib : ReceiptLibrary)
    (dump : VerificationAttestation fl.Float → Json) (service : VerifierService fl.Float) where
  open fl use {Float, lt, zero}
  open ops use {decimal, sub, fixed4}

  -- `_score_reasons`
  unfoldable pub score_reasons : SpecialistResponse Float → Float → List String
  score_reasons r score =
      fstring ("deterministic_score=" ∷ fixed4 score ∷ []) ∷ status_reason r.receipt_status
      ++ ((if is_no_item r.citations then [] else "citations_present" ∷ [])
          ++ (if is_no_item r.risks then [] else "risks_present" ∷ []))

  -- `self._acceptance_threshold - 0.01`
  abbrev pub gate : Float
  gate = sub service.acceptance_threshold (decimal 1 2)

  -- A receipt claim that is not valid lowers the score below the threshold.
  abbrev pub gated : ReceiptClaimCheck → Judged Float → Judged Float
  gated check (score, reasons) =
      if check.valid
      then (score, reasons)
      else (let lowered = min_float fl ops score gate in
          (
            lowered,
            reasons
                ++ (map (λ r. fstring ("invalid_receipt_claim:" ∷ r ∷ [])) check.reasons
                    ++ fstring ("receipt_claim_gate=" ∷ fixed4 lowered ∷ []) ∷ []),
          ))

  -- So does a failure of the policy.
  abbrev pub policed : Option String → Judged Float → Judged Float
  policed none judged = judged
  policed (some failure) (score, reasons) = (
    min_float fl ops score gate,
    reasons ++ fstring (failure ∷ ":" ∷ service.ree_policy ∷ []) ∷ [],
  )

  -- `"accepted" if score >= threshold else "rejected"`
  abbrev pub status_for : Float → String
  status_for score = if lt score service.acceptance_threshold then "rejected" else "accepted"

  abbrev final_reasons : Judged Float → List String
  final_reasons (score, reasons) =
      if lt score service.acceptance_threshold
      then reasons ++ "score_below_threshold" ∷ []
      else reasons

  abbrev pub judgement : TaskSpec → SpecialistResponse Float → Option String → Judged Float
  judgement task r failure =
      let score = score_total fl ops (score_specialist_response fl ops r task) in
      policed failure (gated (check_receipt_claim lib r) (score, score_reasons r score))

  -- The attestation of a response that is for the task.
  abbrev pub attested :
      SpecialistResponse Float
      → Option String
      → Option String
      → Judged Float
      → Option Fields
      → VerificationAttestation Float
  attested r signer output judged body =
      record (plain r.job_id r.node_role r.peer_id (status_for judged.0) judged.0
        (final_reasons judged) signer signer (some (or_hash output (output_hash crypto r)))) {
          ree_receipt_hash = r.ree_receipt_hash;
          receipt_status = r.receipt_status;
          ree_prompt_hash = r.ree_prompt_hash;
          ree_tokens_hash = r.ree_tokens_hash;
          ree_model_name = r.ree_model_name;
          ree_receipt_body = body;
          ree_receipt_path = r.ree_receipt_path;
        }

  -- What is decided before the attestation is signed.
  unfoldable pub decide_response :
      TaskSpec
      → SpecialistResponse Float
      → Option String
      → Option String
      → Outcome VerifierError (VerificationAttestation Float)
  unfolding required_ree_failure
  decide_response task r signer output =
      if not (task.job_id == r.job_id)
      then ok (
          plain task.job_id r.node_role r.peer_id "rejected" zero
            ("task_response_job_id_mismatch" ∷ []) signer none output)
      else do
        let check = check_receipt_claim lib r
        failure ← required_ree_failure service r.node_role check.status check.valid
        body ← lift_error claim (canonical_validated_receipt_body lib r check)
        ok (attested r signer output (judgement task r failure) body)

  abbrev pub signed_by_verifier :
      VerificationAttestation Float → Outcome VerifierError (VerificationAttestation Float)
  signed_by_verifier a =
      lift_error attestation (sign_if_configured crypto dump service.verifier_private_key a)

  -- `_verify_response`
  unfoldable pub verify_with :
      TaskSpec
      → SpecialistResponse Float
      → Option String
      → Option String
      → Outcome VerifierError (VerificationAttestation Float)
  unfolding decide_response sign_if_configured
  verify_with task r signer output = decide_response task r signer output >>= signed_by_verifier

  -- `verify_response`: without a wallet.
  unfoldable pub verify_response :
      TaskSpec → SpecialistResponse Float → Outcome VerifierError (VerificationAttestation Float)
  unfolding verify_with
  verify_response task r = verify_with task r none none

  unfoldable pub verify_responses :
      TaskSpec
      → List (SpecialistResponse Float)
      → Outcome VerifierError (List (VerificationAttestation Float))
  unfolding verify_response
  verify_responses task [] = ok []
  verify_responses task (r ∷ rs) = do
    a ← verify_response task r
    rest ← verify_responses task rs
    ok (a ∷ rest)

  -- The attestation of an execution whose signature does not verify.
  abbrev pub refused : SignedAgentExecution Float → VerificationAttestation Float
  refused e =
      plain e.task.job_id e.identity.role e.identity.peer_id "rejected" zero
        (or_reasons (context_failure_reasons e) ("invalid_signature" ∷ []))
        (some e.signature.signer) none (some e.signature.output_hash)

  abbrev pub by_signature :
      SignedAgentExecution Float → Bool → Outcome VerifierError (VerificationAttestation Float)
  by_signature e false = signed_by_verifier (refused e)
  by_signature e true =
      verify_with e.task e.response (some e.signature.signer) (some e.signature.output_hash)

  -- `VerifierService.verify_signed_execution`
  unfoldable pub attest_execution :
      SignedAgentExecution Float → Outcome VerifierError (VerificationAttestation Float)
  unfolding context_failure_reasons verify_with
  attest_execution e = lift_error signing (verify_signed_execution crypto e) >>= by_signature e
