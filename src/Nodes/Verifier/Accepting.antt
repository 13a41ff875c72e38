-- ===== src/Nodes/Verifier/Accepting.antt =====
-- When VerifierService of app/nodes/verifier/service.py accepts a response.
use signal_count.Base.{
  String, ◌≡◌, refl, ap, ◌∙◌, sym, subst, ◌⊎◌, inl, inr, ◌↔◌, true, false, Option, none, some, ◌==◌,
  string_eq, Bool-cases, Option-cases,
}
use signal_count.Base.Json.{Json}
use signal_count.Base.Text.{is_empty}
use signal_count.Base.Outcome.{Outcome, ok, err, >>=-ok, ok_inj, Ensures, ok-Ensures, >>=-Ensures}
use signal_count.Base.Floats.{Floats}
use signal_count.Schemas.{TaskSpec, SpecialistResponse, VerificationAttestation}
use signal_count.Identity.Hashing.{Crypto}
use signal_count.Ree.Receipts.{ReceiptLibrary}
use signal_count.Ree.Claims.{
  ReceiptClaimCheck, check_receipt_claim, canonical_validated_receipt_body,
}
use signal_count.Evaluation.Scoring.{
  ScoreArithmetic, score_specialist_response, score_total, min_float,
}
use signal_count.Evaluation.Attestations.{sign_if_configured}
use signal_count.Nodes.Verifier.{
  Judged, score_reasons, lift_error, gate, gated, policed, status_for, judgement, decide_response,
  verify_with,
}
use signal_count.Nodes.Policy.{
  required_ree_failure, VerifierError, claim, attestation, VerifierService,
}

-- What an attestation says of the decision.
abbrev pub decided : {F : Type 0} → VerificationAttestation F → String × Option String × String
decided a = (a.status, a.signer, a.node_role)

bool_apart : {P : Type 0} → false ≡ true → P
bool_apart h = cc

pub rejected_apart : {P : Type 0} → ◌≡◌ {A = String} "rejected" "accepted" → P
rejected_apart h = bool_apart (ap (λ s. s == "accepted") h)

pub lift_error-ok :
    {X V : Type 0} (wrap : X → VerifierError) (o : Outcome X V) {v : V}
    → lift_error wrap o ≡ ok v
    → o ≡ ok v
lift_error-ok wrap (ok x) h = cc
lift_error-ok wrap (err x) h = cc

module _ (fl : Floats) (ops : ScoreArithmetic fl) (crypto : Crypto fl.Float) (lib : ReceiptLibrary)
    (dump : VerificationAttestation fl.Float → Json) (service : VerifierService fl.Float) where
  open fl use {Float, lt}

  -- What an accepted response is: one for the task, whose claim is valid, that the policy takes, and
  -- whose score reaches the threshold.
  unfoldable pub Acceptable : TaskSpec → SpecialistResponse Float → Type 0
  Acceptable task r =
      let check = check_receipt_claim lib r in
      ((task.job_id == r.job_id) ≡ true)
      × (check.valid ≡ true)
      × (required_ree_failure service r.node_role check.status check.valid ≡ ok none)
      × (lt (score_total fl ops (score_specialist_response fl ops r task))
            service.acceptance_threshold
          ≡ false)

  -- Signing changes none of the fields that say what was decided.
  pub sign_if_configured-status :
      (key : String) (a s : VerificationAttestation Float)
      → sign_if_configured crypto dump key a ≡ ok s
      → decided s ≡ decided a
  unfolding sign_if_configured
  sign_if_configured-status key a s h = elim (Bool-cases (is_empty key)) [
    | inl empty ↦ ap decided (sym (ok_inj (rw empty at h)))
    | inr given ↦ elim (Option-cases (crypto.address_of key)) [
      | inl none_found ↦ let bad = rw (given, none_found) at h in cc
      | inr (signer, found) ↦ ap decided (sym (ok_inj (rw (given, found) at h)))
    ]
  ]

  abbrev threshold : Float
  threshold = service.acceptance_threshold

  abbrev pub below : Float
  below = gate fl ops crypto lib dump service

  min_float-lt :
      (score : Float)
      → lt below threshold ≡ true
      → lt (min_float fl ops score below) threshold ≡ true
  min_float-lt score h = elim (Bool-cases (lt below score)) [
    | inl above ↦ rw above h
    | inr not_above ↦ elim (fl.lt_compare below score threshold h) [
      | inl above ↦ cc
      | inr under ↦ rw not_above under
    ]
  ]

  status_for-accepted :
      (x : Float)
      → (status_for fl ops crypto lib dump service x ≡ "accepted") ↔ (lt x threshold ≡ false)
  status_for-accepted x = elim (Bool-cases (lt x threshold)) [
    | inl under ↦ (λ h. rejected_apart (rw under at h), λ h. cc)
    | inr enough ↦ (λ h. enough, λ h. rw enough refl)
  ]

  -- The score stays what it was, or falls below the threshold.
  policed-lt :
      (failure : Option String) (judged : Judged Float)
      → lt below threshold ≡ true
      → (lt (policed fl ops crypto lib dump service failure judged).0 threshold ≡ false)
        ↔ ((failure ≡ none) × (lt judged.0 threshold ≡ false))
  policed-lt none judged h = (λ e. (refl, e), λ e. e.1)
  policed-lt (some f) judged h = (λ e. let under = min_float-lt judged.0 h in cc, λ e. cc)

  gated-lt :
      (check : ReceiptClaimCheck) (judged : Judged Float)
      → lt below threshold ≡ true
      → (lt (gated fl ops crypto lib dump service check judged).0 threshold ≡ false)
        ↔ ((check.valid ≡ true) × (lt judged.0 threshold ≡ false))
  gated-lt check judged h = elim (Bool-cases check.valid) [
    | inl valid ↦ rw valid (λ e. (refl, e), λ e. e.1)
    | inr invalid ↦ rw invalid (λ e. let under = min_float-lt judged.0 h in cc, λ e. cc)
  ]

  -- The score of a response for the task reaches the threshold after both gates.
  judgement-lt :
      (task : TaskSpec) (r : SpecialistResponse Float) (failure : Option String)
      → lt below threshold ≡ true
      → (lt (judgement fl ops crypto lib dump service task r failure).0 threshold ≡ false) ↔ (
          (failure ≡ none)
          × (((check_receipt_claim lib r).valid ≡ true)
              × (lt (score_total fl ops (score_specialist_response fl ops r task)) threshold
                  ≡ false)))
  judgement-lt task r failure h =
      let check = check_receipt_claim lib r in
      let score = score_total fl ops (score_specialist_response fl ops r task) in
      let before : Judged Float = (score, score_reasons fl ops crypto lib dump service r score) in
      let by_claim = gated-lt check before h in
      let by_policy = policed-lt failure (gated fl ops crypto lib dump service check before) h in
      (
        λ e. ((by_policy.0 e).0, by_claim.0 (by_policy.0 e).1),
        λ e. by_policy.1 (e.0, by_claim.1 e.1),
      )

  attested-accepted :
      (task : TaskSpec) (r : SpecialistResponse Float) (failure : Option String) {status : String}
      → lt below threshold ≡ true
      → (task.job_id == r.job_id) ≡ true
      → required_ree_failure service r.node_role
          (check_receipt_claim lib r).status
          (check_receipt_claim lib r).valid
        ≡ ok failure
      → status
        ≡ status_for fl ops crypto lib dump service
            (judgement fl ops crypto lib dump service task r failure).0
      → (status ≡ "accepted") ↔ Acceptable task r
  unfolding Acceptable
  attested-accepted task r failure h same policy made =
      let kept = judgement-lt task r failure h in
      (
        λ e.
            let (no_failure, (valid, enough)) = kept.0 ((status_for-accepted _).0 (sym made ∙ e)) in
            (same, valid, policy ∙ ap ok no_failure, enough),
        λ e. made ∙ (status_for-accepted _).1 (kept.1 (ok_inj (sym policy ∙ e.2), (e.1, e.3))),
      )

  pub decide_response-accepted :
      (task : TaskSpec) (r : SpecialistResponse Float) (signer output : Option String)
      {a : VerificationAttestation Float}
      → lt below threshold ≡ true
      → decide_response fl ops crypto lib dump service task r signer output ≡ ok a
      → (a.status ≡ "accepted") ↔ Acceptable task r
  unfolding decide_response Acceptable
  decide_response-accepted task r signer output {a} h made =
      elim (Bool-cases (task.job_id == r.job_id)) [
        | inl same ↦
            let check = check_receipt_claim lib r in
            let (failure, policy, more) =
              >>=-ok (required_ree_failure service r.node_role check.status check.valid) _
                (rw same at made) in
            let (body, read, last) =
              >>=-ok (lift_error claim (canonical_validated_receipt_body lib r check)) _ more in
            attested-accepted task r failure h same policy (ap (λ x. x.status) (sym (ok_inj last)))
        | inr other ↦
            let rejected = ap (λ x. x.status) (ok_inj (rw other at made)) in
            (λ e. rejected_apart (rejected ∙ e), λ e. cc)
      ]

  abbrev pub OfResponse :
      SpecialistResponse Float → Option String → VerificationAttestation Float → Type 0
  OfResponse r signer a = (a.signer ≡ signer) × (a.node_role ≡ r.node_role)

  decide_response-OfResponse :
      (task : TaskSpec) (r : SpecialistResponse Float) (signer output : Option String)
      → Ensures
          (OfResponse r signer)
          (decide_response fl ops crypto lib dump service task r signer output)
  unfolding decide_response
  decide_response-OfResponse task r signer output = elim (Bool-cases (task.job_id == r.job_id)) [
    | inr other ↦ rw other (ok-Ensures (OfResponse r signer) _ (refl, refl))
    | inl same ↦
        let check = check_receipt_claim lib r in
        rw same (
          >>=-Ensures (OfResponse r signer)
            (required_ree_failure service r.node_role check.status check.valid) _
            (λ failure policy.
              >>=-Ensures (OfResponse r signer)
                (lift_error claim (canonical_validated_receipt_body lib r check)) _
                (λ body read. ok-Ensures (OfResponse r signer) _ (refl, refl))))
  ]

  -- An attestation is of the signer that is handed on, and of the response's role.
  pub verify_with-OfResponse :
      (task : TaskSpec) (r : SpecialistResponse Float) (signer output : Option String)
      → Ensures
          (OfResponse r signer)
          (verify_with fl ops crypto lib dump service task r signer output)
  unfolding verify_with
  verify_with-OfResponse task r signer output a made =
      let (d, decision, signing) =
        >>=-ok (decide_response fl ops crypto lib dump service task r signer output) _ made in
      let kept =
        sign_if_configured-status service.verifier_private_key d a
          (lift_error-ok attestation _ signing) in
      let (of_signer, of_role) = decide_response-OfResponse task r signer output d decision in
      (ap (λ x. x.1) kept ∙ of_signer, ap (λ x. x.2) kept ∙ of_role)

  -- Under a gate below the threshold, a response is accepted exactly if it is for the task, its receipt
  -- claim is valid, the policy takes it, and its score reaches the threshold.
  pub verify_with-accepted :
      (task : TaskSpec) (r : SpecialistResponse Float) (signer output : Option String)
      {a : VerificationAttestation Float}
      → lt below threshold ≡ true
      → verify_with fl ops crypto lib dump service task r signer output ≡ ok a
      → (a.status ≡ "accepted") ↔ Acceptable task r
  unfolding verify_with
  verify_with-accepted task r signer output {a} h made =
      let (d, decision, signing) =
        >>=-ok (decide_response fl ops crypto lib dump service task r signer output) _ made in
      let kept =
        sign_if_configured-status service.verifier_private_key d a
          (lift_error-ok attestation _ signing) in
      let by_decision = decide_response-accepted task r signer output h decision in
      let same : a.status ≡ d.status = ap (λ x. x.0) kept in
      (λ e. by_decision.0 (sym same ∙ e), λ e. same ∙ by_decision.1 e)

  -- An attestation accepts or rejects.
  abbrev pub IsDecided : VerificationAttestation Float → Type 0
  IsDecided a = (a.status ≡ "accepted") ⊎ (a.status ≡ "rejected")

  status_for-decided :
      (x : Float)
      → let status = status_for fl ops crypto lib dump service x in
        (status ≡ "accepted") ⊎ (status ≡ "rejected")
  status_for-decided x = elim (Bool-cases (lt x threshold)) [
    | inl under ↦ inr (rw under refl)
    | inr enough ↦ inl (rw enough refl)
  ]

  decide_response-IsDecided :
      (task : TaskSpec) (r : SpecialistResponse Float) (signer output : Option String)
      → Ensures IsDecided (decide_response fl ops crypto lib dump service task r signer output)
  unfolding decide_response
  decide_response-IsDecided task r signer output = elim (Bool-cases (task.job_id == r.job_id)) [
    | inr other ↦ rw other (ok-Ensures IsDecided _ (inr refl))
    | inl same ↦
        let check = check_receipt_claim lib r in
        rw same (
          >>=-Ensures IsDecided (required_ree_failure service r.node_role check.status check.valid)
            _
            (λ failure policy.
              >>=-Ensures IsDecided
                (lift_error claim (canonical_validated_receipt_body lib r check)) _
                (λ body read. ok-Ensures IsDecided _ (status_for-decided _))))
  ]

  pub verify_with-IsDecided :
      (task : TaskSpec) (r : SpecialistResponse Float) (signer output : Option String)
      → Ensures IsDecided (verify_with fl ops crypto lib dump service task r signer output)
  unfolding verify_with
  verify_with-IsDecided task r signer output a made =
      let (d, decision, signing) =
        >>=-ok (decide_response fl ops crypto lib dump service task r signer output) _ made in
      let kept =
        sign_if_configured-status service.verifier_private_key d a
          (lift_error-ok attestation _ signing) in
      subst (λ s. (s ≡ "accepted") ⊎ (s ≡ "rejected")) (sym (ap (λ x. x.0) kept))
        (decide_response-IsDecided task r signer output d decision)
