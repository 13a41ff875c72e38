-- ===== src/Nodes/Verifier/Judging.antt =====
-- VerifierService (app/nodes/verifier/service.py) in place of the verifier that the coordinator
-- relies on.
use signal_count.Base.{◌≡◌, true, List, [], ◌∷◌, none}
use signal_count.Base.Json.{Json}
use signal_count.Base.Outcome.{Ensures, ok-Ensures, >>=-Ensures}
use signal_count.Base.Floats.{Floats}
use signal_count.Schemas.{TaskSpec, SpecialistResponse, VerificationAttestation}
use signal_count.Identity.Hashing.{Crypto}
use signal_count.Ree.Receipts.{ReceiptLibrary}
use signal_count.Evaluation.Scoring.{ScoreArithmetic}
use signal_count.Coordinator.Run.Judged.{AreJudged}
use signal_count.Nodes.Verifier.{gate, verify_response, verify_responses}
use signal_count.Nodes.Policy.{VerifierService}
use signal_count.Nodes.Verifier.Accepting.{
  Acceptable, verify_with-OfResponse, verify_with-accepted, verify_with-IsDecided,
}

module _ (fl : Floats) (ops : ScoreArithmetic fl) (crypto : Crypto fl.Float) (lib : ReceiptLibrary)
    (dump : VerificationAttestation fl.Float → Json) (service : VerifierService fl.Float) where
  open fl use {Float, lt}

  -- Each response gets its own attestation, which accepts exactly an acceptable response and rejects any other.
  pub verify_responses-AreJudged :
      (task : TaskSpec) (rs : List (SpecialistResponse Float))
      → lt (gate fl ops crypto lib dump service) service.acceptance_threshold ≡ true
      → Ensures
          (AreJudged (Acceptable fl ops crypto lib dump service task) rs)
          (verify_responses fl ops crypto lib dump service task rs)
  unfolding verify_responses verify_response
  verify_responses-AreJudged task [] h =
      ok-Ensures (AreJudged (Acceptable fl ops crypto lib dump service task) []) [] tt
  verify_responses-AreJudged task (r ∷ rs) h =
      let Judged = AreJudged (Acceptable fl ops crypto lib dump service task) (r ∷ rs) in
      >>=-Ensures Judged (verify_response fl ops crypto lib dump service task r) _ (λ a made.
        >>=-Ensures Judged (verify_responses fl ops crypto lib dump service task rs) _
          (λ others more. ok-Ensures Judged (a ∷ others) (
            (
              (verify_with-OfResponse fl ops crypto lib dump service task r none none a made).1,
              verify_with-accepted fl ops crypto lib dump service task r none none h made,
              verify_with-IsDecided fl ops crypto lib dump service task r none none a made,
            ),
            verify_responses-AreJudged task rs h others more,
          )))
