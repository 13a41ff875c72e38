-- ===== src/Nodes/Verifier/Dispatched.antt =====
-- A dispatch of app/coordinator/service.py whose verifier is VerifierService of
-- app/nodes/verifier/service.py.
use signal_count.Base.{String, ◌≡◌, ◌⊎◌, true, List, some, All, string_eq}
use signal_count.Base.Json.{Json, Fields}
use signal_count.Base.Outcome.{Outcome, ok, err}
use signal_count.Base.Floats.{Floats}
use signal_count.Schemas.{ThesisRequest, VerificationAttestation}
use signal_count.Identity.Hashing.{Crypto}
use signal_count.Ree.Receipts.{ReceiptLibrary}
use signal_count.Evaluation.Scoring.{ScoreArithmetic}
use signal_count.Axl.Registry.{AxlRegistry}
use signal_count.Orchestration.Graph.{WorkflowGraph, post_init}
use signal_count.Orchestration.Plan.{ExecutionPlan, build_plan}
use signal_count.Orchestration.Plan.Roles.{build_plan-IsDistinct, build_plan-roles}
use signal_count.Coordinator.Dispatch.{Transport}
use signal_count.Coordinator.Run.{DispatchResult, task_of}
use signal_count.Coordinator.Run.Whole.{RunError, verifying, dispatch_job}
use signal_count.Coordinator.Run.Whole.Ends.{HasCandidates}
use signal_count.Coordinator.Run.Whole.Accepted.{IsAccounted, dispatch_job_ends}
use signal_count.Nodes.Verifier.{gate, verify_responses}
use signal_count.Nodes.Policy.{VerifierError, VerifierService}
use signal_count.Nodes.Verifier.Accepting.{Acceptable}
use signal_count.Nodes.Verifier.Judging.{verify_responses-AreJudged}

module _ (fl : Floats) (ops : ScoreArithmetic fl) (crypto : Crypto fl.Float) (lib : ReceiptLibrary)
    (dump : VerificationAttestation fl.Float → Json) (service : VerifierService fl.Float)
    (r : AxlRegistry) (job_id : String) (request : ThesisRequest) (topology market : Fields)
    (news : List String) (call : String → Transport fl.Float) (shown : Json → String)
    (latency : String → fl.Float) (graph : WorkflowGraph) (plan : ExecutionPlan) where
  open fl use {Float, lt}

  abbrev pub verified_dispatch : Outcome (RunError VerifierError) (DispatchResult Float)
  verified_dispatch =
      dispatch_job fl r job_id request topology market news call shown latency graph plan
        (some (verify_responses fl ops crypto lib dump service))

  -- A dispatch by the plan of a valid graph that VerifierService judges ends, if each role has
  -- candidates of distinct peer ids, and the threshold less 0.01 is below the threshold: with an
  -- exception of the verifier, or with a result that accepts exactly the acceptable responses. In the
  -- result each role of the plan has an accepted response and is completed in the graph's state, or has
  -- a rejected response and is rejected there, or is in the missing roles and is missing there; the
  -- accepted responses, the rejected ones and the missing roles are together as many as the roles; and
  -- if the result is not partial, there are as many accepted responses as roles.
  pub verified_dispatch-accepts :
      post_init graph ≡ ok tt
      → build_plan graph ≡ ok plan
      → lt (gate fl ops crypto lib dump service) service.acceptance_threshold ≡ true
      → All (HasCandidates r) plan.specialist_roles
      → ((e : VerifierError) × (verified_dispatch ≡ err (verifying e)))
        ⊎ ((result : DispatchResult Float) × (verified_dispatch ≡ ok result)
            × IsAccounted
                (Acceptable fl ops crypto lib dump service (task_of job_id request))
                plan.specialist_roles
                result)
  verified_dispatch-accepts accepted planned below candidates =
      dispatch_job_ends fl r job_id request topology market news call shown latency graph plan
        (verify_responses fl ops crypto lib dump service)
        (Acceptable fl ops crypto lib dump service (task_of job_id request))
        (λ rs.
          verify_responses-AreJudged fl ops crypto lib dump service (task_of job_id request) rs
            below)
        candidates (build_plan-IsDistinct graph accepted planned) (build_plan-roles graph planned)
