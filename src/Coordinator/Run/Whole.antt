-- ===== src/Coordinator/Run/Whole.antt =====
-- A whole dispatch of app/coordinator/service.py: the roles' dispatches, the verifier and the result.
pub mod Ends
pub mod Accepted
use signal_count.Base.{ℕ, String, Option, none, some, List, [], ◌∷◌, length}
use signal_count.Base.Json.{Json, Fields, get_field}
use signal_count.Base.Outcome.{Outcome, ok, err, ◌>>=◌}
use signal_count.Base.Floats.{Floats}
use signal_count.Schemas.{ThesisRequest, TaskSpec, SpecialistResponse, VerificationAttestation}
use signal_count.Axl.Registry.{RegistryError, PeerService, AxlRegistry, get_candidates_for_role}
use signal_count.Orchestration.Graph.{WorkflowGraph}
use signal_count.Orchestration.Plan.{ExecutionPlan}
use signal_count.Coordinator.Dispatch.{
  Transport, DispatchError, RoleDispatchOutcome, build_payload, dispatch_role,
}
use signal_count.Coordinator.Run.{Verifier, DispatchResult, collect, task_of, dispatch}

-- What a dispatch raises: an error of a role's dispatch, or of the verifier.
pub data RunError (E : Type 0) : Type 0 where
  dispatching : DispatchError → RunError E
  verifying : E → RunError E

-- `verify_responses` of a verifier that may raise.
abbrev pub FallibleVerifier : Type 0 → Type 0 → Type 0
FallibleVerifier E F =
    TaskSpec → List (SpecialistResponse F) → Outcome E (List (VerificationAttestation F))

-- `str(topology_snapshot.get("mode", "live-axl"))`; `shown` is `str`.
abbrev pub run_mode_of : (Json → String) → Fields → String
run_mode_of shown topology = elim (get_field "mode" topology) [
  | none ↦ "live-axl"
  | some mode ↦ shown mode
]

abbrev pub count_of : Outcome RegistryError (List PeerService) → ℕ
count_of (ok candidates) = length candidates
count_of (err e) = 0

-- One round for each candidate is enough.
abbrev pub rounds_for : AxlRegistry → String → ℕ
rounds_for r role = count_of (get_candidates_for_role r role)

abbrev pub lift_dispatch : {E A : Type 0} → Outcome DispatchError A → Outcome (RunError E) A
lift_dispatch (ok a) = ok a
lift_dispatch (err e) = err (dispatching e)

-- The verifier is called once, and its attestations are split.
abbrev pub judged :
    {E F : Type 0}
    → Option (FallibleVerifier E F)
    → TaskSpec
    → List (SpecialistResponse F)
    → Outcome (RunError E) (Option (Verifier F))
judged none task responses = ok none
judged (some verify) task responses = elim (verify task responses) [
  | err e ↦ err (verifying e)
  | ok attestations ↦ ok (some (λ t rs. attestations))
]

module _ (fl : Floats) (r : AxlRegistry) (job_id : String) (request : ThesisRequest)
    (topology market : Fields) (news : List String) (call : String → Transport fl.Float)
    (shown : Json → String) (latency : String → fl.Float) where
  open fl use {Float}

  abbrev pub dispatch_one : String → Outcome DispatchError (RoleDispatchOutcome Float)
  unfolding dispatch_role
  dispatch_one role =
      dispatch_role fl r role job_id (some topology) (build_payload role job_id request market news)
        (call role) (rounds_for r role) (run_mode_of shown topology) (latency role)

  -- `asyncio.gather` of the roles' dispatches: their outcomes in order, or an exception of one.
  unfoldable pub gather :
      List String → Outcome DispatchError (List (String × RoleDispatchOutcome Float))
  unfolding dispatch_one
  gather [] = ok []
  gather (role ∷ roles) = do
    outcome ← dispatch_one role
    rest ← gather roles
    ok ((role, outcome) ∷ rest)

  -- `CoordinatorService.dispatch`, from the topology and the providers' data on.
  unfoldable pub dispatch_job :
      {E : Type 0}
      → WorkflowGraph
      → ExecutionPlan
      → Option (FallibleVerifier E Float)
      → Outcome (RunError E) (DispatchResult Float)
  unfolding gather dispatch collect
  dispatch_job graph plan verifier = do
    results ← lift_dispatch (gather plan.specialist_roles)
    verify ← judged verifier (task_of job_id request) (collect results).responses
    ok (dispatch graph plan verify job_id request results)
