-- ===== src/Coordinator/Run.antt =====
-- A whole dispatch: the roles' outcomes, their verification and the graph's state (`dispatch`,
-- `_verify_responses` and `_build_run_metadata` of app/coordinator/service.py).
pub mod Settled
pub mod Judged
pub mod Whole
pub mod Metadata
pub mod Credited
use signal_count.Base.{
  String, Bool, true, false, ◌||◌, not, Option, none, some, List, [], ◌∷◌, ◌++◌, map, select, ◌==◌,
  string_eq, if◌then◌else◌,
}
use signal_count.Base.Dict.{Dict, lookup, insert}
use signal_count.Schemas.{ThesisRequest, TaskSpec, SpecialistResponse, VerificationAttestation}
use signal_count.Orchestration.Graph.{WorkflowGraph}
use signal_count.Orchestration.Plan.{ExecutionPlan}
use signal_count.Orchestration.State.{GraphState, build_graph_state}
use signal_count.Coordinator.Dispatch.{ExecutionRecord, RoleDispatchOutcome}

-- `ResponseVerifier.verify_responses`
abbrev pub Verifier : Type 0 → Type 0
Verifier F = TaskSpec → List (SpecialistResponse F) → List (VerificationAttestation F)

-- The lists that the loop over the results fills.
pub record Collected (F : Type 0) : Type 0 where
  pub responses : List (SpecialistResponse F)
  pub missing_roles : List String
  pub records : List (ExecutionRecord F)

-- The part of `CoordinatorDispatchResult` and of its metadata that the outcomes decide.
pub record DispatchResult (F : Type 0) : Type 0 where
  pub responses : List (SpecialistResponse F)
  pub rejected_responses : List (SpecialistResponse F)
  pub attestations : List (VerificationAttestation F)
  pub records : List (ExecutionRecord F)
  pub partial : Bool
  pub missing_roles : List String
  pub expected_roles : List String
  pub completed_roles : List String
  pub rejected_roles : List String
  pub graph_state : GraphState

abbrev is_some : {A : Type 0} → Option A → Bool
is_some none = false
is_some (some a) = true

abbrev pub is_any : {A : Type 0} → List A → Bool
is_any [] = false
is_any (x ∷ xs) = true

abbrev pub task_of : String → ThesisRequest → TaskSpec
task_of job_id request = record {
  job_id = job_id;
  thesis = request.thesis;
  asset = request.asset;
  horizon_days = request.horizon_days;
}

module _ {F : Type 0} where
  abbrev pub collect_one : String → RoleDispatchOutcome F → Collected F → Collected F
  collect_one role result later = elim result.response [
    | none ↦ record {
      responses = later.responses;
      missing_roles = role ∷ later.missing_roles;
      records = result.execution_record ∷ later.records;
    }
    | some response ↦ record {
      responses = response ∷ later.responses;
      missing_roles = later.missing_roles;
      records = result.execution_record ∷ later.records;
    }
  ]

  -- `for role, result in zip(roles, results, strict=True)`: each role has one result.
  unfoldable pub collect : List (String × RoleDispatchOutcome F) → Collected F
  collect [] = record { responses = []; missing_roles = []; records = [] }
  collect ((role, result) ∷ rest) = collect_one role result (collect rest)

  -- `attestation_by_role`: of several for a role the last stays.
  unfoldable pub by_role :
      List (VerificationAttestation F)
      → Dict String (VerificationAttestation F)
      → Dict String (VerificationAttestation F)
  by_role [] d = d
  by_role (a ∷ rest) d = by_role rest (insert a.node_role a d)

  abbrev pub is_accepted : Option (VerificationAttestation F) → Bool
  is_accepted none = false
  is_accepted (some a) = a.status == "accepted"

  abbrev pub accepts : Dict String (VerificationAttestation F) → SpecialistResponse F → Bool
  accepts attestations response = is_accepted (lookup response.node_role attestations)

  -- The loop of `_verify_responses`: the accepted and the rejected responses, each in order.
  unfoldable pub split_responses :
      Dict String (VerificationAttestation F)
      → List (SpecialistResponse F)
      → List (SpecialistResponse F) × List (SpecialistResponse F)
  split_responses attestations responses = (
    select (accepts attestations) responses,
    select (λ r. not (accepts attestations r)) responses,
  )

  -- The accepted responses, the rejected ones and the attestations.
  unfoldable pub verify_responses :
      Option (Verifier F)
      → String
      → ThesisRequest
      → List (SpecialistResponse F)
      → List (SpecialistResponse F) × List (SpecialistResponse F) × List (VerificationAttestation F)
  unfolding split_responses by_role
  verify_responses none job_id request responses = (responses, [], [])
  verify_responses (some verify) job_id request responses =
      let attestations = verify (task_of job_id request) responses in
      let (accepted, rejected) = split_responses (by_role attestations []) responses in
      (accepted, rejected, attestations)

  abbrev pub roles_of : String → List (ExecutionRecord F) → List String
  roles_of status records = map (λ r. r.node_role) (select (λ r. r.status == status) records)

  -- What `dispatch` makes of the results of `asyncio.gather`, one for each role of the plan.
  unfoldable pub dispatch :
      WorkflowGraph
      → ExecutionPlan
      → Option (Verifier F)
      → String
      → ThesisRequest
      → List (String × RoleDispatchOutcome F)
      → DispatchResult F
  unfolding collect verify_responses
  dispatch graph plan verifier job_id request results =
      let c = collect results in
      let (accepted, rejected, attestations) =
        verify_responses verifier job_id request c.responses in
      let completed_roles = roles_of "completed" c.records in
      let rejected_roles =
        map (λ a. a.node_role) (select (λ a. a.status == "rejected") attestations) in
      let verifier_ran : Bool = elim verifier [
        | none ↦ false
        | some v ↦ is_some plan.verifier_node_id
      ] in
      record {
        responses = accepted;
        rejected_responses = rejected;
        attestations = attestations;
        records = c.records;
        partial = is_any c.missing_roles || is_any rejected;
        missing_roles = c.missing_roles;
        expected_roles = map (λ r. r.node_role) c.records;
        completed_roles = completed_roles;
        rejected_roles = rejected_roles;
        graph_state =
            build_graph_state graph completed_roles c.missing_roles rejected_roles verifier_ran
              (is_some plan.synthesis_node_id);
      }
