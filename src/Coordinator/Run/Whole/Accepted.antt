-- ===== src/Coordinator/Run/Whole/Accepted.antt =====
-- What a dispatch of app/coordinator/service.py accepts, with a verifier that judges each response.
use signal_count.Base.{
  true, false, ◌+◌, String, ◌≡◌, refl, ap, ◌∙◌, sym, subst, ◌⊎◌, inl, inr, false, Option, none,
  some, List, [], ◌∷◌, All, length, length-map, is_mem, IsDistinct, string_eq, ◌==◌, Bool-cases,
  Option-cases,
}
use signal_count.Base.Json.{Json, Fields}
use signal_count.Base.Outcome.{Outcome, ok, err, Ensures, Outcome-cases}
use signal_count.Base.Floats.{Floats}
use signal_count.Schemas.{ThesisRequest, SpecialistResponse, VerificationAttestation}
use signal_count.Axl.Registry.{AxlRegistry}
use signal_count.Orchestration.Graph.{WorkflowGraph, specialist_roles}
use signal_count.Orchestration.Plan.{ExecutionPlan}
use signal_count.Orchestration.State.{GraphNodeState, specialist_status}
use signal_count.Coordinator.Dispatch.{Transport, ExecutionRecord, RoleDispatchOutcome}
use signal_count.Coordinator.Run.{
  DispatchResult, Collected, collect_one, collect, task_of, verify_responses, dispatch,
}
use signal_count.Coordinator.Run.Settled.{
  names, HasNode, AreOutcomes, collected, dispatch-HasNode, dispatch-accounts,
}
use signal_count.Coordinator.Run.Judged.{
  AreJudged, not_mem, response_roles, rejects-absent, split_responses-Good, split_responses-IsSplit,
}
use signal_count.Coordinator.Run.Whole.{RunError, verifying, FallibleVerifier, dispatch_job}
use signal_count.Coordinator.Run.Whole.Ends.{HasCandidates, AreAnswers, gather_ends}

-- A role has an accepted response and is completed in the graph's state, or it has a rejected one and
-- is rejected there, or it is missing and missing there.
abbrev pub IsRoleAccounted : {F : Type 0} → DispatchResult F → String → Type 0
IsRoleAccounted result role =
    let nodes = result.graph_state.nodes in
    (HasNode role "completed" nodes × (is_mem role (response_roles result.responses) ≡ true))
    ⊎ (HasNode role "rejected" nodes
        × (is_mem role (response_roles result.rejected_responses) ≡ true))
    ⊎ (HasNode role "missing" nodes × (is_mem role result.missing_roles ≡ true))

-- What a dispatch has done with the roles of a plan: the accepted responses are the good ones, each
-- role is accounted for, once, and has an accepted response unless the result is partial.
abbrev pub IsAccounted :
    {F : Type 0} → (SpecialistResponse F → Type 0) → List String → DispatchResult F → Type 0
IsAccounted Good roles result =
    All Good result.responses
    × All (λ x. ¬ Good x) result.rejected_responses
    × (length result.responses + length result.rejected_responses + length result.missing_roles
        ≡ length roles)
    × (result.partial ≡ false → length result.responses ≡ length roles)
    × ((role : String) → is_mem role roles ≡ true → IsRoleAccounted result role)

-- The status of a role in the graph's state, by the lists that it stands in.
accounted_status :
    {F : Type 0} (role : String) (completed missing rejected : List String)
    (accepted refused : List (SpecialistResponse F)) (nodes : List GraphNodeState)
    → HasNode role (specialist_status role completed missing rejected) nodes
    → (is_mem role missing ≡ true) ⊎ (is_mem role completed ≡ true)
    → ((is_mem role missing ≡ true) × (is_mem role rejected ≡ false))
      ⊎ ((is_mem role missing ≡ false)
          × (((is_mem role (response_roles accepted) ≡ true) × (is_mem role rejected ≡ false))
              ⊎ ((is_mem role (response_roles refused) ≡ true) × (is_mem role rejected ≡ true))))
    → (HasNode role "completed" nodes × (is_mem role (response_roles accepted) ≡ true))
      ⊎ (HasNode role "rejected" nodes × (is_mem role (response_roles refused) ≡ true))
      ⊎ (HasNode role "missing" nodes × (is_mem role missing ≡ true))
unfolding specialist_status
accounted_status role completed missing rejected accepted refused nodes node settled h = elim h [
  | inl (gone, kept) ↦ inr (inr (rw (kept, gone) at node, gone))
  | inr (there, split) ↦ elim split [
    | inr (member, bad) ↦ inr (inl (rw bad at node, member))
    | inl (member, kept) ↦ elim settled [
      | inl gone ↦ cc
      | inr done ↦ inl (rw (kept, there, done) at node, member)
    ]
  ]
]

module _ (fl : Floats) (r : AxlRegistry) (job_id : String) (request : ThesisRequest)
    (topology market : Fields) (news : List String) (call : String → Transport fl.Float)
    (shown : Json → String) (latency : String → fl.Float) where
  open fl use {Float}

  abbrev ForRole : String → Option (SpecialistResponse Float) → Type 0
  ForRole role o = (x : SpecialistResponse Float) → o ≡ some x → x.node_role ≡ role

  collect_one_absent :
      (role first : String) (response : Option (SpecialistResponse Float))
      (taken : ExecutionRecord Float) (c : Collected Float)
      → ForRole first response
      → (first == role) ≡ false
      → is_mem role (response_roles c.responses) ≡ false
      → is_mem role (
          response_roles
            (collect_one first
              (record { response = response; execution_record = taken })
              c).responses)
        ≡ false
  collect_one_absent role first none taken c same other h = h
  collect_one_absent role first (some x) taken c same other h = rw (same x refl, other) h

  collect_one-IsDistinct :
      (first : String) (response : Option (SpecialistResponse Float))
      (taken : ExecutionRecord Float) (c : Collected Float)
      → ForRole first response
      → is_mem first (response_roles c.responses) ≡ false
      → IsDistinct (response_roles c.responses)
      → IsDistinct (
          response_roles
            (collect_one first
              (record { response = response; execution_record = taken })
              c).responses)
  collect_one-IsDistinct first none taken c same absent h = h
  collect_one-IsDistinct first (some x) taken c same absent h = (rw (same x refl) absent, h)

  abbrev Answers : List (String × RoleDispatchOutcome Float) → Type 0
  Answers = AreAnswers fl r job_id request topology market news call shown latency

  -- A role that no result has is no response's.
  collect_absent :
      (role : String) (results : List (String × RoleDispatchOutcome Float))
      → Answers results
      → is_mem role (names results) ≡ false
      → is_mem role (response_roles (collect results).responses) ≡ false
  unfolding collect
  collect_absent role [] answers m = m
  collect_absent role ((first, o) ∷ rest) answers m =
      let (other, more) = not_mem role first (names rest) m in
      collect_one_absent role first o.response o.execution_record (collect rest)
        (λ x same. (answers.0 x same).0) other (collect_absent role rest answers.1 more)

  collect-IsDistinct :
      (results : List (String × RoleDispatchOutcome Float))
      → Answers results
      → IsDistinct (names results)
      → IsDistinct (response_roles (collect results).responses)
  unfolding collect
  collect-IsDistinct [] answers distinct = tt
  collect-IsDistinct ((first, o) ∷ rest) answers distinct =
      collect_one-IsDistinct first o.response o.execution_record (collect rest)
        (λ x same. (answers.0 x same).0) (collect_absent first rest answers.1 distinct.0)
        (collect-IsDistinct rest answers.1 distinct.1)

  -- Whether a role is missing, or has a response.
  abbrev IsSorted : String → Collected Float → Type 0
  IsSorted role c =
      ((is_mem role c.missing_roles ≡ true) × (is_mem role (response_roles c.responses) ≡ false))
      ⊎ ((is_mem role c.missing_roles ≡ false) × (is_mem role (response_roles c.responses) ≡ true))

  missing_absent :
      (role : String) (results : List (String × RoleDispatchOutcome Float))
      → is_mem role (names results) ≡ false
      → is_mem role (collect results).missing_roles ≡ false
  unfolding collect
  missing_absent role [] m = refl
  missing_absent role ((first, o) ∷ rest) m =
      let (other, more) = not_mem role first (names rest) m in
      elim (Option-cases o.response) [
        | inl absent ↦ rw (absent, other) (missing_absent role rest more)
        | inr (x, there) ↦ rw there (missing_absent role rest more)
      ]

  collect_one-IsSorted :
      (role first : String) (response : Option (SpecialistResponse Float))
      (taken : ExecutionRecord Float) (c : Collected Float)
      → ForRole first response
      → (((first == role) ≡ true)
          × (is_mem role c.missing_roles ≡ false)
          × (is_mem role (response_roles c.responses) ≡ false))
        ⊎ (((first == role) ≡ false) × IsSorted role c)
      → IsSorted role
          (collect_one first (record { response = response; execution_record = taken }) c)
  collect_one-IsSorted role first none taken c same h = elim h [
    | inl (here, not_missing, absent) ↦ inl (rw here refl, absent)
    | inr (other, sorted) ↦ rw other sorted
  ]
  collect_one-IsSorted role first (some x) taken c same h = elim h [
    | inl (here, not_missing, absent) ↦ inr (not_missing, rw (same x refl, here) refl)
    | inr (other, sorted) ↦ rw (same x refl, other) sorted
  ]

  collect-IsSorted :
      (role : String) (results : List (String × RoleDispatchOutcome Float))
      → Answers results
      → IsDistinct (names results)
      → is_mem role (names results) ≡ true
      → IsSorted role (collect results)
  unfolding collect
  collect-IsSorted role [] answers distinct m = cc
  collect-IsSorted role ((first, o) ∷ rest) answers (alone, distinct) m =
      collect_one-IsSorted role first o.response o.execution_record (collect rest)
        (λ x same. (answers.0 x same).0)
        (elim (Bool-cases (first == role)) [
          | inl here ↦
              let absent =
                subst (λ x. is_mem x (names rest) ≡ false) ((string_eq.beq_iff first role).0 here)
                  alone in
              inl (here, missing_absent role rest absent, collect_absent role rest answers.1 absent)
          | inr other ↦ inr (other, collect-IsSorted role rest answers.1 distinct (rw other at m))
        ])

  -- What happened to a role of the graph that has a result.
  dispatch-IsRoleAccounted :
      (graph : WorkflowGraph) (plan : ExecutionPlan) (Good : SpecialistResponse Float → Type 0)
      (attestations : List (VerificationAttestation Float))
      (results : List (String × RoleDispatchOutcome Float))
      → Answers results
      → AreOutcomes results
      → IsDistinct (names results)
      → AreJudged Good (collect results).responses attestations
      → (role : String) → is_mem role (specialist_roles graph) ≡ true
      → is_mem role (names results) ≡ true
      → IsRoleAccounted
          (dispatch graph plan (some (λ t rs. attestations)) job_id request results)
          role
  unfolding dispatch verify_responses
  dispatch-IsRoleAccounted graph plan Good attestations results answers outcomes distinct judged
        role of_graph m =
      let c = collect results in
      let apart = collect-IsDistinct results answers distinct in
      accounted_status role _ _ _ _ _ _
        (dispatch-HasNode graph plan (some (λ t rs. attestations)) job_id request results role
          of_graph)
        (collected results outcomes role m)
        (elim (collect-IsSorted role results answers distinct m) [
          | inl (gone, absent) ↦
              inl (gone, rejects-absent Good role c.responses attestations judged absent)
          | inr (there, member) ↦ inr (
            there,
            split_responses-IsSplit Good c.responses attestations apart judged role member,
          )
        ])

  module _ {E : Type 0} (graph : WorkflowGraph) (plan : ExecutionPlan)
      (verify : FallibleVerifier E Float) (Good : SpecialistResponse Float → Type 0)
      (judges : (rs : List (SpecialistResponse Float))
        → Ensures (AreJudged Good rs) (verify (task_of job_id request) rs)) where
    abbrev outcome : Outcome (RunError E) (DispatchResult Float)
    outcome =
        dispatch_job fl r job_id request topology market news call shown latency graph plan
          (some verify)

    -- If the roles are those of the graph and distinct, and each has candidates of distinct peer ids, a dispatch ends: with the
    -- exception of the verifier, or with a result that accepts exactly the good responses.
    pub dispatch_job_ends :
        All (HasCandidates r) plan.specialist_roles
        → IsDistinct plan.specialist_roles
        → plan.specialist_roles ≡ specialist_roles graph
        → ((e : E) × (outcome ≡ err (verifying e)))
          ⊎ ((result : DispatchResult Float) × (outcome ≡ ok result)
              × IsAccounted Good plan.specialist_roles result)
    unfolding dispatch_job dispatch verify_responses
    dispatch_job_ends candidates distinct planned =
        let (results, gathered, same, outcomes, answers) =
          gather_ends fl r job_id request topology market news call shown latency
            plan.specialist_roles candidates in
        let responses = (collect results).responses in
        elim (Outcome-cases (verify (task_of job_id request) responses)) [
          | inr (e, raised) ↦ inl (e, rw (gathered, raised) refl)
          | inl (attestations, made) ↦
              let split =
                split_responses-Good Good responses attestations
                  (collect-IsDistinct results answers (subst IsDistinct (sym same) distinct))
                  (judges responses attestations made) in
              let all = sym (length-map (λ p. p.0) results) ∙ ap length same in
              let counts =
                dispatch-accounts graph plan (some (λ t rs. attestations)) job_id request results in
              inr (
                dispatch graph plan (some (λ t rs. attestations)) job_id request results,
                rw (gathered, made) refl,
                (
                  split.0,
                  split.1,
                  counts.0 ∙ all,
                  λ whole. counts.1 whole ∙ all,
                  λ role m.
                      dispatch-IsRoleAccounted graph plan Good attestations results answers outcomes
                        (subst IsDistinct (sym same) distinct) (judges responses attestations made)
                        role (subst (λ ns. is_mem role ns ≡ true) planned m)
                        (subst (λ ns. is_mem role ns ≡ true) (sym same) m),
                ),
              )
        ]
