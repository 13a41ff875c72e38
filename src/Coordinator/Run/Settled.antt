-- ===== src/Coordinator/Run/Settled.antt =====
-- What a dispatch of app/coordinator/service.py says of each role.
use signal_count.Base.{
  suc, ◌+◌, String, ◌≡◌, ◌⊎◌, refl, ap, sym, subst, inl, inr, Bool, true, false, ◌||◌, not, Option,
  none, some, List, [], ◌∷◌, map, select, length, is_mem, ◌==◌, string_eq, Bool-cases, arith,
}
use signal_count.Schemas.{ThesisRequest, SpecialistResponse}
use signal_count.Orchestration.Graph.{
  NodeType, specialist, verifier, coordinator, type_eq, GraphNode, WorkflowGraph, specialist_roles,
}
use signal_count.Orchestration.Plan.{ExecutionPlan}
use signal_count.Orchestration.State.{
  specialist_status, GraphNodeState, node_state, build_graph_state,
}
use signal_count.Coordinator.Dispatch.{ExecutionRecord, RoleDispatchOutcome}
use signal_count.Coordinator.Run.{
  Verifier, Collected, collect_one, DispatchResult, collect, roles_of, split_responses,
  verify_responses, dispatch, is_any,
}

is_mem-more :
    (a x : String) (xs : List String)
    → (x == a) ≡ true ⊎ (is_mem a xs ≡ true)
    → is_mem a (x ∷ xs) ≡ true
is_mem-more a x xs h = ground arith

or_false : (a b : Bool) → (a || b) ≡ false → (a ≡ false) × (b ≡ false)
or_false a b h = ground arith

status_cases :
    (role : String) (completed missing rejected : List String)
    → (is_mem role missing ≡ true) ⊎ (is_mem role completed ≡ true)
    → let status = specialist_status role completed missing rejected in
      ((status ≡ "rejected") × (is_mem role rejected ≡ true))
      ⊎ ((status ≡ "missing") × (is_mem role missing ≡ true))
      ⊎ ((status ≡ "completed") × (is_mem role completed ≡ true))
unfolding specialist_status
status_cases role completed missing rejected h = elim (Bool-cases (is_mem role rejected)) [
  | inl bad ↦ inl (rw bad refl, bad)
  | inr good ↦ elim (Bool-cases (is_mem role missing)) [
    | inl gone ↦ inr (inl (rw (good, gone) refl, gone))
    | inr there ↦ elim h [
      | inl gone ↦ cc
      | inr done ↦ inr (inr (rw (good, there, done) refl, done))
    ]
  ]
]

no_more : {A : Type 0} (xs : List A) → is_any xs ≡ false → length xs ≡ 0
no_more [] h = refl
no_more (x ∷ xs) h = cc

length-select-both :
    {A : Type 0} (test : A → Bool) (xs : List A)
    → length (select test xs) + length (select (λ x. not (test x)) xs) ≡ length xs
length-select-both test [] = refl
length-select-both test (x ∷ xs) = ground (arith, length-select-both test xs)

-- The graph's state has a specialist of this id with this status.
abbrev pub HasNode : String → String → List GraphNodeState → Type 0
HasNode role status [] = ⊥
HasNode role status (s ∷ states) =
    ((s.id ≡ role) × (s.node_type ≡ specialist) × (s.status ≡ status)) ⊎ HasNode role status states

abbrev specialist_ids : List GraphNode → List String
specialist_ids nodes = map (λ n. n.id) (select (λ n. type_eq n.node_type specialist) nodes)

module _ (role : String) (completed missing rejected : List String)
    (verifier_ran synthesis_ran : Bool) where
  abbrev stated : List GraphNode → List GraphNodeState
  stated nodes = map (node_state completed missing rejected verifier_ran synthesis_ran) nodes

  stated_one :
      (t : NodeType) (id : String) (optional : Bool) (nodes : List GraphNode)
      → (is_mem role (specialist_ids nodes) ≡ true
          → HasNode role (specialist_status role completed missing rejected) (stated nodes))
      → is_mem role
          (specialist_ids (record { id = id; node_type = t; optional = optional } ∷ nodes))
        ≡ true
      → HasNode role
          (specialist_status role completed missing rejected)
          (stated (record { id = id; node_type = t; optional = optional } ∷ nodes))
  stated_one specialist id optional nodes more m = elim (Bool-cases (id == role)) [
    | inl here ↦
        let same = (string_eq.beq_iff id role).0 here in
        inl (same, refl, ap (λ x. specialist_status x completed missing rejected) same)
    | inr other ↦ inr (more (rw other at m))
  ]
  stated_one verifier id optional nodes more m = inr (more m)
  stated_one coordinator id optional nodes more m = inr (more m)

  stated-HasNode :
      (nodes : List GraphNode)
      → is_mem role (specialist_ids nodes) ≡ true
      → HasNode role (specialist_status role completed missing rejected) (stated nodes)
  stated-HasNode [] m = cc
  stated-HasNode (n ∷ nodes) m =
      stated_one n.node_type n.id n.optional nodes (stated-HasNode nodes) m

-- In the graph's state the role is rejected, missing or completed, and stands in the list of the
-- result that says so.
abbrev pub IsSettledIn : {F : Type 0} → DispatchResult F → String → Type 0
IsSettledIn result role =
    let nodes = result.graph_state.nodes in
    (HasNode role "rejected" nodes × (is_mem role result.rejected_roles ≡ true))
    ⊎ (HasNode role "missing" nodes × (is_mem role result.missing_roles ≡ true))
    ⊎ (HasNode role "completed" nodes × (is_mem role result.completed_roles ≡ true))

module _ {F : Type 0} where
  -- A result of the role, which has a response only if it is completed.
  abbrev pub IsRoleOutcome : String → RoleDispatchOutcome F → Type 0
  IsRoleOutcome role o =
      (o.execution_record.node_role ≡ role)
      × ((o.response ≡ none)
          ⊎ ((r : SpecialistResponse F) × (o.response ≡ some r)
              × (o.execution_record.status ≡ "completed")))

  abbrev pub AreOutcomes : List (String × RoleDispatchOutcome F) → Type 0
  AreOutcomes [] = Unit
  AreOutcomes ((role, o) ∷ rest) = IsRoleOutcome role o × AreOutcomes rest

  abbrev pub names : List (String × RoleDispatchOutcome F) → List String
  names results = map (λ p. p.0) results

  abbrev Settles : String → Collected F → Type 0
  Settles role c =
      (is_mem role c.missing_roles ≡ true) ⊎ (is_mem role (roles_of "completed" c.records) ≡ true)

  -- The roles of the completed records, with one record more.
  is_mem-roles_of :
      (role : String) (first : ExecutionRecord F) (records : List (ExecutionRecord F))
      → ((first.node_role == role) ≡ true) × ((first.status == "completed") ≡ true)
        ⊎ (is_mem role (roles_of "completed" records) ≡ true)
      → is_mem role (roles_of "completed" (first ∷ records)) ≡ true
  is_mem-roles_of role first records h = ground arith

  step :
      (r role : String) (response : Option (SpecialistResponse F)) (record' : ExecutionRecord F)
      (c : Collected F)
      → IsRoleOutcome r (record { response = response; execution_record = record' })
      → ((r == role) ≡ true) ⊎ Settles role c
      → Settles role (collect_one r (record { response = response; execution_record = record' }) c)
  step r role none record' c outcome h = elim h [
    | inl here ↦ inl (is_mem-more role r c.missing_roles (inl here))
    | inr later ↦ elim later [
      | inl missing ↦ inl (is_mem-more role r c.missing_roles (inr missing))
      | inr done ↦ inr (is_mem-roles_of role record' c.records (inr done))
    ]
  ]
  step r role (some response) record' c (same, ends) h = elim h [
    | inr later ↦ elim later [
      | inl missing ↦ inl missing
      | inr done ↦ inr (is_mem-roles_of role record' c.records (inr done))
    ]
    | inl here ↦ elim ends [
      | inl no_response ↦ cc
      | inr (r', e, completed) ↦ inr (
          is_mem-roles_of role record' c.records (
            inl (
              subst (λ x. (x == role) ≡ true) (sym same) here,
              (string_eq.beq_iff record'.status "completed").1 completed,
            )))
    ]
  ]

  pub collected :
      (results : List (String × RoleDispatchOutcome F))
      → AreOutcomes results
      → (role : String) → is_mem role (names results) ≡ true
      → Settles role (collect results)
  unfolding collect
  collected [] outcomes role m = cc
  collected ((r, o) ∷ rest) outcomes role m =
      step r role o.response o.execution_record (collect rest) outcomes.0
        (elim (Bool-cases (r == role)) [
          | inl here ↦ inl here
          | inr other ↦ inr (collected rest outcomes.1 role (rw other at m))
        ])

  -- The number of results is the number of responses and of missing roles.
  collected_all :
      (results : List (String × RoleDispatchOutcome F))
      → length (collect results).responses + length (collect results).missing_roles ≡ length results
  unfolding collect
  collected_all [] = refl
  collected_all ((r, o) ∷ rest) =
      counted o.response o.execution_record (collect rest) (collected_all rest)
    where
      counted :
          (response : Option (SpecialistResponse F)) (record' : ExecutionRecord F) (c : Collected F)
          → length c.responses + length c.missing_roles ≡ length rest
          → let d = collect_one r (record { response = response; execution_record = record' }) c in
            length d.responses + length d.missing_roles ≡ suc (length rest)
      counted none record' c h = omega arith
      counted (some response) record' c h = omega arith

  verified_all :
      (verifier : Option (Verifier F)) (job_id : String) (request : ThesisRequest)
      (responses : List (SpecialistResponse F))
      → let (accepted, rejected, attestations) =
          verify_responses verifier job_id request responses in
        length accepted + length rejected ≡ length responses
  unfolding verify_responses split_responses
  verified_all none job_id request responses = omega arith
  verified_all (some verify) job_id request responses = length-select-both _ responses

  module _ (graph : WorkflowGraph) (plan : ExecutionPlan) (verifier : Option (Verifier F))
      (job_id : String) (request : ThesisRequest)
      (results : List (String × RoleDispatchOutcome F)) where
    abbrev run : DispatchResult F
    run = dispatch graph plan verifier job_id request results

    -- The status of a specialist of the graph in the graph's state of the result.
    pub dispatch-HasNode :
        (role : String)
        → is_mem role (specialist_roles graph) ≡ true
        → HasNode role
            (specialist_status role run.completed_roles run.missing_roles run.rejected_roles)
            run.graph_state.nodes
    unfolding dispatch build_graph_state specialist_roles
    dispatch-HasNode role m = stated-HasNode role _ _ _ _ _ graph.nodes m

    -- After a dispatch each specialist of the graph that has a result is rejected, missing or completed
    -- in the graph's state of the result and stands in the list of the result that says so, when a
    -- result with a response is recorded as completed: none is left pending.
    pub dispatch-settles :
        AreOutcomes results
        → (role : String) → is_mem role (specialist_roles graph) ≡ true
        → is_mem role (names results) ≡ true
        → IsSettledIn run role
    unfolding dispatch
    dispatch-settles outcomes role of_graph m =
        let node = dispatch-HasNode role of_graph in
        elim (status_cases role run.completed_roles run.missing_roles run.rejected_roles
          (collected results outcomes role m)) [
            | inl (status, bad) ↦
                inl (subst (λ s. HasNode role s run.graph_state.nodes) status node, bad)
            | inr later ↦ elim later [
              | inl (status, gone) ↦
                  inr (inl (subst (λ s. HasNode role s run.graph_state.nodes) status node, gone))
              | inr (status, done) ↦
                  inr (inr (subst (λ s. HasNode role s run.graph_state.nodes) status node, done))
            ]
          ]

    -- Each result's response is accepted or rejected, or its role is missing; a dispatch that is
    -- not partial has accepted a response for each of its results.
    pub dispatch-accounts :
        (length run.responses + length run.rejected_responses + length run.missing_roles
          ≡ length results)
        × (run.partial ≡ false → length run.responses ≡ length results)
    unfolding dispatch
    dispatch-accounts =
        let c = collect results in
        let v = verify_responses verifier job_id request c.responses in
        let total = collected_all results in
        let split = verified_all verifier job_id request c.responses in
        (
          omega arith,
          λ whole.
              let (none_missing, none_rejected) =
                or_false (is_any c.missing_roles) (is_any v.1) whole in
              omega (arith, no_more c.missing_roles none_missing, no_more v.1 none_rejected),
        )
