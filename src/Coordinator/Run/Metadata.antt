-- ===== src/Coordinator/Run/Metadata.antt =====
-- The sources and the metadata of a run (`_build_input_sources` and `_build_run_metadata` of
-- app/coordinator/service.py).
use signal_count.Base.{
  String, not, Option, none, some, List, [], ◌∷◌, ◌++◌, map, select, if◌then◌else◌,
}
use signal_count.Base.Json.{
  Json, str, arr, obj, Fields, end, field, get_field, items_of, texts, update_fields,
}
use signal_count.Base.Text.{is_empty}
use signal_count.Base.Floats.{Floats}
use signal_count.Schemas.{SpecialistResponse, VerificationAttestation}
use signal_count.Orchestration.Graph.{WorkflowGraph, graph_dict}
use signal_count.Orchestration.Plan.{ExecutionPlan, plan_dict}
use signal_count.Orchestration.State.{state_dict}
use signal_count.Evaluation.Reputation.{build_reputation_updates}
use signal_count.Evaluation.Reputation.Leaderboard.{ValueLibrary, update_dict}
use signal_count.Coordinator.Dispatch.{ExecutionRecord}
use signal_count.Coordinator.Run.{DispatchResult, is_any}

-- `model_dump` of the schemas.
pub record DumpLibrary (F : Type 0) : Type 0 where
  pub dump_attestation : VerificationAttestation F → Json
  pub dump_response : SpecialistResponse F → Json

-- `[{"input_role": ..., **source}]`: nothing for what is no dict; the source's keys win.
abbrev dict_source : Option Json → Fields → List Fields
dict_source (some (obj source)) base = update_fields source base ∷ []
dict_source _ base = []

-- The loop over the headlines and their sources, as long as there are both.
abbrev news_inputs : List String → List Json → List Fields
news_inputs (headline ∷ headlines) (source ∷ sources) =
    dict_source (some source) (
      field "input_role" (str "narrative")
        (field "input_name" (str "news_headline") (field "text" (str headline) end)))
    ++ news_inputs headlines sources
news_inputs _ _ = []

-- `_build_input_sources`; the news' sources are none if the provider has no such method.
unfoldable pub build_input_sources : Fields → List String → Option (List Json) → List Fields
build_input_sources market headlines news_sources =
    dict_source (get_field "source_metadata" market)
      (field "input_role" (str "regime") (field "input_name" (str "market_snapshot") end))
    ++ elim news_sources [ none ↦ [] | some sources ↦ news_inputs headlines sources ]

-- `metadata.update(x.run_metadata())`, for an x that has the method.
abbrev pub updated_if : Option Fields → Fields → Fields
updated_if none metadata = metadata
updated_if (some more) metadata = update_fields more metadata

-- `_peer_selection_metadata`
unfoldable pub peer_selection_metadata : {F : Type 0} → ExecutionRecord F → Fields
peer_selection_metadata r = field "node_role" (str r.node_role) (
    field "peer_id" (str r.peer_id) (
      field "selection_reason" (str r.selection_reason) (
        if is_any r.attempted_peer_ids
        then field "attempted_peer_ids" (texts r.attempted_peer_ids) end
        else end)))

module _ (fl : Floats) (round6 percent : fl.Float → fl.Float) (add : fl.Float → fl.Float → fl.Float)
    (values : ValueLibrary fl.Float) (dumps : DumpLibrary fl.Float) where
  open fl use {Float}

  abbrev objects : List Fields → Json
  objects ds = arr (items_of (map obj ds))

  abbrev pub update_dicts : List (VerificationAttestation Float) → List Fields
  update_dicts attestations =
      map (update_dict values) (build_reputation_updates fl round6 percent add attestations)

  -- The part of the metadata after the reputation updates.
  abbrev run_fields : WorkflowGraph → ExecutionPlan → DispatchResult Float → List Fields → Fields
  run_fields graph plan d sources = field "execution_plan" (obj (plan_dict plan)) (
      field "workflow_graph" (obj (graph_dict graph)) (
        field "graph_state" (obj (state_dict d.graph_state)) (
          field "dispatch_targets"
            (texts (select (λ t. not (is_empty t)) (map (λ r. r.dispatch_target) d.records)))
            (field "peer_selection"
              (objects (
                map peer_selection_metadata
                  (select (λ r. not (is_empty r.selection_reason)) d.records)))
              (if is_any sources then field "input_sources" (objects sources) end else end)))))

  -- `_build_run_metadata`: what the transport's and the verifier's `run_metadata` give is last.
  unfoldable pub build_run_metadata :
      WorkflowGraph
      → ExecutionPlan
      → String
      → DispatchResult Float
      → List Fields
      → (transport verifier : Option Fields) → Fields
  build_run_metadata graph plan run_mode d sources transport verifier = updated_if verifier (
      updated_if transport (
        field "run_mode" (str run_mode) (
          field "expected_roles" (texts d.expected_roles) (
            field "completed_roles" (texts d.completed_roles) (
              field "missing_roles" (texts d.missing_roles) (
                field "rejected_roles" (texts d.rejected_roles) (
                  field "verification_attestations"
                    (arr (items_of (map dumps.dump_attestation d.attestations)))
                    (field "specialist_responses"
                      (arr
                        (items_of (map dumps.dump_response (d.responses ++ d.rejected_responses))))
                      (field "reputation_updates" (objects (update_dicts d.attestations))
                        (run_fields graph plan d sources))))))))))
