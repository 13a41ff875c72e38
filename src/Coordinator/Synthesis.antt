-- ===== src/Coordinator/Synthesis.antt =====
-- The memo that is made of a dispatch without the language model's help, and the parts that both
-- ways of making one share (app/coordinator/synthesis.py).
pub mod Compact
pub mod Answer
use signal_count.Coordinator.Memo.{
  FinalMemo, MemoEvidenceSource, ProvenanceRecord, compact_unique, compacted_from, compacted_with,
  input_source_by_role, input_sources, is_nil, normalize_forecast_question, source_text, take,
}
use signal_count.Base.{
  ℕ, zero, suc, String, Bool, true, false, not, ◌||◌, Option, none, some, List, [], ◌∷◌, ◌++◌, map,
  foldl, select, concat_map, length, is_mem, ◌==◌, string_eq, if◌then◌else◌,
}
use signal_count.Base.Json.{Json, str, arr, obj, item, Items, nil, Fields, get_field, text_of}
use signal_count.Base.Dict.{Dict, lookup, insert}
use signal_count.Base.Text.{fstring, join, is_empty, strip}
use signal_count.Base.Floats.{Floats}
use signal_count.Schemas.{ThesisRequest, ScenarioView, SpecialistResponse, VerificationAttestation}
use signal_count.Identity.Hashing.{Crypto, output_hash}
use signal_count.Coordinator.Run.{DispatchResult, by_role}

abbrev pub partial_reasons : List String → List String → List String
partial_reasons missing rejected =
    (if is_nil missing
      then []
      else fstring ("Missing specialist roles: " ∷ join ", " missing ∷ []) ∷ [])
    ++ (if is_nil rejected
        then []
        else fstring ("Rejected specialist roles: " ∷ join ", " rejected ∷ []) ∷ [])

module _ {F : Type 0} where
  -- `_build_provenance`
  unfoldable pub build_provenance : List (SpecialistResponse F) → List ProvenanceRecord
  build_provenance responses =
      map (λ r. record { node_role = r.node_role; peer_id = r.peer_id; timestamp = r.timestamp })
        responses

  -- `_supporting_evidence`
  unfoldable pub supporting_evidence : List (SpecialistResponse F) → List String
  unfolding compact_unique
  supporting_evidence responses = compact_unique (
      concat_map (λ r. r.summary ∷ r.signals)
        (select (λ r. is_mem r.node_role ("regime" ∷ "narrative" ∷ [])) responses))

  -- `_opposing_evidence`
  unfoldable pub opposing_evidence : List (SpecialistResponse F) → List String
  unfolding compact_unique
  opposing_evidence responses = compact_unique (
      concat_map (λ r. r.summary ∷ r.risks)
        (select (λ r. r.node_role == "risk" || not (is_nil r.risks)) responses))

  -- `_build_partial_reason`
  unfoldable pub build_partial_reason : DispatchResult F → Option String
  build_partial_reason result =
      let rejected = map (λ r. r.node_role) result.rejected_responses in
      if is_nil result.missing_roles
      then if is_nil rejected
        then none
        else some (join "; " (partial_reasons result.missing_roles rejected))
      else some (join "; " (partial_reasons result.missing_roles rejected))

  -- `dispatch_result.partial or bool(dispatch_result.rejected_responses)`
  unfoldable pub is_partial : DispatchResult F → Bool
  is_partial result = result.partial || not (is_nil result.rejected_responses)

-- `sum` of floats, and its quotient by a number that is not 0.
module _ (fl : Floats) (add : fl.Float → fl.Float → fl.Float) (over : fl.Float → ℕ → fl.Float)
    (crypto : Crypto fl.Float) where
  open fl use {Float, fixed2}

  -- `sum(...) / total`
  abbrev average : ℕ → (SpecialistResponse Float → Float) → List (SpecialistResponse Float) → Float
  average total part responses = over (foldl add fl.zero (map part responses)) total

  -- `_average_scenarios`
  unfoldable pub average_scenarios : List (SpecialistResponse Float) → ScenarioView Float
  average_scenarios [] = record { bull = fl.zero; base = fl.zero; bear = fl.zero }
  average_scenarios (r ∷ rs) =
      let total = suc (length rs) in
      record {
        bull = average total (λ x. x.scenario_view.bull) (r ∷ rs);
        base = average total (λ x. x.scenario_view.base) (r ∷ rs);
        bear = average total (λ x. x.scenario_view.bear) (r ∷ rs);
      }

  -- `_confidence_rationale`
  unfoldable pub confidence_rationale : List (SpecialistResponse Float) → Bool → String
  confidence_rationale [] partial =
      "No specialist responses were available, so confidence is minimal."
  confidence_rationale (r ∷ rs) partial = fstring (
      "Average specialist confidence is "
      ∷ fixed2 (average (suc (length rs)) (λ x. x.confidence) (r ∷ rs))
      ∷ " with "
      ∷ (if partial then "partial specialist coverage" else "all specialist roles")
      ∷ " represented in the memo."
      ∷ [])

  abbrev rejected_text : SpecialistResponse Float → VerificationAttestation Float → String
  rejected_text r a = fstring (
      "Rejected "
      ∷ r.node_role
      ∷ " output from "
      ∷ r.peer_id
      ∷ ": "
      ∷ r.summary
      ∷ " (score="
      ∷ fixed2 a.score
      ∷ "; reasons="
      ∷ join ", " a.reasons
      ∷ ")"
      ∷ [])

  abbrev rejected_of :
      Dict String (VerificationAttestation Float) → SpecialistResponse Float → List String
  rejected_of attestations r = elim (lookup r.node_role attestations) [
    | none ↦ []
    | some a ↦ rejected_text r a ∷ []
  ]

  -- `_rejected_evidence`
  unfoldable pub rejected_evidence : DispatchResult Float → List String
  unfolding by_role
  rejected_evidence result =
      concat_map (rejected_of (by_role result.attestations [])) result.rejected_responses

  -- The sources of one response: each text of it that is not blank.
  abbrev pub sources_of : Option Fields → SpecialistResponse Float → List MemoEvidenceSource
  unfolding output_hash strip
  sources_of source r =
      map
        (λ text. record {
          text = text;
          source_role = r.node_role;
          peer_id = r.peer_id;
          output_hash = some (output_hash crypto r);
          source_url = source_text "source_url" source;
          retrieved_at = source_text "retrieved_at" source;
          source_hash = source_text "source_hash" source;
          source_quality = source_text "source_quality" source;
        })
        (select (λ text. not (is_empty (strip text))) (r.summary ∷ r.signals ++ r.risks))

  -- `_evidence_sources`, of the dispatch's input sources.
  unfoldable pub evidence_sources :
      List Fields → List (SpecialistResponse Float) → List MemoEvidenceSource
  unfolding sources_of input_source_by_role
  evidence_sources inputs responses =
      let by_input_role = input_source_by_role inputs [] in
      concat_map (λ r. sources_of (lookup r.node_role by_input_role) r) responses

  -- `_fallback_memo`, of what `synthesize` hands to it.
  unfoldable pub fallback_memo :
      (ℕ → String) → String → ThesisRequest → List Fields → DispatchResult Float → FinalMemo Float
  unfolding average_scenarios supporting_evidence opposing_evidence rejected_evidence compact_unique
      confidence_rationale build_provenance evidence_sources is_partial build_partial_reason
      normalize_forecast_question
  fallback_memo shown job_id request inputs result =
      let responses = result.responses in
      record {
        job_id = job_id;
        normalized_thesis = normalize_forecast_question shown request;
        scenarios = average_scenarios responses;
        supporting_evidence = supporting_evidence responses;
        opposing_evidence =
            compact_unique (opposing_evidence responses ++ rejected_evidence result);
        catalysts = compact_unique (concat_map (λ r. r.signals) responses);
        risks = compact_unique (concat_map (λ r. r.risks) responses);
        invalidation_triggers =
            map (λ r. r.summary) (select (λ r. r.node_role == "risk") responses);
        confidence_rationale = confidence_rationale responses (is_partial result);
        provenance = build_provenance responses;
        evidence_sources = evidence_sources inputs responses;
        verification_attestations = result.attestations;
        partial = is_partial result;
        partial_reason = build_partial_reason result;
      }
