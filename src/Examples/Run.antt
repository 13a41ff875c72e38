-- ===== src/Examples/Run.antt =====
-- A dispatch to two roles to test app/coordinator/service.py with.
use signal_count.Base.{
  ℕ, ◌+◌, String, Bool, ◌≡◌, ◌⊎◌, refl, ap, ◌∙◌, sym, false, Option, ◌==◌, if◌then◌else◌, inl, inr,
  true, false, ◌≤◌, ◌<◌, map, none, some, List, [], ◌∷◌, is_mem, length, string_eq,
}
use signal_count.Schemas.{ThesisRequest}
use signal_count.Orchestration.Graph.{default_graph, specialist_roles}
use signal_count.Orchestration.Plan.{ExecutionPlan}
use signal_count.Coordinator.Dispatch.{ExecutionRecord, RoleDispatchOutcome}
use signal_count.Coordinator.Run.{DispatchResult, dispatch}
use signal_count.Coordinator.Run.Settled.{HasNode, AreOutcomes, dispatch-settles}
use signal_count.Base.Text.{strip, is_empty, starts_with, has_char}
use signal_count.Base.Json.{Json, null, bool, str, obj, Fields, end, get_field}
use signal_count.Base.Outcome.{ok, err}
use signal_count.Coordinator.Synthesis.Answer.{
  MemoLibrary, other, unfenced, load_json_object, parse_llm_memo, with_sources, completed_payload,
  synthesize,
}
use signal_count.Coordinator.Synthesis.Answer.Outcomes.{Escapes, IsOfJob, synthesize-outcome}
use signal_count.Coordinator.Memo.{FinalMemo, compact_unique}
use signal_count.Coordinator.Synthesis.Compact.{IsCompact, compact_unique-IsCompact}
use signal_count.Examples.Dispatch.{sample_response}
use signal_count.Examples.Floats.{sample_floats}
use signal_count.Examples.Signing.{crypto}

abbrev pub plan : ExecutionPlan
plan = record {
  specialist_roles = "regime" ∷ "narrative" ∷ "risk" ∷ [];
  verifier_node_id = some "verifier";
  synthesis_node_id = some "synthesis";
}

abbrev request : ThesisRequest
request = record { thesis = "up"; asset = "ETH"; horizon_days = 30 }

abbrev record_for : String → String → ExecutionRecord ℕ
record_for role status = record {
  node_role = role;
  peer_id = "b";
  status = status;
  latency_ms = 1;
  service_name = "s";
  transport = "axl-mcp";
  dispatch_target = "/mcp/b/s";
  selection_reason = "";
  attempted_peer_ids = [];
}

abbrev results : List (String × RoleDispatchOutcome ℕ)
results =
    (
      "risk",
      record { response = some sample_response; execution_record = record_for "risk" "completed" },
    )
    ∷ (
      "narrative",
      record { response = none; execution_record = record_for "narrative" "timed_out" },
    )
    ∷ []

abbrev pub result : DispatchResult ℕ
result = dispatch default_graph plan none "j1" request results

narrative_of_graph : is_mem "narrative" (specialist_roles default_graph) ≡ true
unfolding specialist_roles
narrative_of_graph = refl

are_outcomes : AreOutcomes results
are_outcomes = ((refl, inr (sample_response, refl, refl)), ((refl, inl refl), tt))

dispatch-settles_example :
    let nodes = result.graph_state.nodes in
    (HasNode "narrative" "rejected" nodes × (is_mem "narrative" result.rejected_roles ≡ true))
    ⊎ (HasNode "narrative" "missing" nodes × (is_mem "narrative" result.missing_roles ≡ true))
    ⊎ (HasNode "narrative" "completed" nodes × (is_mem "narrative" result.completed_roles ≡ true))
dispatch-settles_example =
    dispatch-settles default_graph plan none "j1" request results are_outcomes "narrative"
      narrative_of_graph refl

abbrev sum : ℕ → ℕ → ℕ
sum a b = a + b

abbrev first : ℕ → ℕ → ℕ
first total n = total

abbrev signals : List String
signals = " calm" ∷ "calm " ∷ "" ∷ "storm" ∷ []

keeps_two : compact_unique signals ≡ "calm" ∷ "storm" ∷ []
unfolding compact_unique strip
keeps_two = refl

compact_unique-IsCompact_example :
    (length (compact_unique signals) ≤ 8)
    × IsCompact (compact_unique signals)
    × ((a : String)
        → is_mem a (compact_unique signals) ≡ true
        → is_mem a (map strip signals) ≡ true)
    × (length (compact_unique signals) < 8
        → (a : String) → is_empty a ≡ false
        → is_mem a (map strip signals) ≡ true
        → is_mem a (compact_unique signals) ≡ true)
compact_unique-IsCompact_example = compact_unique-IsCompact signals

abbrev id_of : Option Json → String
id_of (some (str i)) = i
id_of _ = ""

abbrev flag_of : Option Json → Bool
flag_of (some (bool b)) = b
flag_of _ = false

abbrev blank : Fields → FinalMemo ℕ
blank d = record {
  job_id = id_of (get_field "job_id" d);
  normalized_thesis = "";
  scenarios = record { bull = 1; base = 1; bear = 1 };
  supporting_evidence = [];
  opposing_evidence = [];
  catalysts = [];
  risks = [];
  invalidation_triggers = [];
  confidence_rationale = "";
  provenance = [];
  evidence_sources = [];
  verification_attestations = [];
  partial = flag_of (get_field "partial" d);
  partial_reason = none;
}

abbrev id_in : Option (FinalMemo ℕ) → String
id_in none = ""
id_in (some m) = m.job_id

abbrev flag_in : Option (FinalMemo ℕ) → Bool
flag_in none = false
flag_in (some m) = m.partial

-- A library that reads the empty dict alone, and takes each payload.
abbrev memos : MemoLibrary ℕ
memos = record {
  loads = λ s. if s == "{}" then some (obj end) else none;
  dump_provenance = λ ps. null;
  dump_attestations = λ xs. null;
  dump_sources = λ ss. null;
  dump_texts = λ ts. null;
  model_validate = λ d. some (blank d);
  validate_job_id = λ d m job valid at. sym (ap id_in valid) ∙ ap id_of at;
  validate_partial = λ d m partial valid at. sym (ap flag_in valid) ∙ ap flag_of at;
}

reads_memo :
    (m : FinalMemo ℕ) × (synthesize sample_floats sum first crypto memos
        (λ n. "30")
        "j1"
        request
        []
        result
        (ok "{}")
      ≡ ok m)
    × (m.job_id ≡ "j1")
    × (m.confidence_rationale ≡ "")
    × (m.partial ≡ true)
unfolding synthesize parse_llm_memo load_json_object unfenced strip starts_with has_char
    with_sources completed_payload dispatch
reads_memo = (_, refl, refl, refl, refl)

bare_fence :
    synthesize sample_floats sum first crypto memos
      (λ n. "30")
      "j1"
      request
      []
      result
      (ok "```json")
    ≡ err other
unfolding synthesize parse_llm_memo load_json_object unfenced strip starts_with has_char
bare_fence = refl

synthesize-outcome_example :
    ((Escapes (ok "{}")
        × (synthesize sample_floats sum first crypto memos
              (λ n. "30")
              "j1"
              request
              []
              result
              (ok "{}")
            ≡ err other))
      ⊎ ((m : FinalMemo ℕ) × (synthesize sample_floats sum first crypto memos
              (λ n. "30")
              "j1"
              request
              []
              result
              (ok "{}")
            ≡ ok m)
          × IsOfJob sample_floats sum first crypto memos (λ n. "30") "j1" request [] result m))
    × (Escapes (ok "{}")
        → synthesize sample_floats sum first crypto memos
            (λ n. "30")
            "j1"
            request
            []
            result
            (ok "{}")
          ≡ err other)
synthesize-outcome_example =
    synthesize-outcome sample_floats sum first crypto memos (λ n. "30") "j1" request [] result
      (ok "{}")
