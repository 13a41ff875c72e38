-- ===== src/Coordinator/Memo.antt =====
-- The memo of app/schemas/contracts.py, and the texts and the sources that
-- app/coordinator/synthesis.py fills it with.
use signal_count.Base.{
  ℕ, zero, suc, String, Bool, true, false, Option, none, some, List, [], ◌∷◌, ◌++◌, is_mem,
  string_eq, if◌then◌else◌,
}
use signal_count.Base.Json.{Json, str, arr, obj, item, Items, nil, Fields, get_field, text_of}
use signal_count.Base.Dict.{Dict, lookup, insert}
use signal_count.Base.Text.{fstring, is_empty, strip}
use signal_count.Schemas.{ThesisRequest, ScenarioView, VerificationAttestation}

pub record ProvenanceRecord : Type 0 where
  pub node_role : String
  pub peer_id : String
  pub timestamp : String

pub record MemoEvidenceSource : Type 0 where
  pub text : String
  pub source_role : String
  pub peer_id : String
  pub output_hash : Option String
  pub source_url : Option String
  pub retrieved_at : Option String
  pub source_hash : Option String
  pub source_quality : Option String

pub record FinalMemo (F : Type 0) : Type 0 where
  pub job_id : String
  pub normalized_thesis : String
  pub scenarios : ScenarioView F
  pub supporting_evidence : List String
  pub opposing_evidence : List String
  pub catalysts : List String
  pub risks : List String
  pub invalidation_triggers : List String
  pub confidence_rationale : String
  pub provenance : List ProvenanceRecord
  pub evidence_sources : List MemoEvidenceSource
  pub verification_attestations : List (VerificationAttestation F)
  pub partial : Bool
  pub partial_reason : Option String

-- `xs[:n]`
abbrev pub take : {A : Type 0} → ℕ → List A → List A
take zero xs = []
take (suc n) [] = []
take (suc n) (x ∷ xs) = x ∷ take n xs

-- An item is appended unless it is empty or was seen; `seen` has what `compacted` has.
abbrev pub compacted_with : String → List String → List String
compacted_with text compacted =
    if is_empty text
    then compacted
    else if is_mem text compacted
    then compacted
    else compacted ++ text ∷ []

unfoldable pub compacted_from : List String → List String → List String
unfolding strip
compacted_from compacted [] = compacted
compacted_from compacted (v ∷ values) = compacted_from (compacted_with (strip v) compacted) values

-- `_compact_unique`, of texts.
unfoldable pub compact_unique : List String → List String
unfolding compacted_from
compact_unique values = take 8 (compacted_from [] values)

abbrev pub is_nil : {A : Type 0} → List A → Bool
is_nil [] = true
is_nil (x ∷ xs) = false

-- `isinstance(source, dict)`
abbrev dicts : Items → List Fields
dicts (nil) = []
dicts (item (obj d) more) = d ∷ dicts more
dicts (item _ more) = dicts more

abbrev listed : Option Json → List Fields
listed (some (arr items)) = dicts items
listed _ = []

-- `_input_sources`, of the result's own sources and its metadata.
unfoldable pub input_sources : List Fields → Fields → List Fields
input_sources [] metadata = listed (get_field "input_sources" metadata)
input_sources (s ∷ sources) metadata = s ∷ sources

abbrev add_source : Option Json → Fields → Dict String Fields → Dict String Fields
add_source (some (str role)) source d = elim (lookup role d) [
  | none ↦ insert role source d
  | some earlier ↦ d
]
add_source _ source d = d

-- `_input_source_by_role`: of several sources of a role the first.
unfoldable pub input_source_by_role : List Fields → Dict String Fields → Dict String Fields
input_source_by_role [] d = d
input_source_by_role (s ∷ sources) d =
    input_source_by_role sources (add_source (get_field "input_role" s) s d)

-- `_optional_str(source.get(key))`, of a source that may be missing.
abbrev pub source_text : String → Option Fields → Option String
source_text key none = none
source_text key (some source) = text_of (get_field key source)

-- `_normalize_forecast_question`; `shown` is `str` of a number.
unfoldable pub normalize_forecast_question : (ℕ → String) → ThesisRequest → String
normalize_forecast_question shown request = fstring (
    "Will "
    ∷ request.asset
    ∷ " validate this thesis over "
    ∷ shown request.horizon_days
    ∷ " days: "
    ∷ request.thesis
    ∷ [])
