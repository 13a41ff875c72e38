-- ===== src/Coordinator/Synthesis/Answer.antt =====
-- The memo of the language model's answer, and what `synthesize` makes of it
-- (app/coordinator/synthesis.py).
pub mod Outcomes
use Prim.Native.Char.{Char}
use Prim.Native.String.{String as Text}
use signal_count.Base.{
  ℕ, String, ◌≡◌, refl, ap, ◌∙◌, sym, ◌⊎◌, inl, inr, Bool, true, false, Option, none, some, List,
  [], ◌∷◌, ◌++◌, ◌==◌, string_eq, if◌then◌else◌, Bool-cases, Option-cases,
}
use signal_count.Base.Json.{
  Json, null, bool, nat, num, str, arr, obj, Items, nil, item, Fields, end, field, get_field,
  set_field,
}
use signal_count.Base.Text.{strip, starts_with, has_char, after_char, contains}
use signal_count.Base.Outcome.{Outcome, ok, err, ◌>>=◌, or_raise}
use signal_count.Base.Floats.{Floats}
use signal_count.Schemas.{ThesisRequest, VerificationAttestation}
use signal_count.Identity.Hashing.{Crypto}
use signal_count.Coordinator.Run.{DispatchResult}
use signal_count.Coordinator.Synthesis.{
  build_provenance, rejected_evidence, evidence_sources, is_partial, build_partial_reason,
  fallback_memo,
}
use signal_count.Coordinator.Memo.{
  ProvenanceRecord, MemoEvidenceSource, FinalMemo, compact_unique, normalize_forecast_question,
}

-- An exception: one of those that `synthesize` answers by the fallback, or another.
pub data AnswerError : Type 0 where
  expected : AnswerError
  other : AnswerError

-- `s.rsplit(sep, 1)[0]`
unfoldable pub before_last : String → String → String
unfolding contains starts_with
before_last sep Text.[] = ""
before_last sep (Text.◌∷◌ c s) =
    let rest = before_last sep s in
    if contains sep s
    then Text.◌∷◌ c rest
    else if starts_with sep (Text.◌∷◌ c s)
    then ""
    else Text.◌∷◌ c rest

-- The answer without its fence: `split("\n", 1)[1]` raises an `IndexError` on a single line.
unfoldable pub unfenced : String → Outcome AnswerError String
unfolding strip starts_with has_char after_char before_last
unfenced llm_text =
    let text = strip llm_text in
    if starts_with "```" text
    then if has_char 10 text then ok (strip (before_last "```" (after_char 10 text))) else err other
    else ok text

abbrev pub as_dict : Json → Outcome AnswerError Fields
as_dict (obj d) = ok d
as_dict _ = err expected

abbrev letters_of : String → List String
letters_of Text.[] = []
letters_of (Text.◌∷◌ c s) = Text.◌∷◌ c "" ∷ letters_of s

abbrev keys_of : Fields → List String
keys_of (end) = []
keys_of (field k v d) = k ∷ keys_of d

abbrev texts_of : Items → List String
texts_of (nil) = []
texts_of (item (str s) more) = s ∷ texts_of more
texts_of (item _ more) = texts_of more

-- The texts that iterating over the value yields; what cannot be iterated over raises a `TypeError`.
abbrev pub iterated : Option Json → Outcome AnswerError (List String)
iterated none = ok []
iterated (some (arr items)) = ok (texts_of items)
iterated (some (str s)) = ok (letters_of s)
iterated (some (obj d)) = ok (keys_of d)
iterated (some _) = err expected

abbrev reason_or_null : Option String → Json
reason_or_null none = null
reason_or_null (some s) = str s

-- `json.loads`, `model_dump` of lists of records, and `FinalMemo.model_validate`, which takes the fields
-- of a memo from the payload.
pub record MemoLibrary (F : Type 0) : Type 0 where
  pub loads : String → Option Json
  pub dump_provenance : List ProvenanceRecord → Json
  pub dump_attestations : List (VerificationAttestation F) → Json
  pub dump_sources : List MemoEvidenceSource → Json
  pub dump_texts : List String → Json
  pub model_validate : Fields → Option (FinalMemo F)
  pub validate_job_id :
      (d : Fields) (m : FinalMemo F) (job_id : String)
      → model_validate d ≡ some m
      → get_field "job_id" d ≡ some (str job_id)
      → m.job_id ≡ job_id
  pub validate_partial :
      (d : Fields) (m : FinalMemo F) (partial : Bool)
      → model_validate d ≡ some m
      → get_field "partial" d ≡ some (bool partial)
      → m.partial ≡ partial

module _ (fl : Floats) (add : fl.Float → fl.Float → fl.Float) (over : fl.Float → ℕ → fl.Float)
    (crypto : Crypto fl.Float) (lib : MemoLibrary fl.Float) (shown : ℕ → String) (job_id : String)
    (request : ThesisRequest) (inputs : List Fields) (result : DispatchResult fl.Float) where
  open fl use {Float}
  open lib use {loads, dump_provenance, dump_attestations, dump_sources, dump_texts, model_validate}

  -- `_load_json_object`
  unfoldable pub load_json_object : String → Outcome AnswerError Fields
  unfolding unfenced
  load_json_object llm_text = do
    text ← unfenced llm_text
    value ← or_raise (loads text) expected
    as_dict value

  -- The payload before the opposing evidence is set.
  unfoldable pub with_sources : Fields → Fields
  unfolding build_provenance evidence_sources normalize_forecast_question
  with_sources payload =
      set_field "evidence_sources"
        (dump_sources (evidence_sources fl add over crypto inputs result.responses))
        (set_field "verification_attestations" (dump_attestations result.attestations) (
          set_field "provenance" (dump_provenance (build_provenance result.responses)) (
            set_field "normalized_thesis" (str (normalize_forecast_question shown request))
              (set_field "job_id" (str job_id) payload))))

  unfoldable pub completed_payload : List String → Fields → Fields
  unfolding with_sources is_partial build_partial_reason rejected_evidence compact_unique
  completed_payload opposing payload =
      set_field "partial_reason" (reason_or_null (build_partial_reason result)) (
        set_field "partial" (bool (is_partial result)) (
          set_field "opposing_evidence"
            (dump_texts (compact_unique (opposing ++ rejected_evidence fl add over crypto result)))
            payload))

  -- `_parse_llm_memo`
  unfoldable pub parse_llm_memo : String → Outcome AnswerError (FinalMemo Float)
  unfolding load_json_object with_sources completed_payload
  parse_llm_memo llm_text = do
    loaded ← load_json_object llm_text
    let payload = with_sources loaded
    opposing ← iterated (get_field "opposing_evidence" payload)
    or_raise (model_validate (completed_payload opposing payload)) expected

  abbrev pub memo_or_fallback :
      Outcome AnswerError (FinalMemo Float) → Outcome AnswerError (FinalMemo Float)
  unfolding fallback_memo
  memo_or_fallback (ok memo) = ok memo
  memo_or_fallback (err (expected)) =
      ok (fallback_memo fl add over crypto shown job_id request inputs result)
  memo_or_fallback (err (other)) = err other

  -- `synthesize`, of what the call of the model comes to.
  unfoldable pub synthesize : Outcome AnswerError String → Outcome AnswerError (FinalMemo Float)
  unfolding parse_llm_memo fallback_memo
  synthesize answer = memo_or_fallback (answer >>= parse_llm_memo)
