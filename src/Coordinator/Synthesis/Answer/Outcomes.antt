-- ===== src/Coordinator/Synthesis/Answer/Outcomes.antt =====
-- What `synthesize` of app/coordinator/synthesis.py comes to, for every answer of the model.
use signal_count.Base.{
  ℕ, String, ◌≡◌, refl, ap, ◌∙◌, ◌⊎◌, inl, inr, true, false, Option, none, some, List, ◌++◌,
  string_eq, Bool-cases,
}
use signal_count.Base.Json.{
  Json, null, bool, nat, num, str, arr, obj, Fields, get_field, set_field, get_field-set_field,
}
use signal_count.Base.Text.{strip, starts_with, has_char}
use signal_count.Base.Outcome.{
  Outcome, ok, err, or_raise, or_raise-ok, >>=-ok, >>=-err, Outcome-cases,
}
use signal_count.Base.Floats.{Floats}
use signal_count.Schemas.{ThesisRequest}
use signal_count.Identity.Hashing.{Crypto}
use signal_count.Coordinator.Run.{DispatchResult}
use signal_count.Coordinator.Synthesis.{
  rejected_evidence, build_partial_reason, is_partial, fallback_memo,
}
use signal_count.Coordinator.Memo.{FinalMemo, compact_unique}
use signal_count.Coordinator.Synthesis.Answer.{
  AnswerError, expected, other, unfenced, as_dict, reason_or_null, iterated, MemoLibrary,
  load_json_object, with_sources, completed_payload, parse_llm_memo, memo_or_fallback, synthesize,
}

-- What is set first stays under the keys that are set after it.
job_id_kept :
    (reason partial opposing sources attestations provenance thesis v : Json) (d : Fields)
    → get_field "job_id" (
        set_field "partial_reason" reason (
          set_field "partial" partial (
            set_field "opposing_evidence" opposing (
              set_field "evidence_sources" sources (
                set_field "verification_attestations" attestations (
                  set_field "provenance" provenance
                    (set_field "normalized_thesis" thesis (set_field "job_id" v d))))))))
      ≡ some v
job_id_kept reason partial opposing sources attestations provenance thesis v d =
    let d1 = set_field "job_id" v d in
    let d2 = set_field "normalized_thesis" thesis d1 in
    let d3 = set_field "provenance" provenance d2 in
    let d4 = set_field "verification_attestations" attestations d3 in
    let d5 = set_field "evidence_sources" sources d4 in
    let d6 = set_field "opposing_evidence" opposing d5 in
    get_field-set_field "partial_reason" "job_id" reason (set_field "partial" partial d6)
    ∙ get_field-set_field "partial" "job_id" partial d6
    ∙ get_field-set_field "opposing_evidence" "job_id" opposing d5
    ∙ get_field-set_field "evidence_sources" "job_id" sources d4
    ∙ get_field-set_field "verification_attestations" "job_id" attestations d3
    ∙ get_field-set_field "provenance" "job_id" provenance d2
    ∙ get_field-set_field "normalized_thesis" "job_id" thesis d1
    ∙ get_field-set_field "job_id" "job_id" v d

partial_kept :
    (reason v : Json) (d : Fields)
    → get_field "partial" (set_field "partial_reason" reason (set_field "partial" v d)) ≡ some v
partial_kept reason v d =
    get_field-set_field "partial_reason" "partial" reason (set_field "partial" v d)
    ∙ get_field-set_field "partial" "partial" v d

-- A fence of one line.
abbrev pub IsBareFence : String → Type 0
IsBareFence llm_text =
    (starts_with "```" (strip llm_text) ≡ true) × (has_char 10 (strip llm_text) ≡ false)

-- The call of the model raises what is not expected, or its answer is a fence of one line.
abbrev pub Escapes : Outcome AnswerError String → Type 0
Escapes answer = (answer ≡ err other) ⊎ ((t : String) × (answer ≡ ok t) × IsBareFence t)

unfenced-other : (t : String) → unfenced t ≡ err other → IsBareFence t
unfolding unfenced
unfenced-other t h = elim (Bool-cases (starts_with "```" (strip t))) [
  | inl fenced ↦ elim (Bool-cases (has_char 10 (strip t))) [
    | inl lines ↦ let bad = rw (fenced, lines) at h in cc
    | inr bare ↦ (fenced, bare)
  ]
  | inr plain ↦ let bad = rw plain at h in cc
]

unfenced-IsBareFence : (t : String) → IsBareFence t → unfenced t ≡ err other
unfolding unfenced
unfenced-IsBareFence t (fenced, bare) = rw (fenced, bare) refl

as_dict-other : {P : Type 0} (j : Json) → as_dict j ≡ err other → P
as_dict-other (null) h = cc
as_dict-other (bool b) h = cc
as_dict-other (nat n) h = cc
as_dict-other (num n) h = cc
as_dict-other (str s) h = cc
as_dict-other (arr items) h = cc
as_dict-other (obj d) h = cc

iterated-other : {P : Type 0} (o : Option Json) → iterated o ≡ err other → P
iterated-other none h = cc
iterated-other (some (null)) h = cc
iterated-other (some (bool b)) h = cc
iterated-other (some (nat n)) h = cc
iterated-other (some (num n)) h = cc
iterated-other (some (str s)) h = cc
iterated-other (some (arr items)) h = cc
iterated-other (some (obj d)) h = cc

or_raise-other : {A P : Type 0} (o : Option A) → or_raise o expected ≡ err other → P
or_raise-other none h = cc
or_raise-other (some a) h = cc

module _ (fl : Floats) (add : fl.Float → fl.Float → fl.Float) (over : fl.Float → ℕ → fl.Float)
    (crypto : Crypto fl.Float) (lib : MemoLibrary fl.Float) (shown : ℕ → String) (job_id : String)
    (request : ThesisRequest) (inputs : List Fields) (result : DispatchResult fl.Float) where
  open fl use {Float}

  load_json_object-other :
      (t : String)
      → load_json_object fl add over crypto lib shown job_id request inputs result t ≡ err other
      → IsBareFence t
  unfolding load_json_object
  load_json_object-other t h = elim (>>=-err (unfenced t) _ h) [
    | inl fence ↦ unfenced-other t fence
    | inr (text, of_text, rest) ↦ elim (>>=-err (or_raise (lib.loads text) expected) _ rest) [
      | inl bad ↦ or_raise-other (lib.loads text) bad
      | inr (value, of_value, last) ↦ as_dict-other value last
    ]
  ]

  parse_llm_memo-other :
      (t : String)
      → parse_llm_memo fl add over crypto lib shown job_id request inputs result t ≡ err other
      → IsBareFence t
  unfolding parse_llm_memo
  parse_llm_memo-other t h =
      elim (>>=-err (load_json_object fl add over crypto lib shown job_id request inputs result t) _
        h) [
          | inl early ↦ load_json_object-other t early
          | inr (loaded, of_loaded, rest) ↦
              elim (>>=-err
                (iterated (
                  get_field "opposing_evidence" (
                    with_sources fl add over crypto lib shown job_id request inputs result loaded)))
                _ rest) [
                  | inl bad ↦ iterated-other _ bad
                  | inr (opposing, of_opposing, last) ↦ or_raise-other _ last
                ]
        ]

  -- A memo of this job, that says of the dispatch whether it was partial.
  abbrev pub IsOfJob : FinalMemo Float → Type 0
  IsOfJob memo = (memo.job_id ≡ job_id) × (memo.partial ≡ is_partial result)

  parse_llm_memo-IsOfJob :
      (t : String) {memo : FinalMemo Float}
      → parse_llm_memo fl add over crypto lib shown job_id request inputs result t ≡ ok memo
      → IsOfJob memo
  unfolding parse_llm_memo with_sources completed_payload
  parse_llm_memo-IsOfJob t {memo} h =
      let (loaded, of_loaded, rest) =
        >>=-ok (load_json_object fl add over crypto lib shown job_id request inputs result t) _ h in
      let payload = with_sources fl add over crypto lib shown job_id request inputs result loaded in
      let (opposing, of_opposing, last) =
        >>=-ok (iterated (get_field "opposing_evidence" payload)) _ rest in
      let whole =
        completed_payload fl add over crypto lib shown job_id request inputs result opposing
          payload in
      let valid = or_raise-ok (lib.model_validate whole) expected last in
      (
        lib.validate_job_id whole memo job_id valid (job_id_kept _ _ _ _ _ _ _ (str job_id) loaded),
        lib.validate_partial whole memo (is_partial result) valid (
            partial_kept (reason_or_null (build_partial_reason result)) (bool (is_partial result)) (
              set_field "opposing_evidence"
                (lib.dump_texts
                  (compact_unique (opposing ++ rejected_evidence fl add over crypto result)))
                payload)),
      )

  ends_either_way :
      (answer : Outcome AnswerError String)
      → (Escapes answer
          × (synthesize fl add over crypto lib shown job_id request inputs result answer
              ≡ err other))
        ⊎ ((memo : FinalMemo Float) × (synthesize fl add over crypto lib shown job_id request inputs
                result answer
              ≡ ok memo)
            × IsOfJob memo)
  unfolding synthesize fallback_memo
  ends_either_way (err (expected)) = inr (_, refl, (refl, refl))
  ends_either_way (err (other)) = inl (inl refl, refl)
  ends_either_way (ok t) =
      elim (Outcome-cases
        (parse_llm_memo fl add over crypto lib shown job_id request inputs result t)) [
          | inl (memo, made) ↦ inr (memo, ap or_made made, parse_llm_memo-IsOfJob t made)
          | inr (expected, failed) ↦ inr (_, ap or_made failed, (refl, refl))
          | inr (other, failed) ↦
              inl (inr (t, refl, parse_llm_memo-other t failed), ap or_made failed)
        ]
    where
      or_made : Outcome AnswerError (FinalMemo Float) → Outcome AnswerError (FinalMemo Float)
      or_made = memo_or_fallback fl add over crypto lib shown job_id request inputs result

  escapes :
      (answer : Outcome AnswerError String)
      → Escapes answer
      → synthesize fl add over crypto lib shown job_id request inputs result answer ≡ err other
  unfolding synthesize parse_llm_memo load_json_object
  escapes answer (inl raised) = rw raised refl
  escapes answer (inr (t, given, bare)) = rw (given, unfenced-IsBareFence t bare) refl

  -- For every answer the synthesis raises or gives a memo of this job, which is partial as the dispatch
  -- was. It raises exactly if the call of the model raises what is not expected, or the answer is a fence
  -- of one line.
  pub synthesize-outcome :
      (answer : Outcome AnswerError String)
      → ((Escapes answer
            × (synthesize fl add over crypto lib shown job_id request inputs result answer
                ≡ err other))
          ⊎ ((memo : FinalMemo Float) × (synthesize fl add over crypto lib shown job_id request
                  inputs result answer
                ≡ ok memo)
              × IsOfJob memo))
        × (Escapes answer
            → synthesize fl add over crypto lib shown job_id request inputs result answer
              ≡ err other)
  synthesize-outcome answer = (ends_either_way answer, escapes answer)
