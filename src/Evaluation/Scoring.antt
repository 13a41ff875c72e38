-- ===== src/Evaluation/Scoring.antt =====
-- The verifier's deterministic score of a response (app/evaluation/scoring.py).
use signal_count.Base.{
  ℕ, String, Bool, true, false, not, ◌||◌, Option, none, some, List, [], ◌∷◌, ◌++◌, length, select,
  leb, is_mem, ◌==◌, string_eq, if◌then◌else◌,
}
use signal_count.Base.Text.{is_empty, strip, join, contains, text_length}
use signal_count.Base.Floats.{Floats}
use signal_count.Schemas.{SpecialistResponse, TaskSpec}

-- Python's arithmetic of floats, without laws: `decimal n k` is the literal of n / 10^k, and
-- `ratio n m` is n / m of integers. `lower_text` is `str.lower` of any text, and `fixed4` writes four
-- places.
pub record ScoreArithmetic (fl : Floats) : Type 0 where
  pub decimal : ℕ → ℕ → fl.Float
  pub add : fl.Float → fl.Float → fl.Float
  pub sub : fl.Float → fl.Float → fl.Float
  pub mul : fl.Float → fl.Float → fl.Float
  pub ratio : ℕ → ℕ → fl.Float
  pub round4 : fl.Float → fl.Float
  pub fixed4 : fl.Float → String
  pub lower_text : String → String

pub record ScoreBreakdown (F : Type 0) : Type 0 where
  pub schema_validity : F
  pub task_relevance : F
  pub evidence_specificity : F
  pub dissent_value : F
  pub receipt_strength : F
  pub latency_completion : F

abbrev pub dissent_markers : List String
dissent_markers =
    "risk" ∷ "invalid" ∷ "opposing" ∷ "downside" ∷ "break" ∷ "reversal" ∷ "contrary" ∷ "uncertain"
    ∷ []

abbrev has_any : List String → String → Bool
unfolding contains
has_any [] text = false
has_any (m ∷ ms) text = if contains m text then true else has_any ms text

abbrev is_no_item : List String → Bool
is_no_item [] = true
is_no_item (x ∷ xs) = false

abbrev status_is : String → Option String → Bool
status_is status none = false
status_is status (some s) = s == status

module _ (fl : Floats) (ops : ScoreArithmetic fl) where
  open fl use {Float, lt}
  open ops use {decimal, add, mul, ratio, round4, lower_text}

  -- `min(a, b)`
  abbrev pub min_float : Float → Float → Float
  min_float a b = if lt b a then b else a

  -- `ScoreBreakdown.total`
  unfoldable pub score_total : ScoreBreakdown Float → Float
  score_total b = round4 (
      add
        (add
          (add
            (add (add (mul b.schema_validity (decimal 20 2)) (mul b.task_relevance (decimal 20 2)))
              (mul b.evidence_specificity (decimal 20 2)))
            (mul b.dissent_value (decimal 15 2)))
          (mul b.receipt_strength (decimal 15 2)))
        (mul b.latency_completion (decimal 10 2)))

  -- The lowered text of the summary, the signals and the risks.
  abbrev response_text : SpecialistResponse Float → String
  response_text r = lower_text (join " " (r.summary ∷ r.signals ++ r.risks))

  abbrev plus_if : Bool → Float → Float → Float
  plus_if test x score = if test then add score x else score

  unfoldable pub task_relevance : SpecialistResponse Float → TaskSpec → Float
  unfolding contains text_length
  task_relevance r task =
      let text = response_text r in
      let about = contains (lower_text task.asset) text || leb 80 (text_length text) in
      let known = is_mem r.node_role ("regime" ∷ "narrative" ∷ "risk" ∷ []) in
      min_float
        (plus_if about (decimal 25 2) (
          plus_if known (decimal 25 2)
            (plus_if (r.job_id == task.job_id) (decimal 5 1) (decimal 0 0))))
        (decimal 1 0)

  unfoldable pub evidence_specificity : SpecialistResponse Float → Float
  unfolding strip text_length
  evidence_specificity r =
      let items = r.signals ++ (r.risks ++ r.citations) in
      let long = leb 80 (text_length r.summary) in
      if is_no_item items
      then if long then decimal 25 2 else decimal 0 0
      else (let non_empty = select (λ i. not (is_empty (strip i))) items in
          let density = min_float (ratio (length non_empty) 3) (decimal 1 0) in
          let citation_bonus = if is_no_item r.citations then decimal 0 0 else decimal 2 1 in
          let summary_bonus = if long then decimal 2 1 else decimal 0 0 in
          min_float (add (add density citation_bonus) summary_bonus) (decimal 1 0))

  unfoldable pub dissent_value : SpecialistResponse Float → Float
  unfolding contains
  dissent_value r =
      if r.node_role == "risk"
      then decimal 1 0
      else if has_any dissent_markers (response_text r)
      then decimal 1 0
      else decimal 4 1

  unfoldable pub receipt_strength : SpecialistResponse Float → Float
  receipt_strength r =
      if status_is "verified" r.receipt_status
      then decimal 1 0
      else if status_is "validated" r.receipt_status
      then decimal 85 2
      else if status_is "parsed" r.receipt_status
      then decimal 55 2
      else decimal 0 0

  unfoldable pub score_specialist_response :
      SpecialistResponse Float → TaskSpec → ScoreBreakdown Float
  unfolding task_relevance evidence_specificity dissent_value receipt_strength
  score_specialist_response r task = record {
    schema_validity = decimal 1 0;
    task_relevance = task_relevance r task;
    evidence_specificity = evidence_specificity r;
    dissent_value = dissent_value r;
    receipt_strength = receipt_strength r;
    latency_completion = decimal 1 0;
  }
