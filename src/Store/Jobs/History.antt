-- ===== src/Store/Jobs/History.antt =====
-- The tables that creating and completing jobs leads to (app/store/jobs.py).
use signal_count.Base.{
  String, ◌≡◌, refl, ap, ◌∙◌, subst, ◌⊎◌, inl, inr, Bool, true, false, Option, none, some, List, [],
  ◌∷◌, ◌++◌, map, All, All-append, Bool-cases, ◌==◌, string_eq, if◌then◌else◌, arith,
}
use signal_count.Base.Json.{Json, arr, nil, obj, end}
use signal_count.Base.Outcome.{ok}
use signal_count.Store.Jobs.Roundtrip.{create_job_grown}
use signal_count.Store.Jobs.{
  JobRecord, JobRow, JobLibrary, has_job, row_of, pending_job, create_job, update_rows,
  completed_row, complete_job, or_default,
}

abbrev pub ids : List JobRow → List String
ids rows = map (λ r. r.job_id) rows

-- No id stands twice.
abbrev pub HasUniqueIds : List JobRow → Type 0
HasUniqueIds [] = Unit
HasUniqueIds (r ∷ rows) = (has_job r.job_id rows ≡ false) × HasUniqueIds rows

has_job-append :
    (i : String) (rows : List JobRow) (row : JobRow)
    → has_job i rows ≡ false
    → (row.job_id == i) ≡ false
    → has_job i (rows ++ row ∷ []) ≡ false
has_job-append i [] row h other = rw other refl
has_job-append i (r ∷ rows) row h other = ground (arith, has_job-append i rows row)

HasUniqueIds-append :
    (rows : List JobRow) (row : JobRow)
    → has_job row.job_id rows ≡ false
    → HasUniqueIds rows
    → HasUniqueIds (rows ++ row ∷ [])
HasUniqueIds-append [] row fresh unique = (refl, tt)
HasUniqueIds-append (r ∷ rows) row fresh (alone, unique) = (
  has_job-append r.job_id rows row alone (
      ground (arith, string_eq.beq_iff row.job_id r.job_id, string_eq.beq_iff r.job_id row.job_id)),
  HasUniqueIds-append rows row (ground arith) unique,
)

-- A job waits without a memo, or is completed with one.
abbrev pub IsConsistent : JobRow → Type 0
IsConsistent r =
    ((r.status ≡ "pending") × (r.memo ≡ none))
    ⊎ ((r.status ≡ "completed") × ((memo : String) × (r.memo ≡ some memo)))

abbrev pub IsSound : List JobRow → Type 0
IsSound rows = HasUniqueIds rows × All IsConsistent rows

module _ (change : JobRow → JobRow) (keeps : (r : JobRow) → (change r).job_id ≡ r.job_id)
    (i : String) where
  changed_id : (b : Bool) (r : JobRow) → (if b then change r else r).job_id ≡ r.job_id
  changed_id true r = keeps r
  changed_id false r = refl

  has_job-update_rows :
      (j : String) (rows : List JobRow) → has_job j (update_rows change i rows) ≡ has_job j rows
  unfolding update_rows
  has_job-update_rows j [] = refl
  has_job-update_rows j (r ∷ rows) =
      ap (λ k. if k == j then true else has_job j (update_rows change i rows))
        (changed_id (r.job_id == i) r)
      ∙ ap (λ b. if r.job_id == j then true else b) (has_job-update_rows j rows)

  HasUniqueIds-update_rows :
      (rows : List JobRow) → HasUniqueIds rows → HasUniqueIds (update_rows change i rows)
  unfolding update_rows
  HasUniqueIds-update_rows [] unique = tt
  HasUniqueIds-update_rows (r ∷ rows) (alone, unique) = (
    ap (λ k. has_job k (update_rows change i rows)) (changed_id (r.job_id == i) r)
        ∙ has_job-update_rows r.job_id rows
        ∙ alone,
    HasUniqueIds-update_rows rows unique,
  )

  pub All-update_rows :
      (P : JobRow → Type 0) (rows : List JobRow)
      → ((r : JobRow) → (r.job_id == i) ≡ true → P (change r))
      → All P rows
      → All P (update_rows change i rows)
  unfolding update_rows
  All-update_rows P [] made all = tt
  All-update_rows P (r ∷ rows) made (p, all) =
      (either (Bool-cases (r.job_id == i)), All-update_rows P rows made all)
    where
      either :
          ((r.job_id == i) ≡ true) ⊎ ((r.job_id == i) ≡ false)
          → P (if r.job_id == i then change r else r)
      either (inl here) = rw here (made r here)
      either (inr other) = rw other p

module _ (lib : JobLibrary) where
  -- A table that jobs are created and completed in, in any order.
  pub data Reached : List JobRow → Type 0 where
    empty : Reached []
    create :
        (uuid now : String) (payload : Json) (job : JobRecord) {rows after : List JobRow}
        → Reached rows
        → create_job lib uuid now payload rows ≡ ok (job, after)
        → Reached after
    complete :
        (i : String) (memo : Json) (ledger snapshot metadata : Option Json) {rows : List JobRow}
        → Reached rows
        → Reached (complete_job lib i memo ledger snapshot metadata rows)

  -- Whatever jobs are created and completed, no id stands twice in the table, and a job is pending
  -- without a memo or completed with one.
  pub Reached-IsSound : {rows : List JobRow} → Reached rows → IsSound rows
  unfolding complete_job
  Reached-IsSound (empty) = (tt, tt)
  Reached-IsSound (create uuid now payload job {rows} reached made) =
      let (fresh, grown) = create_job_grown lib uuid now payload rows made in
      let sound = Reached-IsSound reached in
      let row = row_of lib (pending_job lib uuid now payload) in
      subst IsSound grown (
        HasUniqueIds-append rows row fresh sound.0,
        All-append IsConsistent rows row sound.1 (inl (refl, refl)),
      )
  Reached-IsSound (complete i memo ledger snapshot metadata {rows} reached) =
      let change =
        completed_row lib memo (or_default ledger (arr nil)) snapshot
          (or_default metadata (obj end)) in
      let sound = Reached-IsSound reached in
      (
        HasUniqueIds-update_rows change (λ r. refl) i rows sound.0,
        All-update_rows change (λ r. refl) i IsConsistent rows
            (λ r here. inr (refl, (lib.dumps memo, refl))) sound.1,
      )
