-- ===== src/Store/Jobs/Roundtrip.antt =====
-- What app/store/jobs.py gives back of the jobs that it stores.
use signal_count.Base.{
  String, ◌≡◌, refl, ap, ◌∙◌, sym, inl, inr, Bool, true, false, Option, none, some, List, [], ◌∷◌,
  ◌++◌, ◌==◌, string_eq, beq_refl, if◌then◌else◌, Bool-cases, arith,
}
use signal_count.Base.Json.{Json, arr, obj, nil, end}
use signal_count.Base.Outcome.{Outcome, ok, err, >>=-ok, ok_inj}
use signal_count.Store.Jobs.{
  JobRecord, JobRow, JobError, JobLibrary, has_job, find_row, insert_row, row_of, pending_job,
  create_job, update_rows, completed_row, complete_job, or_default, map_option, row_to_job_record,
  loaded, loaded_if, job_if, get_job,
}

-- The row of an id that comes first, in the table or after it.
abbrev first_of : Option JobRow → Option JobRow → Option JobRow
first_of none other = other
first_of (some r) other = some r

first_of-none : (o : Option JobRow) → first_of o none ≡ o
first_of-none none = refl
first_of-none (some r) = refl

find_row-append :
    (i : String) (rows others : List JobRow)
    → find_row i (rows ++ others) ≡ first_of (find_row i rows) (find_row i others)
find_row-append i [] others = refl
find_row-append i (r ∷ rows) others = ground (arith, find_row-append i rows others)

find_row-has_job :
    (i : String) (rows : List JobRow) → has_job i rows ≡ false → find_row i rows ≡ none
find_row-has_job i [] h = refl
find_row-has_job i (r ∷ rows) h = ground (arith, find_row-has_job i rows)

abbrev changed : (JobRow → JobRow) → Option JobRow → Option JobRow
changed change none = none
changed change (some r) = some (change r)

find_row-update_rows :
    (change : JobRow → JobRow) (i j : String) (rows : List JobRow)
    → ((r : JobRow) → (change r).job_id ≡ r.job_id)
    → find_row j (update_rows change i rows)
      ≡ (if i == j then changed change (find_row j rows) else find_row j rows)
unfolding update_rows
find_row-update_rows change i j [] keeps = ground arith
find_row-update_rows change i j (r ∷ rows) keeps =
    let new = if r.job_id == i then change r else r in
    ap (λ k. if k == j then some new else find_row j (update_rows change i rows))
      (kept_id (r.job_id == i))
    ∙ ap (λ o. if r.job_id == j then some new else o) (find_row-update_rows change i j rows keeps)
    ∙ by_ids r.job_id (find_row j rows)
  where
    kept_id : (b : Bool) → (if b then change r else r).job_id ≡ r.job_id
    kept_id true = keeps r
    kept_id false = refl

    by_ids :
        (k : String) (o : Option JobRow)
        → (if k == j
            then some (if k == i then change r else r)
            else (if i == j then changed change o else o))
          ≡ (if i == j
              then changed change (if k == j then some r else o)
              else (if k == j then some r else o))
    by_ids k o = ground (arith, string_eq.beq_iff k j, string_eq.beq_iff i j, string_eq.beq_iff k i)

-- A job with what its completion changes.
abbrev pub completed : Json → Json → Option Json → Json → JobRecord → JobRecord
completed memo ledger snapshot metadata job = record job {
  status = "completed";
  memo = some memo;
  provenance_ledger = ledger;
  topology_snapshot = snapshot;
  run_metadata = metadata;
}

module _ (lib : JobLibrary) where
  -- A value that is read from its text as it was.
  abbrev pub Restores : Json → Type 0
  Restores j = lib.loads (lib.dumps j) ≡ some j

  abbrev pub RestoresIf : Option Json → Type 0
  RestoresIf none = Unit
  RestoresIf (some j) = Restores j

  -- What a creation that raises nothing has done.
  pub create_job_grown :
      (uuid now : String) (payload : Json) (rows : List JobRow) {job : JobRecord}
      {after : List JobRow}
      → create_job lib uuid now payload rows ≡ ok (job, after)
      → (has_job uuid rows ≡ false)
        × (rows ++ row_of lib (pending_job lib uuid now payload) ∷ [] ≡ after)
  unfolding create_job insert_row
  create_job_grown uuid now payload rows made = elim (Bool-cases (has_job uuid rows)) [
    | inl taken ↦ let bad = rw taken at made in cc
    | inr fresh ↦ (fresh, ap (λ o. second o) (rw fresh at made))
  ]
    where
      second : Outcome JobError (JobRecord × List JobRow) → List JobRow
      second (ok p) = p.1
      second (err e) = []

  -- A job that is created is read back as it was made; every other job is read as before.
  pub get_job-create_job :
      (uuid now : String) (payload : Json) (rows after : List JobRow) {job : JobRecord}
      → Restores payload
      → Restores (arr nil)
      → Restores (obj end)
      → create_job lib uuid now payload rows ≡ ok (job, after)
      → (get_job lib uuid after ≡ ok (some (pending_job lib uuid now payload)))
        × ((j : String) → (uuid == j) ≡ false → get_job lib j after ≡ get_job lib j rows)
  unfolding get_job row_to_job_record
  get_job-create_job uuid now payload rows after whole empty_list empty_dict made =
      let (fresh, grown) = create_job_grown uuid now payload rows made in
      let row = row_of lib (pending_job lib uuid now payload) in
      (
        ap (λ t. job_if lib (find_row uuid t)) (sym grown)
            ∙ rw
                (
                  find_row-append uuid rows (row ∷ []),
                  find_row-has_job uuid rows fresh,
                  beq_refl uuid,
                  whole,
                  empty_list,
                  empty_dict,
                )
                refl,
        λ j other.
            ap (λ t. job_if lib (find_row j t)) (sym grown)
            ∙ ap (job_if lib)
                (find_row-append j rows (row ∷ []) ∙ rw other (first_of-none (find_row j rows))),
      )

  -- The documents of a completion.
  abbrev pub DocumentsRestore : Json → Json → Option Json → Json → Type 0
  DocumentsRestore memo ledger snapshot metadata =
      Restores memo × Restores ledger × RestoresIf snapshot × Restores metadata

  loaded_if-Restores :
      (snapshot : Option Json)
      → RestoresIf snapshot
      → loaded_if lib (map_option lib.dumps snapshot) ≡ ok snapshot
  loaded_if-Restores none h = refl
  loaded_if-Restores (some j) h = rw h refl

  row_to_job_record-payload :
      (row : JobRow) {job : JobRecord}
      → row_to_job_record lib row ≡ ok job
      → (loaded lib row.thesis_payload ≡ ok job.payload)
        × (row.job_id ≡ job.job_id)
        × (row.created_at ≡ job.created_at)
  unfolding row_to_job_record
  row_to_job_record-payload row read =
      let (memo, of_memo, rest) = >>=-ok (loaded_if lib row.memo) _ read in
      let (snapshot, of_snapshot, more) = >>=-ok (loaded_if lib row.topology_snapshot) _ rest in
      let (payload, of_payload, others) = >>=-ok (loaded lib row.thesis_payload) _ more in
      let (ledger, of_ledger, last) = >>=-ok (loaded lib row.provenance_ledger) _ others in
      let (metadata, of_metadata, made) = >>=-ok (loaded lib row.run_metadata) _ last in
      let same = ok_inj made in
      (
        of_payload ∙ ap (λ x. ok x.payload) same,
        ap (λ x. x.job_id) same,
        ap (λ x. x.created_at) same,
      )

  row_to_job_record-completed_row :
      (memo ledger : Json) (snapshot : Option Json) (metadata : Json) (row : JobRow)
      {job : JobRecord}
      → DocumentsRestore memo ledger snapshot metadata
      → row_to_job_record lib row ≡ ok job
      → row_to_job_record lib (completed_row lib memo ledger snapshot metadata row)
        ≡ ok (completed memo ledger snapshot metadata job)
  unfolding row_to_job_record
  row_to_job_record-completed_row memo ledger snapshot metadata row {job} (m, l, t, d) read =
      let (payload, id, time) = row_to_job_record-payload row read in
      rw (m, l, loaded_if-Restores snapshot t, d, payload, id, time) refl

  job_if_found :
      (o : Option JobRow) {job : JobRecord}
      → job_if lib o ≡ ok (some job)
      → (row : JobRow) × (o ≡ some row) × (row_to_job_record lib row ≡ ok job)
  unfolding row_to_job_record
  job_if_found none h = cc
  job_if_found (some row) h =
      let (job, read, same) = >>=-ok (row_to_job_record lib row) _ h in (row, refl, read ∙ cc)

  -- A job that is read, and then completed, is read with what the completion changes; every other job
  -- is read as before.
  pub get_job-complete_job :
      (i : String) (memo : Json) (ledger snapshot metadata : Option Json) (rows : List JobRow)
      {job : JobRecord}
      → DocumentsRestore memo (or_default ledger (arr nil)) snapshot (or_default metadata (obj end))
      → get_job lib i rows ≡ ok (some job)
      → (get_job lib i (complete_job lib i memo ledger snapshot metadata rows)
          ≡ ok (
              some (
                completed memo
                  (or_default ledger (arr nil))
                  snapshot
                  (or_default metadata (obj end))
                  job)))
        × ((j : String)
            → (i == j) ≡ false
            → get_job lib j (complete_job lib i memo ledger snapshot metadata rows)
              ≡ get_job lib j rows)
  unfolding complete_job get_job row_to_job_record
  get_job-complete_job i memo ledger snapshot metadata rows {job} restored read =
      let change =
        completed_row lib memo (or_default ledger (arr nil)) snapshot
          (or_default metadata (obj end)) in
      let (row, found, of_row) = job_if_found (find_row i rows) read in
      (
        ap (job_if lib) (find_row-update_rows change i i rows (λ r. refl))
            ∙ rw
                (
                  beq_refl i,
                  found,
                  row_to_job_record-completed_row memo (or_default ledger (arr nil)) snapshot
                      (or_default metadata (obj end)) row restored of_row,
                )
                refl,
        λ j other.
            ap (job_if lib) (find_row-update_rows change i j rows (λ r. refl) ∙ rw other refl),
      )
