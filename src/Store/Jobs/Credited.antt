-- ===== src/Store/Jobs/Credited.antt =====
-- The leaderboard of app/store/jobs.py, for jobs that are completed with the metadata of a run.
use signal_count.Base.{
  String, ◌≡◌, refl, ap, sym, subst, true, Option, some, List, [], ◌∷◌, ◌++◌, map, All, All-append,
  All-select, concat_map, ◌==◌, string_eq,
}
use mathlib.Core.List.{map-append}
use signal_count.Base.Json.{Json, arr, nil}
use signal_count.Base.Outcome.{ok}
use signal_count.Base.Sorting.{sorted-Reordered, All-Reordered}
use signal_count.Base.Floats.{Floats}
use signal_count.Evaluation.Reputation.{ReputationUpdate}
use signal_count.Evaluation.Reputation.Leaderboard.{
  ValueLibrary, update_dict, coerce_updates, coerce_update-update_dict, IsStorable,
  build_reputation_leaderboard,
}
use signal_count.Store.Jobs.Roundtrip.{Restores, create_job_grown}
use signal_count.Store.Jobs.History.{All-update_rows}
use signal_count.Store.Jobs.{
  JobRecord, JobRow, JobLibrary, row_of, pending_job, create_job, complete_job, completed_row,
  or_default, is_earlier,
}
use signal_count.Store.Jobs.Leaderboard.{
  updates_of, completed_rows, all_updates, get_reputation_leaderboard,
}

module _ {F : Type 0} (values : ValueLibrary F) where
  coerce_updates-update_dict :
      (updates : List (ReputationUpdate F))
      → All (IsStorable values) updates
      → coerce_updates values (map (update_dict values) updates) ≡ ok updates
  unfolding coerce_updates
  coerce_updates-update_dict [] h = refl
  coerce_updates-update_dict (u ∷ us) (storable, more) =
      rw (coerce_update-update_dict values u storable, coerce_updates-update_dict us more) refl

All-join : {A : Type 0} (P : A → Type 0) (xs ys : List A) → All P xs → All P ys → All P (xs ++ ys)
All-join P [] ys all more = more
All-join P (x ∷ xs) ys (p, all) more = (p, All-join P xs ys all more)

All-concat_map :
    {A B : Type 0} (P : B → Type 0) (f : A → List B) (xs : List A)
    → ((x : A) → All P (f x))
    → All P (concat_map f xs)
All-concat_map P f [] h = tt
All-concat_map P f (x ∷ xs) h = All-join P (f x) (concat_map f xs) (h x) (All-concat_map P f xs h)

-- Each job is completed with the metadata of its run, from which its updates are read back.
module _ (lib : JobLibrary) (fl : Floats) (values : ValueLibrary fl.Float)
    (metadata_of : String → Json) (updates : String → List (ReputationUpdate fl.Float)) where
  open fl use {Float}

  -- A table that jobs are created in and completed in with the metadata of their runs, in any order.
  pub data Submitted : List JobRow → Type 0 where
    empty : Submitted []
    create :
        (uuid now : String) (payload : Json) (job : JobRecord) {rows after : List JobRow}
        → Submitted rows
        → create_job lib uuid now payload rows ≡ ok (job, after)
        → Submitted after
    complete :
        (i : String) (memo : Json) (ledger snapshot : Option Json) {rows : List JobRow}
        → Submitted rows
        → Submitted (complete_job lib i memo ledger snapshot (some (metadata_of i)) rows)

  -- A completed job has the metadata of its run.
  abbrev IsRecorded : JobRow → Type 0
  IsRecorded r =
      (r.status == "completed") ≡ true → r.run_metadata ≡ lib.dumps (metadata_of r.job_id)

  Submitted-IsRecorded : {rows : List JobRow} → Submitted rows → All IsRecorded rows
  unfolding complete_job
  Submitted-IsRecorded (empty) = tt
  Submitted-IsRecorded (create uuid now payload job {rows} submitted made) =
      let (fresh, grown) = create_job_grown lib uuid now payload rows made in
      subst (All IsRecorded) grown (
        All-append IsRecorded rows (row_of lib (pending_job lib uuid now payload))
          (Submitted-IsRecorded submitted) (λ h. cc))
  Submitted-IsRecorded (complete i memo ledger snapshot {rows} submitted) =
      All-update_rows
        (completed_row lib memo (or_default ledger (arr nil)) snapshot (metadata_of i)) (λ r. refl)
        i IsRecorded rows
        (λ r here done.
          ap (λ j. lib.dumps (metadata_of j)) (sym ((string_eq.beq_iff r.job_id i).0 here)))
        (Submitted-IsRecorded submitted)

  module _ (restores : (i : String) → Restores lib (metadata_of i))
      (gives : (i : String)
        → updates_of (metadata_of i) ≡ ok (map (update_dict values) (updates i)))
      (storable : (i : String) → All (IsStorable values) (updates i)) where
    abbrev pub updates_in : List JobRow → List (ReputationUpdate Float)
    updates_in rows = concat_map (λ r. updates r.job_id) rows

    all_updates-recorded :
        (rows : List JobRow)
        → All (λ r. r.run_metadata ≡ lib.dumps (metadata_of r.job_id)) rows
        → all_updates lib rows ≡ ok (map (update_dict values) (updates_in rows))
    unfolding all_updates
    all_updates-recorded [] h = refl
    all_updates-recorded (r ∷ rows) (same, more) =
        rw (same, restores r.job_id, gives r.job_id, all_updates-recorded rows more)
          (ap ok (sym (map-append (update_dict values) (updates r.job_id) (updates_in rows))))

    completed_rows-recorded :
        {rows : List JobRow}
        → Submitted rows
        → All (λ r. r.run_metadata ≡ lib.dumps (metadata_of r.job_id)) (completed_rows lib rows)
    unfolding completed_rows
    completed_rows-recorded {rows} submitted =
        All-Reordered _ (sorted-Reordered (is_earlier lib) _)
          (All-select _ (λ r. r.status == "completed") rows (Submitted-IsRecorded submitted))

    module _ (round6 percent : Float → Float) (add : Float → Float → Float) where
      -- If each run's metadata is read back as it was written, gives the updates of the run, and these
      -- are read back, the leaderboard is there and is that of the updates of the completed jobs' runs,
      -- in the order of the jobs' times.
      pub get_reputation_leaderboard-Submitted :
          {rows : List JobRow}
          → Submitted rows
          → get_reputation_leaderboard lib fl values round6 percent add rows
            ≡ ok (
                build_reputation_leaderboard fl round6 percent add
                  (updates_in (completed_rows lib rows)))
      unfolding get_reputation_leaderboard
      get_reputation_leaderboard-Submitted {rows} submitted =
          let done = completed_rows lib rows in
          rw
            (
              all_updates-recorded done (completed_rows-recorded submitted),
              coerce_updates-update_dict values (updates_in done) (
                  All-concat_map (IsStorable values) (λ r. updates r.job_id) done
                    (λ r. storable r.job_id)),
            )
            refl
