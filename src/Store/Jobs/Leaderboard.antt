-- ===== src/Store/Jobs/Leaderboard.antt =====
-- The leaderboard of app/store/jobs.py: the updates of the completed jobs, in the order of their times.
use signal_count.Base.{Option, some, List, [], ◌∷◌, ◌++◌, select, ◌==◌, string_eq}
use signal_count.Base.Json.{Json, arr, obj, nil, item, Items, Fields, get_field}
use signal_count.Base.Text.{text_lt}
use signal_count.Base.Outcome.{Outcome, ok, err, ◌>>=◌}
use signal_count.Base.Sorting.{sorted}
use signal_count.Base.Floats.{Floats}
use signal_count.Evaluation.Reputation.{ReputationLedgerEntry}
use signal_count.Evaluation.Reputation.Leaderboard.{
  UpdateError, ValueLibrary, coerce_updates, build_reputation_leaderboard,
}
use signal_count.Store.Jobs.{JobRow, JobError, not_a_dict, update, JobLibrary, is_earlier, loaded}

-- The updates of a run's metadata: `raw_updates` if it is a list, and of its items the dicts.
abbrev pub dicts_of : Items → List Fields
dicts_of (nil) = []
dicts_of (item (obj d) more) = d ∷ dicts_of more
dicts_of (item _ more) = dicts_of more

abbrev pub raw_updates : Option Json → List Fields
raw_updates (some (arr items)) = dicts_of items
raw_updates _ = []

abbrev pub updates_of : Json → Outcome JobError (List Fields)
updates_of (obj metadata) = ok (raw_updates (get_field "reputation_updates" metadata))
updates_of _ = err not_a_dict

module _ (lib : JobLibrary) where
  -- The rows under `WHERE status = 'completed' ORDER BY datetime(created_at) ASC, rowid ASC`.
  unfoldable pub completed_rows : List JobRow → List JobRow
  unfolding text_lt
  completed_rows rows = sorted (is_earlier lib) (select (λ r. r.status == "completed") rows)

  unfoldable pub all_updates : List JobRow → Outcome JobError (List Fields)
  all_updates [] = ok []
  all_updates (r ∷ rows) = do
    metadata ← loaded lib r.run_metadata
    updates ← updates_of metadata
    more ← all_updates rows
    ok (updates ++ more)

  abbrev pub lift_update : {A : Type 0} → Outcome UpdateError A → Outcome JobError A
  lift_update (ok a) = ok a
  lift_update (err e) = err (update e)

  module _ (fl : Floats) (values : ValueLibrary fl.Float) (round6 percent : fl.Float → fl.Float)
      (add : fl.Float → fl.Float → fl.Float) where
    open fl use {Float}

    -- `get_reputation_leaderboard`
    unfoldable pub get_reputation_leaderboard :
        List JobRow → Outcome JobError (List (ReputationLedgerEntry Float))
    unfolding completed_rows all_updates coerce_updates build_reputation_leaderboard
    get_reputation_leaderboard rows = do
      dicts ← all_updates (completed_rows rows)
      updates ← lift_update (coerce_updates values dicts)
      ok (build_reputation_leaderboard fl round6 percent add updates)
