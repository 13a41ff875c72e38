-- ===== src/Examples/Store.antt =====
-- A store of one job, to test app/store/jobs.py with.
use signal_count.Base.{
  ℕ, ◌+◌, String, ◌≡◌, refl, ◌⊎◌, true, false, Option, none, some, List, [], ◌∷◌, ◌==◌, string_eq,
  if◌then◌else◌,
}
use signal_count.Base.Json.{Json, arr, obj, nil, item, end, field, str, nat, bool}
use signal_count.Base.Text.{text_lt, starts_with, remove_prefix, drop_text}
use signal_count.Base.Outcome.{ok, err}
use signal_count.Evaluation.Reputation.{ReputationLedgerEntry, aggregate}
use signal_count.Evaluation.Reputation.Leaderboard.{
  ValueLibrary, coerce_update, coerce_updates, build_reputation_leaderboard,
}
use signal_count.Store.Schema.{Schema, initialize_tables}
use signal_count.Store.Schema.Migrated.{IsComplete, first_job_columns, initialize_tables-IsComplete}
use signal_count.Store.Jobs.{
  JobRow, JobLibrary, in_memory, parse_database_path, pending_job, row_of, insert_row, create_job,
  completed_row, update_rows, complete_job, get_job, job_if, get_latest_job,
}
use signal_count.Store.Jobs.Leaderboard.{completed_rows, all_updates, get_reputation_leaderboard}
use signal_count.Store.Jobs.Roundtrip.{get_job-create_job, completed, get_job-complete_job}
use signal_count.Store.Jobs.Latest.{IsLatest, get_latest_job-IsLatest}
use signal_count.Store.Jobs.History.{IsSound, empty, create, complete, Reached-IsSound}
use signal_count.Examples.Floats.{sample_floats}

abbrev pub dumps_empty : Json → String
dumps_empty (arr items) = "[]"
dumps_empty (obj (end)) = "{}"
dumps_empty _ = "updates"

-- The metadata of a run with one update.
abbrev metadata : Json
metadata = obj (
    field "reputation_updates"
      (arr (
        item
          (obj (
            field "job_id" (str "j1") (
              field "node_role" (str "risk") (
                field "peer_id" (str "b") (
                  field "verifier_status" (str "accepted") (
                    field "verifier_score" (nat 1) (
                      field "credit_eligible" (bool true)
                        (field "reputation_points" (nat 100) (field "reason" (str "r") end)))))))))
          nil))
      end)

abbrev loads_empty : String → Option Json
loads_empty s =
    if s == "[]" then some (arr nil) else if s == "{}" then some (obj end) else some metadata

abbrev library : JobLibrary
library = record { dumps = dumps_empty; loads = loads_empty; datetime = λ s. some s }

abbrev row : JobRow
row = row_of library (pending_job library "j1" "2026-01-01" (obj end))

creates :
    create_job library "j1" "2026-01-01" (obj end) []
    ≡ ok (pending_job library "j1" "2026-01-01" (obj end), row ∷ [])
unfolding create_job insert_row
creates = refl

refuses_memory : parse_database_path "sqlite:///:memory:" ≡ err in_memory
unfolding parse_database_path starts_with remove_prefix drop_text
refuses_memory = refl

get_job-create_job_example :
    (get_job library "j1" (row ∷ []) ≡ ok (some (pending_job library "j1" "2026-01-01" (obj end))))
    × ((j : String) → ("j1" == j) ≡ false → get_job library j (row ∷ []) ≡ get_job library j [])
get_job-create_job_example =
    get_job-create_job library "j1" "2026-01-01" (obj end) [] (row ∷ []) refl refl refl creates

abbrev done : List JobRow
done = completed_row library (obj end) (arr nil) none metadata row ∷ []

completes : complete_job library "j1" (obj end) none none (some metadata) (row ∷ []) ≡ done
unfolding complete_job update_rows
completes = refl

get_job-complete_job_example :
    (get_job library "j1" (complete_job library "j1" (obj end) none none (some metadata) (row ∷ []))
      ≡ ok (
          some (
            completed
              (obj end)
              (arr nil)
              none
              metadata
              (pending_job library "j1" "2026-01-01" (obj end)))))
    × ((j : String)
        → ("j1" == j) ≡ false
        → get_job library j
            (complete_job library "j1" (obj end) none none (some metadata) (row ∷ []))
          ≡ get_job library j (row ∷ []))
get_job-complete_job_example =
    get_job-complete_job library "j1" (obj end) none none (some metadata) (row ∷ [])
      (refl, refl, tt, refl) get_job-create_job_example.0

Reached-IsSound_example :
    IsSound (complete_job library "j1" (obj end) none none (some metadata) (row ∷ []))
Reached-IsSound_example = Reached-IsSound library (
    complete "j1" (obj end) none none (some metadata) (
      create "j1" "2026-01-01" (obj end) (pending_job library "j1" "2026-01-01" (obj end)) empty
        creates))

get_latest_job-IsLatest_example :
    ((row ∷ [] ≡ []) × (get_latest_job library (row ∷ []) ≡ ok none))
    ⊎ ((r : JobRow) × (get_latest_job library (row ∷ []) ≡ job_if library (some r))
        × IsLatest library r (row ∷ []))
get_latest_job-IsLatest_example = get_latest_job-IsLatest library (row ∷ [])

-- Numbers stand for floats.
abbrev number : Json → Option ℕ
number (nat n) = some n
number _ = none

abbrev pub values : ValueLibrary ℕ
values = record {
  str_of_other = λ j. "";
  float_of = number;
  is_nonzero = λ s. true;
  number_of = λ n. nat n;
}

abbrev pub same : ℕ → ℕ
same n = n

abbrev pub plus : ℕ → ℕ → ℕ
plus a b = a + b

abbrev board : List (ReputationLedgerEntry ℕ)
board =
    record {
      node_role = "risk";
      peer_id = "b";
      reputation_points = 100;
      accepted_contributions = 1;
      rejected_contributions = 0;
      total_verifier_score = 1;
    }
    ∷ []

reads_board : get_reputation_leaderboard library sample_floats values same same plus done ≡ ok board
unfolding get_reputation_leaderboard completed_rows all_updates coerce_updates coerce_update
    build_reputation_leaderboard aggregate text_lt
reads_board = refl

-- A database from before the three later columns, with no other table.
abbrev older : Schema
older = record {
  jobs = some first_job_columns;
  indexed_chain_events = none;
  indexed_chain_blocks = none;
  indexer_cursors = none;
}

initialize_tables-IsComplete_example :
    IsComplete (initialize_tables older)
    × (initialize_tables (initialize_tables older) ≡ initialize_tables older)
initialize_tables-IsComplete_example =
    initialize_tables-IsComplete older ((refl, (refl, (refl, (refl, (refl, tt))))), tt, tt, tt)
