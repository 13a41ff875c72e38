-- ===== src/Store/Jobs.antt =====
-- The table of jobs and the statements on it (app/store/jobs.py). The rows stand in the order of their
-- row ids, in which they are inserted; none is deleted.
pub mod Roundtrip
pub mod Latest
pub mod Leaderboard
pub mod History
pub mod Credited
use signal_count.Base.{
  ℕ, String, Bool, true, false, Option, none, some, List, [], ◌∷◌, ◌++◌, map, select, ◌==◌,
  string_eq, if◌then◌else◌,
}
use signal_count.Base.Json.{
  Json, null, str, arr, obj, nil, item, Items, Fields, end, field, get_field,
}
use signal_count.Base.Text.{text_lt, starts_with, remove_prefix, is_empty}
use signal_count.Base.Outcome.{Outcome, ok, err, ◌>>=◌, or_raise}
use signal_count.Base.Sorting.{sorted}
use signal_count.Base.Floats.{Floats}
use signal_count.Evaluation.Reputation.{ReputationLedgerEntry}
use signal_count.Evaluation.Reputation.Leaderboard.{
  UpdateError, ValueLibrary, coerce_updates, build_reputation_leaderboard,
}

pub record JobRecord : Type 0 where
  pub job_id : String
  pub status : String
  pub payload : Json
  pub memo : Option Json
  pub provenance_ledger : Json
  pub topology_snapshot : Option Json
  pub run_metadata : Json
  pub created_at : String

abbrev or_null : Option Json → Json
or_null none = null
or_null (some j) = j

-- `JobRecord.to_dict`
unfoldable pub job_dict : JobRecord → Fields
job_dict job = field "job_id" (str job.job_id) (
    field "status" (str job.status) (
      field "payload" job.payload (
        field "memo" (or_null job.memo) (
          field "provenance_ledger" job.provenance_ledger (
            field "topology_snapshot" (or_null job.topology_snapshot) (
              field "run_metadata" job.run_metadata
                (field "created_at" (str job.created_at) end)))))))

-- A row, its values as JSON texts.
pub record JobRow : Type 0 where
  pub job_id : String
  pub status : String
  pub thesis_payload : String
  pub memo : Option String
  pub provenance_ledger : String
  pub topology_snapshot : Option String
  pub run_metadata : String
  pub created_at : String

-- The database's `IntegrityError`, the `JSONDecodeError`, the `AttributeError` of a value that is no
-- dict, and the errors of an update.
pub data JobError : Type 0 where
  integrity not_json not_a_dict : JobError
  update : UpdateError → JobError

-- `json.dumps` and `json.loads`, and SQLite's `datetime`, which is NULL for what is no time.
pub record JobLibrary : Type 0 where
  pub dumps : Json → String
  pub loads : String → Option Json
  pub datetime : String → Option String

-- What `_parse_database_path` refuses.
pub data DatabaseUrlError : Type 0 where
  unsupported_url no_path in_memory : DatabaseUrlError

-- `_parse_database_path`, before `~` is expanded.
unfoldable pub parse_database_path : String → Outcome DatabaseUrlError String
unfolding starts_with remove_prefix
parse_database_path url =
    let raw_path = remove_prefix "sqlite:///" url in
    if starts_with "sqlite:///" url
    then if is_empty raw_path
      then err no_path
      else if raw_path == ":memory:"
      then err in_memory
      else ok raw_path
    else err unsupported_url

abbrev pub has_job : String → List JobRow → Bool
has_job i [] = false
has_job i (r ∷ rows) = if r.job_id == i then true else has_job i rows

-- `INSERT INTO jobs`: the id is a primary key.
unfoldable pub insert_row : JobRow → List JobRow → Outcome JobError (List JobRow)
insert_row row rows = if has_job row.job_id rows then err integrity else ok (rows ++ row ∷ [])

abbrev pub find_row : String → List JobRow → Option JobRow
find_row i [] = none
find_row i (r ∷ rows) = if r.job_id == i then some r else find_row i rows

-- `UPDATE jobs SET ... WHERE job_id = :job_id`
unfoldable pub update_rows : (JobRow → JobRow) → String → List JobRow → List JobRow
update_rows change i rows = map (λ r. if r.job_id == i then change r else r) rows

-- `value or default`, where what is false is an empty value of the default's kind.
abbrev pub or_default : Option Json → Json → Json
or_default none default = default
or_default (some j) default = j

abbrev pub map_option : {A B : Type 0} → (A → B) → Option A → Option B
map_option f none = none
map_option f (some a) = some (f a)

-- The earlier of two times; NULL is before any.
abbrev pub time_lt : Option String → Option String → Bool
time_lt none none = false
time_lt none (some t) = true
time_lt (some s) none = false
time_lt (some s) (some t) = text_lt s t

module _ (lib : JobLibrary) where
  open lib use {dumps, loads, datetime}

  -- The row that `_insert_job_sync` inserts: without a memo.
  abbrev pub row_of : JobRecord → JobRow
  row_of job = record {
    job_id = job.job_id;
    status = job.status;
    thesis_payload = dumps job.payload;
    memo = none;
    provenance_ledger = dumps job.provenance_ledger;
    topology_snapshot = map_option dumps job.topology_snapshot;
    run_metadata = dumps job.run_metadata;
    created_at = job.created_at;
  }

  -- The job of `create_job`, of a fresh id and the present time.
  abbrev pub pending_job : String → String → Json → JobRecord
  pending_job uuid now payload = record {
    job_id = uuid;
    status = "pending";
    payload = payload;
    memo = none;
    provenance_ledger = arr nil;
    topology_snapshot = none;
    run_metadata = obj end;
    created_at = now;
  }

  -- `create_job`
  unfoldable pub create_job :
      String → String → Json → List JobRow → Outcome JobError (JobRecord × List JobRow)
  unfolding insert_row
  create_job uuid now payload rows = do
    let job = pending_job uuid now payload
    after ← insert_row (row_of job) rows
    ok (job, after)

  abbrev pub completed_row : Json → Json → Option Json → Json → JobRow → JobRow
  completed_row memo ledger snapshot metadata row = record row {
    status = "completed";
    memo = some (dumps memo);
    provenance_ledger = dumps ledger;
    topology_snapshot = map_option dumps snapshot;
    run_metadata = dumps metadata;
  }

  -- `complete_job`: no job of the id is no error.
  unfoldable pub complete_job :
      String → Json → Option Json → Option Json → Option Json → List JobRow → List JobRow
  unfolding update_rows
  complete_job i memo ledger snapshot metadata rows =
      update_rows
        (completed_row memo (or_default ledger (arr nil)) snapshot (or_default metadata (obj end)))
        i rows

  abbrev pub loaded : String → Outcome JobError Json
  loaded text = or_raise (loads text) not_json

  abbrev pub loaded_if : Option String → Outcome JobError (Option Json)
  loaded_if none = ok none
  loaded_if (some text) = loaded text >>= λ j. ok (some j)

  -- `_row_to_job_record`
  unfoldable pub row_to_job_record : JobRow → Outcome JobError JobRecord
  row_to_job_record row = do
    memo ← loaded_if row.memo
    snapshot ← loaded_if row.topology_snapshot
    payload ← loaded row.thesis_payload
    ledger ← loaded row.provenance_ledger
    metadata ← loaded row.run_metadata
    ok (record {
      job_id = row.job_id;
      status = row.status;
      payload = payload;
      memo = memo;
      provenance_ledger = ledger;
      topology_snapshot = snapshot;
      run_metadata = metadata;
      created_at = row.created_at;
    })

  abbrev pub job_if : Option JobRow → Outcome JobError (Option JobRecord)
  unfolding row_to_job_record
  job_if none = ok none
  job_if (some row) = row_to_job_record row >>= λ job. ok (some job)

  -- `get_job`
  unfoldable pub get_job : String → List JobRow → Outcome JobError (Option JobRecord)
  unfolding row_to_job_record
  get_job i rows = job_if (find_row i rows)

  abbrev pub is_earlier : JobRow → JobRow → Bool
  unfolding text_lt
  is_earlier a b = time_lt (datetime a.created_at) (datetime b.created_at)

  -- Of two rows the later, and of one time the one of the larger row id.
  abbrev pub later_row : Option JobRow → JobRow → JobRow
  later_row none row = row
  later_row (some best) row = if is_earlier row best then best else row

  -- The first row under `ORDER BY datetime(created_at) DESC, rowid DESC`.
  unfoldable pub latest_from : Option JobRow → List JobRow → Option JobRow
  unfolding text_lt
  latest_from best [] = best
  latest_from best (r ∷ rows) = latest_from (some (later_row best r)) rows

  -- `get_latest_job`
  unfoldable pub get_latest_job : List JobRow → Outcome JobError (Option JobRecord)
  unfolding row_to_job_record latest_from
  get_latest_job rows = job_if (latest_from none rows)
