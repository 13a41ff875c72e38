-- ===== src/Store/Schema.antt =====
-- The tables that app/store/jobs.py creates, and the columns that it adds to older databases. Of a
-- table its columns are modelled, in order.
pub mod Migrated
use signal_count.Base.{
  String, Bool, true, false, Option, none, some, List, [], ◌∷◌, ◌++◌, is_mem, ◌==◌, string_eq,
  if◌then◌else◌,
}

-- The tables of a database; `none` is a table that is not there.
pub record Schema : Type 0 where
  pub jobs : Option (List String)
  pub indexed_chain_events : Option (List String)
  pub indexed_chain_blocks : Option (List String)
  pub indexer_cursors : Option (List String)

abbrev pub job_columns : List String
job_columns =
    "job_id" ∷ "status" ∷ "thesis_payload" ∷ "memo" ∷ "provenance_ledger" ∷ "topology_snapshot"
    ∷ "run_metadata" ∷ "created_at" ∷ []

abbrev pub event_columns : List String
event_columns =
    "event_id" ∷ "event_name" ∷ "contract_address" ∷ "block_number" ∷ "block_hash"
    ∷ "transaction_hash" ∷ "log_index" ∷ "args_json" ∷ "indexed_at" ∷ []

abbrev pub block_columns : List String
block_columns = "block_number" ∷ "block_hash" ∷ "indexed_at" ∷ []

abbrev pub cursor_columns : List String
cursor_columns =
    "name" ∷ "last_indexed_block" ∷ "last_safe_block" ∷ "status" ∷ "error" ∷ "updated_at" ∷ []

-- `CREATE TABLE IF NOT EXISTS`
abbrev pub created : List String → Option (List String) → List String
created columns none = columns
created columns (some existing) = existing

-- `ALTER TABLE ... ADD COLUMN`, if the column is not among those that were read.
abbrev pub add_column : List String → String → List String → List String
add_column known column columns = if is_mem column known then columns else columns ++ column ∷ []

-- The columns of `jobs` are read once, and then each is tested.
unfoldable pub migrate_jobs : List String → List String
migrate_jobs columns =
    add_column columns "run_metadata"
      (add_column columns "topology_snapshot" (add_column columns "provenance_ledger" columns))

unfoldable pub migrate_events : List String → List String
migrate_events columns = add_column columns "block_hash" columns

-- `_initialize_sync`
unfoldable pub initialize_tables : Schema → Schema
unfolding migrate_jobs migrate_events
initialize_tables db = record {
  jobs = some (migrate_jobs (created job_columns db.jobs));
  indexed_chain_events = some (migrate_events (created event_columns db.indexed_chain_events));
  indexed_chain_blocks = some (created block_columns db.indexed_chain_blocks);
  indexer_cursors = some (created cursor_columns db.indexer_cursors);
}

-- A store, whose database other stores may have opened before.
pub record StoreState : Type 0 where
  pub is_initialized : Bool
  pub schema : Schema

-- `_initialize_once_sync`, and `initialize`, which tests the flag first.
unfoldable pub initialize_once : StoreState → StoreState
unfolding initialize_tables
initialize_once store =
    if store.is_initialized
    then store
    else record { is_initialized = true; schema = initialize_tables store.schema }
