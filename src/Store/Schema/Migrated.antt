-- ===== src/Store/Schema/Migrated.antt =====
-- The columns of a database that app/store/jobs.py has opened.
use signal_count.Base.{
  String, ◌≡◌, refl, ◌∙◌, inl, inr, true, Option, none, some, List, [], ◌∷◌, ◌++◌, All, is_mem,
  ◌==◌, string_eq, if◌then◌else◌, Bool-cases, arith,
}
use signal_count.Store.Schema.{
  Schema, job_columns, event_columns, block_columns, cursor_columns, created, add_column,
  migrate_jobs, migrate_events, initialize_tables,
}

-- Each of the columns is there.
abbrev pub HasColumns : List String → List String → Type 0
HasColumns wanted columns = All (λ c. is_mem c columns ≡ true) wanted

abbrev pub HasColumnsIf : List String → Option (List String) → Type 0
HasColumnsIf wanted none = Unit
HasColumnsIf wanted (some columns) = HasColumns wanted columns

-- What every version of the tables has had.
abbrev pub first_job_columns : List String
first_job_columns = "job_id" ∷ "status" ∷ "thesis_payload" ∷ "memo" ∷ "created_at" ∷ []

abbrev pub first_event_columns : List String
first_event_columns =
    "event_id" ∷ "event_name" ∷ "contract_address" ∷ "block_number" ∷ "transaction_hash"
    ∷ "log_index" ∷ "args_json" ∷ "indexed_at" ∷ []

is_mem-append :
    (c d : String) (xs : List String)
    → is_mem c (xs ++ d ∷ []) ≡ (if is_mem c xs then true else d == c)
is_mem-append c d [] = ground (arith, string_eq.beq_iff d c)
is_mem-append c d (x ∷ xs) = ground (arith, is_mem-append c d xs)

is_mem-add_column :
    (c d : String) (known columns : List String)
    → is_mem c columns ≡ true
    → is_mem c (add_column known d columns) ≡ true
is_mem-add_column c d known columns h = elim (Bool-cases (is_mem d known)) [
  | inl there ↦ rw there h
  | inr missing ↦ rw missing (is_mem-append c d columns ∙ rw h refl)
]

add_column_has :
    (d : String) (known columns : List String)
    → (is_mem d known ≡ true → is_mem d columns ≡ true)
    → is_mem d (add_column known d columns) ≡ true
add_column_has d known columns kept = elim (Bool-cases (is_mem d known)) [
  | inl there ↦ rw there (kept there)
  | inr missing ↦ rw missing (is_mem-append d d columns ∙ ground (arith, string_eq.beq_iff d d))
]

migrate_jobs_keeps :
    (c : String) (columns : List String)
    → is_mem c columns ≡ true
    → is_mem c (migrate_jobs columns) ≡ true
unfolding migrate_jobs
migrate_jobs_keeps c columns h =
    let once = is_mem-add_column c "provenance_ledger" columns columns h in
    is_mem-add_column c "run_metadata" columns _
      (is_mem-add_column c "topology_snapshot" columns _ once)

migrate_jobs_has :
    (columns : List String)
    → HasColumns first_job_columns columns
    → HasColumns job_columns (migrate_jobs columns)
unfolding migrate_jobs
migrate_jobs_has columns (id, (status, (payload, (memo, (time, _))))) =
    let first = add_column columns "provenance_ledger" columns in
    let second = add_column columns "topology_snapshot" first in
    let ledger = add_column_has "provenance_ledger" columns columns (λ h. h) in
    let snapshot =
      add_column_has "topology_snapshot" columns first
        (is_mem-add_column _ "provenance_ledger" columns columns) in
    let metadata = add_column_has "run_metadata" columns second (λ h.
      is_mem-add_column _ "topology_snapshot" columns first
        (is_mem-add_column _ "provenance_ledger" columns columns h)) in
    (
      migrate_jobs_keeps "job_id" columns id,
      (
        migrate_jobs_keeps "status" columns status,
        (
          migrate_jobs_keeps "thesis_payload" columns payload,
          (
            migrate_jobs_keeps "memo" columns memo,
            (
              is_mem-add_column "provenance_ledger" "run_metadata" columns second
                  (is_mem-add_column "provenance_ledger" "topology_snapshot" columns first ledger),
              (
                is_mem-add_column "topology_snapshot" "run_metadata" columns second snapshot,
                (metadata, (migrate_jobs_keeps "created_at" columns time, tt)),
              ),
            ),
          ),
        ),
      ),
    )

migrate_events_has :
    (columns : List String)
    → HasColumns first_event_columns columns
    → HasColumns event_columns (migrate_events columns)
unfolding migrate_events
migrate_events_has columns
      (id, (name, (address, (block, (transaction, (log, (args, (time, _)))))))) =
    let keeps = λ (c : String) (h : is_mem c columns ≡ true).
      is_mem-add_column c "block_hash" columns columns h in
    (
      keeps "event_id" id,
      (
        keeps "event_name" name,
        (
          keeps "contract_address" address,
          (
            keeps "block_number" block,
            (
              add_column_has "block_hash" columns columns (λ h. h),
              (
                keeps "transaction_hash" transaction,
                (keeps "log_index" log, (keeps "args_json" args, (keeps "indexed_at" time, tt))),
              ),
            ),
          ),
        ),
      ),
    )

-- A table is there, with its columns.
abbrev pub HasTable : List String → Option (List String) → Type 0
HasTable wanted none = ⊥
HasTable wanted (some columns) = HasColumns wanted columns

-- A database that an older version may have made.
abbrev pub IsOlder : Schema → Type 0
IsOlder db =
    HasColumnsIf first_job_columns db.jobs
    × HasColumnsIf first_event_columns db.indexed_chain_events
    × HasColumnsIf block_columns db.indexed_chain_blocks
    × HasColumnsIf cursor_columns db.indexer_cursors

abbrev pub IsComplete : Schema → Type 0
IsComplete db =
    HasTable job_columns db.jobs
    × HasTable event_columns db.indexed_chain_events
    × HasTable block_columns db.indexed_chain_blocks
    × HasTable cursor_columns db.indexer_cursors

created_has :
    (first columns : List String) (table : Option (List String))
    → HasColumns first columns
    → HasColumnsIf first table
    → HasColumns first (created columns table)
created_has first columns none whole h = whole
created_has first columns (some existing) whole h = h

-- Columns that are all there are left as they are.
migrate_jobs_complete :
    (columns : List String) → HasColumns job_columns columns → migrate_jobs columns ≡ columns
unfolding migrate_jobs
migrate_jobs_complete columns (_, (_, (_, (_, (ledger, (snapshot, (metadata, _))))))) =
    rw (ledger, snapshot, metadata) refl

migrate_events_complete :
    (columns : List String) → HasColumns event_columns columns → migrate_events columns ≡ columns
unfolding migrate_events
migrate_events_complete columns (_, (_, (_, (_, (hash, _))))) = rw hash refl

-- Opening any database of this or an older version gives each table all its columns, and opening it
-- again changes nothing.
pub initialize_tables-IsComplete :
    (db : Schema)
    → IsOlder db
    → IsComplete (initialize_tables db)
      × (initialize_tables (initialize_tables db) ≡ initialize_tables db)
unfolding initialize_tables
initialize_tables-IsComplete db (jobs, events, blocks, cursors) =
    let old_jobs = created job_columns db.jobs in
    let old_events = created event_columns db.indexed_chain_events in
    let has_jobs = migrate_jobs_has old_jobs (
      created_has first_job_columns job_columns db.jobs (refl, (refl, (refl, (refl, (refl, tt)))))
        jobs) in
    let has_events = migrate_events_has old_events (
      created_has first_event_columns event_columns db.indexed_chain_events
        (refl, (refl, (refl, (refl, (refl, (refl, (refl, (refl, tt)))))))) events) in
    (
      (
        has_jobs,
        has_events,
        created_has block_columns block_columns db.indexed_chain_blocks (refl, (refl, (refl, tt)))
            blocks,
        created_has cursor_columns cursor_columns db.indexer_cursors
            (refl, (refl, (refl, (refl, (refl, (refl, tt)))))) cursors,
      ),
      rw
          (
            migrate_jobs_complete (migrate_jobs old_jobs) has_jobs,
            migrate_events_complete (migrate_events old_events) has_events,
          )
          refl,
    )
