-- ===== src/Store/Chain.antt =====
-- The tables of indexed blocks, events and cursors, and the statements that change them
-- (app/store/jobs.py). A table is its rows; the time of indexing is never read, and left out.
pub mod Projection
use signal_count.Base.{
  ℕ, String, Bool, true, false, not, ◌&&◌, Option, List, [], ◌∷◌, ◌++◌, select, leb, nat_beq, ◌==◌,
  string_eq, nat_eq, if◌then◌else◌,
}
use signal_count.Base.Dict.{Dict, lookup, insert}
use signal_count.Base.Int.{ℤ}
use signal_count.Indexer.Events.{IndexedChainEvent, IndexedChainBlock, EventId, event_id}

pub record ChainIndexerCursor : Type 0 where
  pub name : String
  pub last_indexed_block : ℤ
  pub last_safe_block : ℤ
  pub status : String
  pub error : Option String

pub record ChainTables : Type 0 where
  pub events : List IndexedChainEvent
  pub blocks : Dict ℕ String
  pub cursors : Dict String ChainIndexerCursor

-- Equality of the text keys of two events.
abbrev pub same_id : EventId → EventId → Bool
same_id a b = a.0 == b.0 && nat_beq a.1 b.1

abbrev pub has_id : EventId → List IndexedChainEvent → Bool
has_id i [] = false
has_id i (e ∷ es) = if same_id (event_id e) i then true else has_id i es

-- `INSERT OR IGNORE`: a row with the key stays as it is.
abbrev pub insert_or_ignore : List IndexedChainEvent → IndexedChainEvent → List IndexedChainEvent
insert_or_ignore rows e = if has_id (event_id e) rows then rows else rows ++ e ∷ []

unfoldable pub insert_events :
    List IndexedChainEvent → List IndexedChainEvent → List IndexedChainEvent
insert_events rows [] = rows
insert_events rows (e ∷ es) = insert_events (insert_or_ignore rows e) es

-- `_store_indexed_chain_events_sync`
unfoldable pub store_events : List IndexedChainEvent → ChainTables → ChainTables
store_events es db = record db { events = insert_events db.events es }

unfoldable pub insert_blocks : List IndexedChainBlock → Dict ℕ String → Dict ℕ String
insert_blocks [] rows = rows
insert_blocks (b ∷ bs) rows = insert_blocks bs (insert b.block_number b.block_hash rows)

-- `_store_indexed_chain_blocks_sync`: `INSERT OR REPLACE`.
unfoldable pub store_blocks : List IndexedChainBlock → ChainTables → ChainTables
store_blocks bs db = record db { blocks = insert_blocks bs db.blocks }

-- `_get_indexed_chain_block_hashes_sync`: `BETWEEN` has both ends.
unfoldable pub block_hashes : ℕ → ℕ → ChainTables → Dict ℕ String
block_hashes from to db = select (λ row. leb from row.0 && leb row.0 to) db.blocks

-- `_delete_indexed_chain_from_block_sync`
unfoldable pub delete_from_block : ℕ → ChainTables → ChainTables
delete_from_block n db = record db {
  events = select (λ e. not (leb n e.block_number)) db.events;
  blocks = select (λ row. not (leb n row.0)) db.blocks;
}

-- `_get_indexer_cursor_sync`
abbrev pub get_cursor : String → ChainTables → Option ChainIndexerCursor
get_cursor name db = lookup name db.cursors

-- `_save_indexer_cursor_sync`: an upsert by name.
unfoldable pub save_cursor : ChainIndexerCursor → ChainTables → ChainTables
save_cursor c db = record db { cursors = insert c.name c db.cursors }
