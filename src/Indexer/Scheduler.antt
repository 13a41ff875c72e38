-- ===== src/Indexer/Scheduler.antt =====
-- The confirmed-block scheduler with shallow reorg repair (app/indexer/scheduler.py).
pub mod Tables
pub mod View
pub mod Runs
pub mod Synced
pub mod Kept
pub mod Sync
pub mod Failed
pub mod Lost
use signal_count.Base.{
  ℕ, suc, ◌+◌, String, Bool, true, false, Option, none, some, List, [], ◌∷◌, length, max, min, leb,
  ltb, ◌==◌, not, nat_eq, string_eq, if◌then◌else◌,
}
use signal_count.Base.Dict.{Dict, lookup}
use signal_count.Base.Outcome.{Outcome, ok, err}
use signal_count.Base.Int.{ℤ, pos, negsuc, pos_part, ◌+ℤ◌, ◌-ℤ◌, ltb_ℤ}
use signal_count.Indexer.Events.{IndexedChainEvent, IndexedChainBlock}
use signal_count.Store.Chain.{
  ChainTables, ChainIndexerCursor, store_events, store_blocks, block_hashes, delete_from_block,
  get_cursor, save_cursor,
}

-- What `ChainIndexerScheduler` keeps; its `start_block` is a block number.
pub record Config : Type 0 where
  pub cursor_name : String
  pub start_block : ℕ
  pub confirmations : ℕ
  pub reorg_window : ℕ

pub data ConfigError : Type 0 where
  negative_confirmations small_reorg_window : ConfigError

-- `__init__`
pub make_scheduler : String → ℕ → ℤ → ℤ → Outcome ConfigError Config
make_scheduler name start confirmations window =
    if ltb_ℤ confirmations (pos 0)
    then err negative_confirmations
    else if ltb_ℤ window (pos 1)
    then err small_reorg_window
    else ok (record {
      cursor_name = name;
      start_block = start;
      confirmations = pos_part confirmations;
      reorg_window = pos_part window;
    })

-- The poller that the scheduler is given. Each call may raise, with the text of the exception.
pub record Poller : Type 0 where
  pub latest_block_number : Outcome String ℕ
  pub block_headers : (from to : ℕ) → Outcome String (List IndexedChainBlock)
  pub poll : (from to : ℕ) → Outcome String (List IndexedChainEvent)

pub record RunResult : Type 0 where
  pub status : String
  pub latest_block : Option ℕ
  pub safe_block : Option ℤ
  pub from_block : Option ℕ
  pub to_block : Option ℕ
  pub events_indexed : ℕ
  pub reorg_from_block : Option ℕ
  pub error : Option String

-- `_get_cursor`, from the stored cursor if there is one.
abbrev pub cursor_or_new : Config → Option ChainIndexerCursor → ChainIndexerCursor
cursor_or_new cfg (some c) = c
cursor_or_new cfg none = record {
  name = cfg.cursor_name;
  last_indexed_block = pos cfg.start_block -ℤ pos 1;
  last_safe_block = pos cfg.start_block -ℤ pos 1;
  status = "new";
  error = none;
}

abbrev pub current_cursor : Config → ChainTables → ChainIndexerCursor
current_cursor cfg db = cursor_or_new cfg (get_cursor cfg.cursor_name db)

-- The test of one header against the stored hash.
abbrev pub check_header : Option String → IndexedChainBlock → Option ℕ → Option ℕ
check_header none h later = later
check_header (some previous) h later =
    if previous == h.block_hash then later else some h.block_number

-- The loop of `_find_reorg_start`.
pub first_mismatch : Dict ℕ String → List IndexedChainBlock → Option ℕ
first_mismatch stored [] = none
first_mismatch stored (h ∷ hs) =
    check_header (lookup h.block_number stored) h (first_mismatch stored hs)

abbrev pub last_number : IndexedChainBlock → List IndexedChainBlock → ℕ
last_number h [] = h.block_number
last_number h (x ∷ xs) = last_number x xs

-- `_find_reorg_start`
unfoldable pub find_reorg_start : List IndexedChainBlock → ChainTables → Option ℕ
unfolding first_mismatch
find_reorg_start [] db = none
find_reorg_start (h ∷ hs) db =
    first_mismatch (block_hashes h.block_number (last_number h hs) db) (h ∷ hs)

-- `max(start_block, x)`, for a start that is not negative.
abbrev pub from_start : Config → ℤ → ℕ
from_start cfg x = max cfg.start_block (pos_part x)

abbrev pub normal_from : Config → ChainIndexerCursor → ℕ
normal_from cfg c = from_start cfg (c.last_indexed_block +ℤ pos 1)

abbrev pub repair_from : Config → ChainIndexerCursor → ℕ
repair_from cfg c = from_start cfg (c.last_indexed_block -ℤ pos cfg.reorg_window +ℤ pos 1)

abbrev pub save : Config → ℤ → ℤ → String → Option String → ChainTables → ChainTables
save cfg indexed safe status error db =
    save_cursor
      (record {
        name = cfg.cursor_name;
        last_indexed_block = indexed;
        last_safe_block = safe;
        status = status;
        error = error;
      })
      db

-- The handler of `except Exception`: the cursor's block numbers stay.
unfoldable pub fail : Config → ChainIndexerCursor → String → ChainTables → ChainTables × RunResult
fail cfg c error db = (
  save cfg c.last_indexed_block c.last_safe_block "failed" (some error) db,
  record {
    status = "failed";
    latest_block = none;
    safe_block = none;
    from_block = none;
    to_block = none;
    events_indexed = 0;
    reorg_from_block = none;
    error = some error;
  },
)

pub finish : Config → (latest safe from : ℕ) → Option ℕ → ℕ → ChainTables → ChainTables × RunResult
finish cfg latest safe from reorg indexed db = (
  save cfg (pos safe) (pos safe) "ok" none db,
  record {
    status = "ok";
    latest_block = some latest;
    safe_block = some (pos safe);
    from_block = if leb from safe then some from else none;
    to_block = if leb from safe then some safe else none;
    events_indexed = indexed;
    reorg_from_block = reorg;
    error = none;
  },
)

pub up_to_date : Config → ChainIndexerCursor → ℕ → ℤ → ChainTables → ChainTables × RunResult
up_to_date cfg c latest safe db = (
  save cfg c.last_indexed_block safe "up_to_date" none db,
  record {
    status = "up_to_date";
    latest_block = some latest;
    safe_block = some safe;
    from_block = none;
    to_block = none;
    events_indexed = 0;
    reorg_from_block = none;
    error = none;
  },
)

abbrev pub prune : Option ℕ → ChainTables → ChainTables
prune none db = db
prune (some b) db = delete_from_block b db

abbrev pub resume_at : Option ℕ → ℕ → ℕ
resume_at none normal = normal
resume_at (some b) normal = b

module _ (cfg : Config) (p : Poller) (c : ChainIndexerCursor) (latest safe : ℕ) where
  -- From the events' poll on.
  pub index_events : ℕ → Option ℕ → ChainTables → ChainTables × RunResult
  unfolding fail finish
  index_events from reorg db =
      if leb from safe
      then elim (p.poll from safe) [
        | err e ↦ fail cfg c e db
        | ok events ↦ finish cfg latest safe from reorg (length events) (store_events events db)
      ]
      else finish cfg latest safe from reorg 0 db

  -- From the headers on, when they were read.
  pub index_headers : List IndexedChainBlock → ChainTables → ChainTables × RunResult
  unfolding index_events find_reorg_start
  index_headers headers db =
      let reorg = find_reorg_start headers db in
      index_events (resume_at reorg (normal_from cfg c)) reorg
        (store_blocks headers (prune reorg db))

  pub index_blocks : ChainTables → ChainTables × RunResult
  unfolding index_headers fail
  index_blocks db =
      let header_from = min (normal_from cfg c) (repair_from cfg c) in
      elim (p.block_headers header_from safe) [
        | err e ↦ fail cfg c e db
        | ok headers ↦ index_headers headers db
      ]

-- From the newest block on: nothing is indexed below the start.
abbrev pub run_to_safe :
    Config → Poller → ChainIndexerCursor → ℕ → ℤ → ChainTables → ChainTables × RunResult
run_to_safe cfg p c latest safe db =
    if ltb_ℤ safe (pos cfg.start_block)
    then up_to_date cfg c latest safe db
    else index_blocks cfg p c latest (pos_part safe) db

-- `run_once`
unfoldable pub run_once : Config → Poller → ChainTables → ChainTables × RunResult
unfolding index_blocks up_to_date fail
run_once cfg p db =
    let c = current_cursor cfg db in
    elim p.latest_block_number [
      | err e ↦ fail cfg c e db
      | ok latest ↦ run_to_safe cfg p c latest (pos latest -ℤ pos cfg.confirmations) db
    ]
