-- ===== src/Indexer/Scheduler/Synced.antt =====
-- When the tables of app/store/jobs.py hold a chain, and how a run of app/indexer/scheduler.py begins.
use signal_count.Base.{
  ℕ, ◌+◌, ◌-◌, ◌≤◌, ◌<◌, ◌≡◌, ◌↔◌, refl, ap, ◌∙◌, String, Option, none, some, List, max, string_eq,
  nat_eq, arith, if◌then◌else◌,
}
use signal_count.Base.Dict.{lookup, lookup-insert}
use signal_count.Base.Outcome.{Outcome, ok}
use signal_count.Base.Int.{ℤ, pos, ◌-ℤ◌}
use signal_count.Indexer.Events.{IndexedChainEvent, IndexedChainBlock}
use signal_count.Store.Chain.{ChainTables, ChainIndexerCursor, save_cursor}
use signal_count.Indexer.Scheduler.{
  Config, Poller, current_cursor, cursor_or_new, normal_from, repair_from, save, index_blocks,
  run_once,
}
use signal_count.Indexer.Scheduler.View.{IsIn, View}

-- An event of the blocks from `start` up to `next`, which is left out.
abbrev pub IsEventOf : View → ℕ → ℕ → IndexedChainEvent → Type 0
IsEventOf v start next e = (n : ℕ) × (start ≤ n) × (n < next) × IsIn e (v.logs n)

module _ (cfg : Config) where
  open cfg use {start_block}

  -- The tables hold the chain's blocks and events up to `next`, and nothing else.
  pub record InSync (v : View) (next : ℕ) (db : ChainTables) : Type 0 where
    pub started : start_block ≤ next
    pub cursor : (current_cursor cfg db).last_indexed_block ≡ pos next -ℤ pos 1
    pub hashes : (n : ℕ) → start_block ≤ n → n < next → lookup n db.blocks ≡ some (v.hash n)
    pub no_more : (n : ℕ) → next ≤ n → lookup n db.blocks ≡ none
    pub events : (e : IndexedChainEvent) → IsIn e db.events ↔ IsEventOf v start_block next e

  -- A saved cursor is the one that the next run starts from.
  pub saved :
      (c : ChainIndexerCursor) (db : ChainTables)
      → c.name ≡ cfg.cursor_name
      → current_cursor cfg (save_cursor c db) ≡ c
  unfolding save_cursor
  saved c db named =
      let found = lookup-insert c.name cfg.cursor_name c db.cursors in
      let same = (string_eq.beq_iff c.name cfg.cursor_name).1 named in
      ap (cursor_or_new cfg)
        (found ∙ ap (λ b. if b then some c else lookup cfg.cursor_name db.cursors) same)

  pub saved_cursor :
      (indexed safe : ℤ) (status : String) (error : Option String) (db : ChainTables)
      → (current_cursor cfg (save cfg indexed safe status error db)).last_indexed_block ≡ indexed
  saved_cursor indexed safe status error db =
      ap (λ c. c.last_indexed_block)
        (saved
          (record {
            name = cfg.cursor_name;
            last_indexed_block = indexed;
            last_safe_block = safe;
            status = status;
            error = error;
          })
          db refl)

  pub bounds :
      (c : ChainIndexerCursor) (next : ℕ)
      → start_block ≤ next
      → 1 ≤ cfg.reorg_window
      → c.last_indexed_block ≡ pos next -ℤ pos 1
      → (normal_from cfg c ≡ next) × (repair_from cfg c ≡ max start_block (next - cfg.reorg_window))
  bounds c next h w e = rw e (ground arith, ground arith)

  confirmed : (safe : ℕ) → pos (safe + cfg.confirmations) -ℤ pos cfg.confirmations ≡ pos safe
  confirmed safe = ground arith

  pub run_once_eq :
      (headers : ℕ → ℕ → Outcome String (List IndexedChainBlock))
      (poll : ℕ → ℕ → Outcome String (List IndexedChainEvent)) (db : ChainTables) (safe : ℕ)
      → start_block ≤ safe
      → let p : Poller = record {
        latest_block_number = ok (safe + cfg.confirmations);
        block_headers = headers;
        poll = poll;
      } in
        run_once cfg p db
        ≡ index_blocks cfg p (current_cursor cfg db) (safe + cfg.confirmations) safe db
  unfolding run_once
  run_once_eq headers poll db safe h = rw (confirmed safe) (ground arith)
