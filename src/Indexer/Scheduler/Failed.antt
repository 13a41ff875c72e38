-- ===== src/Indexer/Scheduler/Failed.antt =====
-- Runs of app/indexer/scheduler.py that report a failure.
use signal_count.Base.{
  ℕ, ◌≡◌, inl, inr, refl, ap, String, Option, some, length, leb, min, string_eq, nat_eq, Bool-cases,
}
use signal_count.Base.Outcome.{Outcome-cases}
use signal_count.Base.Int.{ℤ, pos, pos_part, ◌-ℤ◌, ltb_ℤ}
use signal_count.Store.Chain.{ChainTables, ChainIndexerCursor, store_events, store_blocks}
use signal_count.Indexer.Scheduler.{
  Config, Poller, RunResult, current_cursor, find_reorg_start, normal_from, repair_from, finish,
  prune, resume_at, fail, index_events, index_headers, index_blocks, run_once, run_to_safe,
  up_to_date,
}
use signal_count.Indexer.Scheduler.Synced.{saved}

-- The block numbers of the cursor that the next run starts from.
abbrev pub progress : Config → ChainTables → ℤ × ℤ
progress cfg db = let c = current_cursor cfg db in (c.last_indexed_block, c.last_safe_block)

-- A result that is no failure, or tables with the old progress.
abbrev pub Keeps : Config → ChainIndexerCursor → ChainTables × RunResult → Type 0
Keeps cfg c r = r.1.status ≡ "failed" → progress cfg r.0 ≡ (c.last_indexed_block, c.last_safe_block)

module _ (cfg : Config) where
  pub fail-Keeps :
      (c : ChainIndexerCursor) (e : String) (db : ChainTables) → Keeps cfg c (fail cfg c e db)
  unfolding fail
  fail-Keeps c e db failed =
      ap (λ k. (k.last_indexed_block, k.last_safe_block))
        (saved cfg
          (record {
            name = cfg.cursor_name;
            last_indexed_block = c.last_indexed_block;
            last_safe_block = c.last_safe_block;
            status = "failed";
            error = some e;
          })
          db refl)

  finish-Keeps :
      (c : ChainIndexerCursor) (latest safe from : ℕ) (reorg : Option ℕ) (n : ℕ) (db : ChainTables)
      → Keeps cfg c (finish cfg latest safe from reorg n db)
  unfolding finish
  finish-Keeps c latest safe from reorg n db failed = cc

  module _ (p : Poller) (c : ChainIndexerCursor) (latest safe : ℕ) where
    index_events-Keeps :
        (from : ℕ) (reorg : Option ℕ) (db : ChainTables)
        → Keeps cfg c (index_events cfg p c latest safe from reorg db)
    unfolding index_events
    index_events-Keeps from reorg db = elim (Bool-cases (leb from safe)) [
      | inr over ↦ rw over (finish-Keeps c latest safe from reorg 0 db)
      | inl more ↦ elim (Outcome-cases (p.poll from safe)) [
        | inl (es, e) ↦
            rw (more, e) (finish-Keeps c latest safe from reorg (length es) (store_events es db))
        | inr (x, e) ↦ rw (more, e) (fail-Keeps c x db)
      ]
    ]

    index_blocks-Keeps : (db : ChainTables) → Keeps cfg c (index_blocks cfg p c latest safe db)
    unfolding index_blocks index_headers
    index_blocks-Keeps db =
        elim (Outcome-cases (p.block_headers (min (normal_from cfg c) (repair_from cfg c)) safe)) [
          | inr (x, e) ↦ rw (e, index_blocks) (fail-Keeps c x db)
          | inl (hs, e) ↦
              let reorg = find_reorg_start hs db in
              rw (e, index_blocks)
                (index_events-Keeps (resume_at reorg (normal_from cfg c)) reorg
                  (store_blocks hs (prune reorg db)))
        ]

  run_to_safe-Keeps :
      (p : Poller) (c : ChainIndexerCursor) (latest : ℕ) (safe : ℤ) (db : ChainTables)
      → Keeps cfg c (run_to_safe cfg p c latest safe db)
  unfolding up_to_date
  run_to_safe-Keeps p c latest safe db = elim (Bool-cases (ltb_ℤ safe (pos cfg.start_block))) [
    | inl below ↦ rw below (λ failed. cc)
    | inr above ↦ rw above (index_blocks-Keeps p c latest (pos_part safe) db)
  ]

  -- A run that reports a failure, for any reason, leaves the block numbers that the next run
  -- starts from as they were.
  pub run_once-keeps_progress :
      (p : Poller) (db : ChainTables)
      → (run_once cfg p db).1.status ≡ "failed"
      → progress cfg (run_once cfg p db).0 ≡ progress cfg db
  unfolding run_once
  run_once-keeps_progress p db = elim (Outcome-cases p.latest_block_number) [
    | inr (x, e) ↦ rw e (fail-Keeps (current_cursor cfg db) x db)
    | inl (latest, e) ↦ rw e (
        run_to_safe-Keeps p (current_cursor cfg db) latest (pos latest -ℤ pos cfg.confirmations) db)
  ]
