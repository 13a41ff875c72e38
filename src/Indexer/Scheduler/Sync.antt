-- ===== src/Indexer/Scheduler/Sync.antt =====
-- A run of app/indexer/scheduler.py over a chain that was reorganised within the window.
use signal_count.Base.{
  ℕ, suc, ◌+◌, ◌-◌, ◌≤◌, ◌<◌, ◌≡◌, inl, inr, refl, sym, ◌∙◌, subst, String, not, Option, none, some,
  leb, max, min, string_eq, nat_eq, arith,
}
use native.Mathlib.Decide.{dec_lt}
use signal_count.Base.Dict.{lookup}
use signal_count.Base.Int.{pos, ◌-ℤ◌}
use signal_count.Store.Chain.{ChainTables, ChainIndexerCursor, store_blocks, delete_from_block}
use signal_count.Indexer.Scheduler.{
  Config, current_cursor, find_reorg_start, prune, resume_at, index_events, index_headers,
  index_blocks, run_once,
}
use signal_count.Indexer.Scheduler.View.{View, IsView, headers_from, poller_of}
use signal_count.Indexer.Scheduler.Tables.{lookup-select, IsIn-select}
use signal_count.Indexer.Scheduler.Synced.{InSync, bounds, run_once_eq}
use signal_count.Indexer.Scheduler.Kept.{Kept, completed}
use signal_count.Indexer.Scheduler.Runs.{Agrees, Searched, find_reorg_start_lem}

module _ (cfg : Config) where
  open cfg use {start_block}

  module _ (v v' : View) (db : ChainTables) (next safe : ℕ) (window : 1 ≤ cfg.reorg_window)
      (synced : InSync cfg v next db) (good : IsView v) (good' : IsView v')
      (confirmed : start_block ≤ safe) (reached : next ≤ suc safe)
      (shallow : (n : ℕ) → start_block ≤ n → n + cfg.reorg_window < next → v'.hash n ≡ v.hash n)
      (content : (n : ℕ)
        → start_block ≤ n
        → n < next
        → v'.hash n ≡ v.hash n
        → v'.logs n ≡ v.logs n) where
    -- Where the run reads headers from.
    abbrev first_header : ℕ
    first_header = min next (max start_block (next - cfg.reorg_window))

    -- Up to `b` the chains have the same hashes, if the headers that were read agree.
    same_hash :
        (b : ℕ)
        → b ≤ next
        → ((n : ℕ) → first_header ≤ n → n < b → Agrees v' db.blocks n)
        → (n : ℕ) → start_block ≤ n
        → n < b
        → v'.hash n ≡ v.hash n
    same_hash b le agree n lo hi = elim (dec_lt n first_header) [
      | yes before ↦ shallow n lo (omega arith)
      | no after ↦ elim (agree n (omega arith) hi) [
        | inl missing ↦ cc (synced.hashes n lo (omega arith))
        | inr same ↦ cc (synced.hashes n lo (omega arith))
      ]
    ]

    Kept-all :
        ((n : ℕ) → first_header ≤ n → n < next → Agrees v' db.blocks n)
        → Kept cfg v v' db next safe synced good good' reached next db
    Kept-all agree =
        let same = same_hash next (omega arith) agree in
        record {
          lower = synced.started;
          upper = omega arith;
          hashes = same;
          logs = λ n lo hi. content n lo hi (same n lo hi);
          below = λ n h. refl;
          above = synced.no_more;
          events = λ e. (
            λ m.
                let (n, lo, hi, w) = (synced.events e).0 m in
                let here = good.placed n e w in (m, omega arith),
            λ m. m.0,
          );
        }

    Kept-below :
        (b : ℕ)
        → start_block ≤ b
        → b < next
        → ((n : ℕ) → first_header ≤ n → n < b → Agrees v' db.blocks n)
        → Kept cfg v v' db next safe synced good good' reached b (delete_from_block b db)
    unfolding delete_from_block
    Kept-below b lower lt agree =
        let same = same_hash b (omega arith) agree in
        let rows = λ (n : ℕ). lookup-select (λ m. not (leb b m)) n db.blocks in
        record {
          lower = lower;
          upper = omega arith;
          hashes = same;
          logs = λ n lo hi. content n lo (omega arith) (same n lo hi);
          below = λ n h. rows n ∙ ground arith;
          above = λ n h. rows n ∙ ground arith;
          events = λ e.
              let both = IsIn-select (λ d. not (leb b d.block_number)) e db.events in
              (
                λ m. let (old, t) = both.0 m in (old, ground arith),
                λ (old, t). both.1 (old, ground arith),
              );
        }

    stored_below :
        (b : ℕ) (h : String) → lookup b db.blocks ≡ some h → lookup b db.blocks ≡ none → ⊥
    stored_below b h seen missing = cc

    -- The events are polled from the reorganised block if there is one, or else from `next`.
    indexed :
        (c : ChainIndexerCursor) (latest : ℕ) (reorg : Option ℕ)
        → c.last_indexed_block ≡ pos next -ℤ pos 1
        → find_reorg_start (headers_from v' first_header (suc safe - first_header)) db ≡ reorg
        → index_blocks cfg (poller_of v' latest) c latest safe db
          ≡ index_events cfg (poller_of v' latest) c latest safe (resume_at reorg next) reorg (
              store_blocks
                (headers_from v' first_header (suc safe - first_header))
                (prune reorg db))
    unfolding index_blocks index_headers
    indexed c latest reorg e found =
        let (normal, repair) = bounds cfg c next synced.started window e in
        rw (normal, repair, found) refl

    completes :
        (latest : ℕ)
        → Searched v' db.blocks first_header
            (suc safe - first_header)
            (find_reorg_start (headers_from v' first_header (suc safe - first_header)) db)
        → InSync cfg v'
            (suc safe)
            (index_blocks cfg (poller_of v' latest) (current_cursor cfg db) latest safe db).0
    completes latest (inl (found, all)) =
        let kept = Kept-all (λ n lo hi. all n lo (omega arith)) in
        subst (λ r. InSync cfg v' (suc safe) r.0)
          (sym (indexed (current_cursor cfg db) latest none synced.cursor found))
          (completed cfg v v' db next safe synced good good' reached first_header next latest none
            db kept (omega arith))
    completes latest (inr (b, found, lo, hi, (h, seen, differs), all)) =
        let started = synced.started in
        let lt : b < next = elim (dec_lt b next) [
          | yes old ↦ old
          | no new ↦ absurd (stored_below b h seen (synced.no_more b (omega arith)))
        ] in
        let kept = Kept-below b (omega arith) lt all in
        subst (λ r. InSync cfg v' (suc safe) r.0)
          (sym (indexed (current_cursor cfg db) latest (some b) synced.cursor found))
          (completed cfg v v' db next safe synced good good' reached first_header b latest (some b)
            (delete_from_block b db) kept lo)

    -- The window is at least 1, and the tables hold a chain below `next`. In the new chain no block
    -- older than the window has another hash, blocks of the same hash have the same logs; logs name
    -- their blocks and have ids of their own. A run that reads the new chain, whose newest confirmed block is `safe`, not
    -- before the start nor before the last indexed block (`next ≤ suc safe`), leaves exactly the new
    -- chain's blocks and events up to `safe`, with the cursor there.
    pub run_once-InSync :
        InSync cfg v' (suc safe) (run_once cfg (poller_of v' (safe + cfg.confirmations)) db).0
    run_once-InSync =
        let p = poller_of v' (safe + cfg.confirmations) in
        subst (λ r. InSync cfg v' (suc safe) r.0)
          (sym (run_once_eq cfg p.block_headers p.poll db safe confirmed))
          (completes (safe + cfg.confirmations)
            (find_reorg_start_lem v' db first_header (suc safe - first_header)))
