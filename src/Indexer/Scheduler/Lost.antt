-- ===== src/Indexer/Scheduler/Lost.antt =====
-- What a failed run of app/indexer/scheduler.py leaves to the run after it.
use signal_count.Base.{
  ℕ, suc, ◌+◌, ◌-◌, ◌≤◌, ◌<◌, ◌≡◌, ◌⊎◌, inl, inr, refl, sym, ◌∙◌, subst, String, true, false, ◌&&◌,
  not, none, some, List, [], ◌∷◌, leb, ltb, max, min, ◌==◌, string_eq, nat_eq, arith, Bool-cases,
}
use native.Mathlib.Decide.{dec_lt}
use signal_count.Base.Dict.{lookup}
use signal_count.Base.Outcome.{ok, err}
use signal_count.Base.Int.{pos, ◌-ℤ◌}
use signal_count.Indexer.Events.{IndexedChainEvent, event_id}
use signal_count.Store.Chain.{
  ChainTables, ChainIndexerCursor, store_events, insert_events, store_blocks, save_cursor,
  delete_from_block, insert_or_ignore, has_id,
}
use signal_count.Indexer.Scheduler.{
  Config, Poller, RunResult, current_cursor, find_reorg_start, finish, fail, index_events,
  index_headers, index_blocks, run_once,
}
use signal_count.Indexer.Scheduler.View.{
  IsIn, IsIn-append, View, IsView, headers_from, logs_from, poller_of, IsIn-logs_from,
}
use signal_count.Indexer.Scheduler.Tables.{lookup-select, lookup-insert_blocks, IsIn-select}
use signal_count.Indexer.Scheduler.Synced.{InSync, bounds, run_once_eq, saved_cursor}
use signal_count.Indexer.Scheduler.Runs.{Agrees, find_reorg_start_lem}

not_both : (a b : String) → some a ≡ some b → (a == b) ≡ false → ⊥
not_both a b e differs =
    let same : a ≡ b = cc in let yes_same = (string_eq.beq_iff a b).1 same in cc

none-some : (a : String) → none ≡ some a → ⊥
none-some a e = cc

insert_events-IsIn :
    (e : IndexedChainEvent) (rows es : List IndexedChainEvent)
    → IsIn e (insert_events rows es)
    → IsIn e rows ⊎ IsIn e es
unfolding insert_events
insert_events-IsIn e rows [] m = inl m
insert_events-IsIn e rows (x ∷ es) m = elim (insert_events-IsIn e (insert_or_ignore rows x) es m) [
  | inr later ↦ inr (inr later)
  | inl here ↦ elim (Bool-cases (has_id (event_id x) rows)) [
    | inl old ↦ inl (rw old at here)
    | inr new ↦ elim ((IsIn-append e rows (x ∷ [])).0 (rw new at here)) [
      | inl kept ↦ inl kept
      | inr last ↦ inr (elim last [ inl same ↦ inl same | inr nowhere ↦ absurd nowhere ])
    ]
  ]
]

module _ (cfg : Config) (v v' : View) (db : ChainTables) (next safe : ℕ)
    (window : 1 ≤ cfg.reorg_window) (synced : InSync cfg v next db) (good' : IsView v')
    (confirmed : cfg.start_block ≤ safe) (reached : next ≤ suc safe) (reason : String) (b : ℕ) where
  open cfg use {start_block}

  abbrev first_header : ℕ
  first_header = min next (max start_block (next - cfg.reorg_window))

  -- A poller of the new chain whose calls for logs raise.
  abbrev pub failing : Poller
  failing = record {
    latest_block_number = ok (safe + cfg.confirmations);
    block_headers = λ m n. ok (headers_from v' m (suc n - m));
    poll = λ m n. err reason;
  }

  abbrev pub Found : Type 0
  Found = find_reorg_start (headers_from v' first_header (suc safe - first_header)) db ≡ some b

  -- The new headers are stored, and the rows from `b` on deleted.
  abbrev stored : ChainTables
  stored =
      store_blocks (headers_from v' first_header (suc safe - first_header)) (delete_from_block b db)

  in_range :
      Found
      → (first_header ≤ b)
        × (b ≤ safe)
        × ((n : ℕ) → first_header ≤ n → n < b → Agrees v' db.blocks n)
  in_range found = elim (find_reorg_start_lem v' db first_header (suc safe - first_header)) [
    | inl (e, all) ↦ cc
    | inr (c, e, lo, hi, seen, all) ↦
        let same : c ≡ b = cc in (omega arith, omega arith, λ n l h. all n l (omega arith))
  ]

  failed_blocks :
      (c : ChainIndexerCursor)
      → c.last_indexed_block ≡ pos next -ℤ pos 1
      → Found
      → b ≤ safe
      → index_blocks cfg failing c (safe + cfg.confirmations) safe db ≡ fail cfg c reason stored
  unfolding index_blocks index_headers index_events
  failed_blocks c e found le =
      let (normal, repair) = bounds cfg c next synced.started window e in
      let more : leb b safe ≡ true = ground arith in rw (normal, repair, found, more) refl

  -- Later headers of the new chain agree with what the failed run stored.
  no_second_reorg :
      (later : ℕ) (t : ChainTables)
      → t.blocks ≡ stored.blocks
      → Found
      → find_reorg_start (headers_from v' first_header (suc later - first_header)) t ≡ none
  unfolding store_blocks delete_from_block
  no_second_reorg later t e found =
      let (lo, hi, all) = in_range found in
      elim (find_reorg_start_lem v' t first_header (suc later - first_header)) [
        | inl (none_found, agree) ↦ none_found
        | inr (n, other, l, h, (old, seen, differs), agree) ↦
            let kept = lookup-select (λ m. not (leb b m)) n db.blocks in
            let here =
              lookup-insert_blocks v' first_header (suc safe - first_header) n
                (delete_from_block b db).blocks in
            let read : lookup n stored.blocks ≡ some old =
              subst (λ r. lookup n r ≡ some old) e seen in
            elim (dec_lt n (suc safe)) [
              | yes early ↦
                  let inside : (leb first_header n
                        && ltb n (first_header + (suc safe - first_header)))
                      ≡ true =
                    ground arith in
                  absurd (not_both old (v'.hash n) (sym read ∙ rw inside at here) differs)
              | no late ↦
                  let outside : (leb first_header n
                        && ltb n (first_header + (suc safe - first_header)))
                      ≡ false =
                    ground arith in
                  let gone : not (leb b n) ≡ false = ground arith in
                  absurd (none-some old (sym (rw gone at kept) ∙ sym (rw outside at here) ∙ read))
            ]
      ]

  later_blocks :
      (c : ChainIndexerCursor) (later latest : ℕ) (t : ChainTables)
      → c.last_indexed_block ≡ pos next -ℤ pos 1
      → t.blocks ≡ stored.blocks
      → Found
      → index_blocks cfg (poller_of v' latest) c latest later t
        ≡ index_events cfg
            (poller_of v' latest)
            c
            latest
            later
            next
            none
            (store_blocks (headers_from v' first_header (suc later - first_header)) t)
  unfolding index_blocks index_headers
  later_blocks c later latest t e same found =
      let (normal, repair) = bounds cfg c next synced.started window e in
      rw (normal, repair, no_second_reorg later t same found) refl

  later_events :
      (c : ChainIndexerCursor) (later latest : ℕ) (t : ChainTables)
      → next ≤ suc later
      → let r =
          index_events cfg
            (poller_of v' latest)
            c
            latest
            later
            next
            none
            (store_blocks (headers_from v' first_header (suc later - first_header)) t) in
        (r.1.status ≡ "ok")
        × (r.0.events ≡ insert_events t.events (logs_from v' next (suc later - next)))
  unfolding index_events store_events finish store_blocks insert_events save_cursor
  later_events c later latest t h = elim (Bool-cases (leb next later)) [
    | inl more ↦ rw more (refl, refl)
    | inr over ↦
        let none_left : suc later - next ≡ 0 = ground (arith, over) in
        rw (over, none_left) (refl, refl)
  ]

  missing :
      (later : ℕ) (t : ChainTables) (e : IndexedChainEvent)
      → t.events ≡ stored.events
      → IsIn e (insert_events t.events (logs_from v' next (suc later - next)))
      → (e.block_number < b) ⊎ (next ≤ e.block_number)
  unfolding delete_from_block store_blocks
  missing later t e same m =
      elim (insert_events-IsIn e t.events (logs_from v' next (suc later - next)) m) [
        | inl old ↦
            let (was, t) =
              (IsIn-select (λ d. not (leb b d.block_number)) e db.events).0
                (subst (IsIn e) same old) in
            inl (ground arith)
        | inr new ↦
            let (n, lo, hi, w) = (IsIn-logs_from v' e next (suc later - next)).0 new in
            let here = good'.placed n e w in inr (omega arith)
      ]

  -- What the run after the failed one comes to.
  abbrev Loses : ℕ → ChainTables × RunResult → Type 0
  Loses later again =
      (again.1.status ≡ "ok")
      × ((e : IndexedChainEvent)
          → IsIn e again.0.events
          → (e.block_number < b) ⊎ (next ≤ e.block_number))

  next_run :
      (later : ℕ) (t : ChainTables)
      → safe ≤ later
      → Found
      → (current_cursor cfg t).last_indexed_block ≡ pos next -ℤ pos 1
      → t.blocks ≡ stored.blocks
      → t.events ≡ stored.events
      → Loses later (run_once cfg (poller_of v' (later + cfg.confirmations)) t)
  next_run later t h found at blocks events =
      let p = poller_of v' (later + cfg.confirmations) in
      let run =
        run_once_eq cfg p.block_headers p.poll t later (omega arith)
        ∙ later_blocks (current_cursor cfg t) later (later + cfg.confirmations) t at blocks found in
      let (ok_status, rows) =
        later_events (current_cursor cfg t) later (later + cfg.confirmations) t (omega arith) in
      subst (Loses later) (sym run)
        (ok_status, λ e m. missing later t e events (subst (IsIn e) rows m))

  failed_cursor :
      (c : ChainIndexerCursor)
      → c.last_indexed_block ≡ pos next -ℤ pos 1
      → (current_cursor cfg (fail cfg c reason stored).0).last_indexed_block ≡ pos next -ℤ pos 1
  unfolding fail
  failed_cursor c e =
      saved_cursor cfg c.last_indexed_block c.last_safe_block "failed" (some reason) stored ∙ e

  -- A run that finds a reorganisation at `b`, whose poll for logs then raises, makes the run after
  -- it miss events: that run, over the same chain and with no failure, reports `ok`, and no event of
  -- the blocks from `b` up to `next` is stored. The tables had been in sync
  -- below `next`, the window is at least 1, and the newest confirmed block `safe` is neither before the
  -- start nor before the last indexed block.
  pub failed_poll-loses_events :
      (later : ℕ)
      → safe ≤ later
      → Found
      → let again =
          run_once cfg (poller_of v' (later + cfg.confirmations)) (run_once cfg failing db).0 in
        (again.1.status ≡ "ok")
        × ((e : IndexedChainEvent)
            → IsIn e again.0.events
            → (e.block_number < b) ⊎ (next ≤ e.block_number))
  unfolding fail save_cursor
  failed_poll-loses_events later h found =
      let c = current_cursor cfg db in
      let (lo, hi, all) = in_range found in
      let first =
        run_once_eq cfg failing.block_headers failing.poll db safe confirmed
        ∙ failed_blocks c synced.cursor found hi in
      subst (λ r. Loses later (run_once cfg (poller_of v' (later + cfg.confirmations)) r.0))
        (sym first)
        (next_run later (fail cfg c reason stored).0 h found (failed_cursor c synced.cursor) refl
          refl)
