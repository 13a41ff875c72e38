-- ===== src/Indexer/Scheduler/Kept.antt =====
-- The last steps of a run of app/indexer/scheduler.py, from the rows that the pruning kept.
use signal_count.Base.{
  ℕ, suc, ◌+◌, ◌-◌, ◌≤◌, ◌<◌, ◌≡◌, ◌↔◌, inl, inr, refl, ap, sym, ◌∙◌, subst, String, Bool, true,
  false, ◌&&◌, Option, none, some, leb, ltb, string_eq, ltb_of_le, nat_eq, arith, Bool-cases,
  if◌then◌else◌,
}
use native.Mathlib.Decide.{dec_lt}
use signal_count.Base.Dict.{lookup}
use signal_count.Base.Int.{pos}
use signal_count.Indexer.Events.{IndexedChainEvent}
use signal_count.Store.Chain.{
  ChainTables, store_events, insert_events, store_blocks, insert_blocks, save_cursor,
}
use signal_count.Indexer.Scheduler.{Config, current_cursor, save, index_events}
use signal_count.Indexer.Scheduler.View.{
  IsIn, View, IsView, headers_from, logs_from, poller_of, IsIn-logs_from,
}
use signal_count.Indexer.Scheduler.Tables.{lookup-insert_blocks, IsIn-insert_events}
use signal_count.Indexer.Scheduler.Synced.{IsEventOf, InSync, saved_cursor}

same_both : (b : Bool) {x y : Option String} → y ≡ x → (if b then x else y) ≡ x
same_both true e = refl
same_both false e = e

and_false :
    (a b : Bool) (x y : Option String) → b ≡ false → y ≡ none → (if a && b then x else y) ≡ none
and_false a b x y f e = ground arith

module _ (cfg : Config) where
  open cfg use {start_block}

  module _ (v v' : View) (db : ChainTables) (next safe : ℕ) (synced : InSync cfg v next db)
      (good : IsView v) (good' : IsView v') (reached : next ≤ suc safe) where
    -- The tables after the pruning: the rows below `from`, where both chains have the same blocks.
    pub record Kept (from : ℕ) (kept : ChainTables) : Type 0 where
      pub lower : start_block ≤ from
      pub upper : from ≤ next
      pub hashes : (n : ℕ) → start_block ≤ n → n < from → v'.hash n ≡ v.hash n
      pub logs : (n : ℕ) → start_block ≤ n → n < from → v'.logs n ≡ v.logs n
      pub below : (n : ℕ) → n < from → lookup n kept.blocks ≡ lookup n db.blocks
      pub above : (n : ℕ) → from ≤ n → lookup n kept.blocks ≡ none
      pub events :
          (e : IndexedChainEvent)
          → IsIn e kept.events ↔ (IsIn e db.events × (e.block_number < from))

    Kept-event :
        (from : ℕ) (kept : ChainTables)
        → Kept from kept
        → (e : IndexedChainEvent) → IsIn e kept.events ↔ IsEventOf v' start_block from e
    Kept-event from kept k e = (
      λ m.
          let (old, lt) = (k.events e).0 m in
          let (n, lo, hi, w) = (synced.events e).0 old in
          let here = good.placed n e w in
          let within : n < from = omega arith in
          (n, lo, within, subst (IsIn e) (sym (k.logs n lo within)) w),
      λ (n, lo, hi, w).
          let w' = subst (IsIn e) (k.logs n lo hi) w in
          let here = good.placed n e w' in
          let up = k.upper in
          (k.events e).1 ((synced.events e).1 (n, lo, omega arith, w'), omega arith),
    )

    -- The events of the polled blocks, added to the kept ones.
    stored_event :
        (from : ℕ) (kept : ChainTables)
        → Kept from kept
        → (e : IndexedChainEvent)
        → IsIn e (insert_events kept.events (logs_from v' from (suc safe - from)))
          ↔ IsEventOf v' start_block (suc safe) e
    stored_event from kept k e =
        let lower = k.lower in
        let upper = k.upper in
        let P = λ (d : IndexedChainEvent). (n : ℕ) × IsIn d (v'.logs n) in
        let fresh = IsIn-logs_from v' e from (suc safe - from) in
        let added =
          IsIn-insert_events P (λ c d (n, m) (n', m') same. good'.unique n n' c d m m' same) e
            kept.events (logs_from v' from (suc safe - from))
            (λ d m. let (n, lo, hi, w) = (Kept-event from kept k d).0 m in (n, w))
            (λ d m.
              let (n, lo, hi, w) = (IsIn-logs_from v' d from (suc safe - from)).0 m in (n, w)) in
        (
          λ m. elim (added.0 m) [
            | inl old ↦
                let (n, lo, hi, w) = (Kept-event from kept k e).0 old in (n, lo, omega arith, w)
            | inr new ↦ let (n, lo, hi, w) = fresh.0 new in (n, omega arith, omega arith, w)
          ],
          λ (n, lo, hi, w). added.1 (elim (dec_lt n from) [
            | yes early ↦ inl ((Kept-event from kept k e).1 (n, lo, early, w))
            | no late ↦ inr (fresh.1 (n, omega arith, omega arith, w))
          ]),
        )

    -- The tables that a run leaves, whether or not a block was left to poll.
    final :
        (from latest : ℕ) (reorg : Option ℕ) (t : ChainTables)
        → from ≤ suc safe
        → (index_events cfg
            (poller_of v' latest)
            (current_cursor cfg db)
            latest
            safe
            from
            reorg
            t).0
          ≡ save cfg
              (pos safe)
              (pos safe)
              "ok"
              none
              (record t { events = insert_events t.events (logs_from v' from (suc safe - from)) })
    unfolding index_events store_events insert_events
    final from latest reorg t h = elim (Bool-cases (leb from safe)) [
      | inl more ↦ rw more refl
      | inr over ↦
          let none_left : suc safe - from ≡ 0 = ground (arith, over) in rw (over, none_left) refl
    ]

    hash_at :
        (a from : ℕ) (kept : ChainTables)
        → Kept from kept
        → a ≤ from
        → (n : ℕ) → start_block ≤ n
        → n < suc safe
        → (if leb a n && ltb n (a + (suc safe - a)) then some (v'.hash n) else lookup n kept.blocks)
          ≡ some (v'.hash n)
    hash_at a from kept k h n lo hi = elim (dec_lt n from) [
      | no late ↦ ground arith
      | yes early ↦
          let upper = k.upper in
          let old = k.below n early ∙ synced.hashes n lo (omega arith) in
          same_both (leb a n && ltb n (a + (suc safe - a)))
            (old ∙ ap some (sym (k.hashes n lo early)))
    ]

    none_above :
        (a from : ℕ) (kept : ChainTables)
        → Kept from kept
        → a ≤ from
        → (n : ℕ) → suc safe ≤ n
        → (if leb a n && ltb n (a + (suc safe - a)) then some (v'.hash n) else lookup n kept.blocks)
          ≡ none
    none_above a from kept k h n lo =
        let upper = k.upper in
        let clear = k.above n (omega arith) in
        let out : ltb n (a + (suc safe - a)) ≡ false =
          ltb_of_le n (a + (suc safe - a)) (omega arith) in
        and_false (leb a n) (ltb n (a + (suc safe - a))) (some (v'.hash n)) (lookup n kept.blocks)
          out clear

    complete :
        (a from : ℕ) (kept : ChainTables)
        → Kept from kept
        → a ≤ from
        → InSync cfg v' (suc safe) (
            save cfg (pos safe) (pos safe) "ok" none (record kept {
              events = insert_events kept.events (logs_from v' from (suc safe - from));
              blocks = insert_blocks (headers_from v' a (suc safe - a)) kept.blocks;
            }))
    unfolding save_cursor
    complete a from kept k h =
        let lower = k.lower in
        let upper = k.upper in
        let at = λ (n : ℕ). lookup-insert_blocks v' a (suc safe - a) n kept.blocks in
        record {
          started = omega arith;
          cursor = saved_cursor cfg (pos safe) (pos safe) "ok" none kept ∙ ground arith;
          hashes = λ n lo hi. at n ∙ hash_at a from kept k h n lo hi;
          no_more = λ n lo. at n ∙ none_above a from kept k h n lo;
          events = stored_event from kept k;
        }

    -- Storing the headers from `a` on and the events from `from` on completes the new chain.
    pub completed :
        (a from latest : ℕ) (reorg : Option ℕ) (kept : ChainTables)
        → Kept from kept
        → a ≤ from
        → InSync cfg v'
            (suc safe)
            (index_events cfg
              (poller_of v' latest)
              (current_cursor cfg db)
              latest
              safe
              from
              reorg
              (store_blocks (headers_from v' a (suc safe - a)) kept)).0
    unfolding store_blocks
    completed a from latest reorg kept k h =
        let upper = k.upper in
        let t = store_blocks (headers_from v' a (suc safe - a)) kept in
        subst (InSync cfg v' (suc safe)) (sym (final from latest reorg t (omega arith)))
          (complete a from kept k h)
