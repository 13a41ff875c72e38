-- ===== src/Examples/Indexer.antt =====
-- A chain and its reorganised form to test app/indexer/scheduler.py with.
use signal_count.Base.{
  ℕ, zero, suc, ◌<◌, ◌≤◌, ◌≡◌, ◌⊎◌, inl, inr, refl, String, true, false, none, [], ◌∷◌, nat_beq,
  if◌then◌else◌, arith, string_eq, ap, sym, ◌∙◌, Bool-cases,
}
use signal_count.Base.Int.{pos}
use signal_count.Base.Json.{end}
use signal_count.Base.Outcome.{err}
use signal_count.Indexer.Events.{IndexedChainEvent}
use signal_count.Store.Chain.{ChainTables, block_hashes}
use signal_count.Indexer.Scheduler.{fail, Config, Poller, find_reorg_start, run_once}
use signal_count.Indexer.Scheduler.View.{View, IsView, IsIn, poller_of}
use signal_count.Indexer.Scheduler.Synced.{InSync}
use signal_count.Indexer.Scheduler.Sync.{run_once-InSync}
use signal_count.Indexer.Scheduler.Failed.{progress, run_once-keeps_progress}
use signal_count.Indexer.Scheduler.Lost.{Found, failing, failed_poll-loses_events}

abbrev cfg : Config
cfg = record { cursor_name = "main"; start_block = 0; confirmations = 2; reorg_window = 2 }

-- Blocks with no logs, all of one hash.
abbrev plain : View
plain = record { hash = λ n. "0x0"; logs = λ n. [] }

abbrev log_in : String → ℕ → IndexedChainEvent
log_in hash n = record {
  event_name = "TaskRegistered";
  contract_address = "0xc";
  block_number = n;
  block_hash = hash;
  transaction_hash = "0xt";
  log_index = 0;
  args = end;
}

-- From block 1 on the hashes are others, and block 1 has a log.
abbrev forked : View
forked = record {
  hash = λ n. if nat_beq n 0 then "0x0" else "0x1";
  logs = λ n. if nat_beq n 1 then log_in "0x1" 1 ∷ [] else [];
}

plain-IsView : IsView plain
plain-IsView = record { placed = λ n e m. absurd m; unique = λ n m d e p q s. absurd p }

only_log : (n : ℕ) (e : IndexedChainEvent) → IsIn e (forked.logs n) → (n ≡ 1) × (e ≡ log_in "0x1" 1)
only_log n e m = elim (Bool-cases (nat_beq n 1)) [
  | inl one ↦ (ground arith, elim (rw one at m) [ inl same ↦ same | inr nowhere ↦ absurd nowhere ])
  | inr other ↦ absurd (rw other at m)
]

forked-IsView : IsView forked
forked-IsView = record {
  placed = λ n e m. let (one, same) = only_log n e m in ap (λ x. x.block_number) same ∙ sym one;
  unique = λ n m d e p q s. (only_log n d p).1 ∙ sym (only_log m e q).1;
}

-- The plain chain's first two blocks are indexed.
abbrev indexed : ChainTables
indexed = record {
  events = [];
  blocks = (0, "0x0") ∷ (1, "0x0") ∷ [];
  cursors =
      (
        "main",
        record {
          name = "main";
          last_indexed_block = pos 1;
          last_safe_block = pos 1;
          status = "ok";
          error = none;
        },
      )
      ∷ [];
}

indexed-InSync : InSync cfg plain 2 indexed
indexed-InSync = record {
  started = omega arith;
  cursor = refl;
  hashes = λ n lo hi. ground arith;
  no_more = λ n h. ground arith;
  events = λ e. (λ m. absurd m, λ (n, lo, hi, m). m);
}

other_text : ◌≡◌ {A = String} "0x1" "0x0" → ⊥
other_text e = let t : false ≡ true = (string_eq.beq_iff "0x1" "0x0").1 e in cc

same_logs : (n : ℕ) → 0 ≤ n → n < 2 → forked.hash n ≡ plain.hash n → forked.logs n ≡ plain.logs n
same_logs zero lo h e = refl
same_logs (suc zero) lo h e = absurd (other_text e)
same_logs (suc (suc n)) lo h e = absurd (omega arith)

run_once-InSync_example : InSync cfg forked 4 (run_once cfg (poller_of forked 5) indexed).0
run_once-InSync_example =
    run_once-InSync cfg plain forked indexed 2 3 (omega arith) indexed-InSync plain-IsView
      forked-IsView (omega arith) (omega arith) (λ n lo h. absurd (omega arith)) same_logs

abbrev raising : Poller
raising = record {
  latest_block_number = err "rpc down";
  block_headers = λ a b. err "";
  poll = λ a b. err "";
}

raising_fails : (run_once cfg raising indexed).1.status ≡ "failed"
unfolding run_once fail
raising_fails = refl

run_once-keeps_progress_example :
    progress cfg (run_once cfg raising indexed).0 ≡ progress cfg indexed
run_once-keeps_progress_example = run_once-keeps_progress cfg raising indexed raising_fails

found :
    Found cfg plain forked indexed 2 3
      (omega arith)
      indexed-InSync
      forked-IsView
      (omega arith)
      (omega arith)
      "rpc down"
      1
unfolding find_reorg_start block_hashes
found = refl

failed_poll-loses_events_example :
    let again =
      run_once cfg
        (poller_of forked 6)
        (run_once cfg
          (failing cfg plain forked indexed 2 3
            (omega arith)
            indexed-InSync
            forked-IsView
            (omega arith)
            (omega arith)
            "rpc down"
            1)
          indexed).0 in
    (again.1.status ≡ "ok")
    × ((e : IndexedChainEvent)
        → IsIn e again.0.events
        → (e.block_number < 1) ⊎ (2 ≤ e.block_number))
failed_poll-loses_events_example =
    failed_poll-loses_events cfg plain forked indexed 2 3 (omega arith) indexed-InSync forked-IsView
      (omega arith) (omega arith) "rpc down" 1 4 (omega arith) found
