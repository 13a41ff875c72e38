-- ===== src/Indexer/Projections/Order.antt =====
-- The projection of app/indexer/projections.py on events in another order.
use signal_count.Base.{◌≡◌, ap, true, false, List, ltb, arith}
use signal_count.Base.Sorting.{Reordered, IsApart, sorted, sorted_unique}
use signal_count.Base.Outcome.{ok, ◌>>=◌}
use signal_count.Base.Floats.{Floats}
use signal_count.Indexer.Events.{IndexedChainEvent}
use signal_count.Indexer.Projections.{
  Readings, comes_before, apply_events, empty_projection, build_chain_events_projection,
}

comes_before_trans :
    (a b c : IndexedChainEvent)
    → comes_before a b ≡ true
    → comes_before b c ≡ true
    → comes_before a c ≡ true
comes_before_trans a b c h k = ground arith

pub comes_before-asym :
    (a b : IndexedChainEvent) → comes_before a b ≡ true → comes_before b a ≡ false
comes_before-asym a b h = ground arith

-- Events of which no two share both block and log index have one projection in every order.
pub build_chain_events_projection-Reordered :
    (fl : Floats) (readings : Readings fl) {events events' : List IndexedChainEvent}
    → Reordered events events'
    → IsApart comes_before events
    → build_chain_events_projection fl readings events
      ≡ build_chain_events_projection fl readings events'
unfolding build_chain_events_projection
build_chain_events_projection-Reordered fl readings moved apart =
    ap
      (λ es. apply_events fl readings es (empty_projection fl readings) >>= λ p.
        ok (record p { tasks = sorted (λ a b. ltb a.0 b.0) p.tasks }))
      (sorted_unique comes_before comes_before_trans moved apart)
