-- ===== src/Store/Chain/Projection.antt =====
-- The projection that app/store/jobs.py builds of the stored events.
use signal_count.Base.{◌≡◌, refl}
use signal_count.Base.Outcome.{Outcome}
use signal_count.Base.Sorting.{sorted, sorted_idem, sorted-IsSorted}
use signal_count.Base.Floats.{Floats}
use signal_count.Indexer.Projections.Order.{comes_before-asym}
use signal_count.Indexer.Projections.{
  Readings, ProjectionError, ChainEventsProjection, comes_before, build_chain_events_projection,
}
use signal_count.Store.Chain.{ChainTables}

module _ (fl : Floats) (readings : Readings fl) where
  -- `_get_indexed_chain_projection_sync`: rows by block and log, and those that share both by row id.
  unfoldable pub get_projection :
      ChainTables → Outcome ProjectionError (ChainEventsProjection fl.Float)
  unfolding build_chain_events_projection
  get_projection db = build_chain_events_projection fl readings (sorted comes_before db.events)

  -- The projection of the store is that of its events as they stand: the order that the query asks for
  -- changes nothing, since the projection sorts.
  pub get_projection_lem :
      (db : ChainTables) → get_projection db ≡ build_chain_events_projection fl readings db.events
  unfolding get_projection build_chain_events_projection
  get_projection_lem db =
      let once = sorted comes_before db.events in
      rw (sorted_idem comes_before once (sorted-IsSorted comes_before comes_before-asym db.events))
        refl
