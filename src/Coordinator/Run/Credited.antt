-- ===== src/Coordinator/Run/Credited.antt =====
-- The metadata of a run (app/coordinator/service.py), as app/api/jobs.py stores it, and the
-- leaderboard that app/store/jobs.py reads from it.
use signal_count.Base.{
  String, ◌≡◌, refl, ap, ◌∙◌, sym, Option, none, some, List, [], ◌∷◌, map, All, concat_map,
  map-concat_map,
}
use signal_count.Base.Int.{ℤ}
use signal_count.Base.Json.{
  Json, obj, Fields, get_field, items_of, update_fields, get_field-update_fields,
}
use signal_count.Base.Outcome.{Outcome, ok, err}
use signal_count.Base.Floats.{Floats}
use signal_count.Schemas.{VerificationAttestation}
use signal_count.Orchestration.Graph.{WorkflowGraph}
use signal_count.Orchestration.Plan.{ExecutionPlan}
use signal_count.Base.Sorting.{IsSorted}
use signal_count.Evaluation.Reputation.{ReputationLedgerEntry, update_of, build_reputation_updates}
use signal_count.Evaluation.Reputation.Leaderboard.{
  ValueLibrary, IsStorable, build_reputation_leaderboard, build_reputation_leaderboard-IsSorted,
  ranks_before,
}
use signal_count.Chain.Receipts.{JobChainReceipts, to_metadata}
use signal_count.Store.Jobs.{JobRow, JobLibrary}
use signal_count.Store.Jobs.Leaderboard.{
  dicts_of, updates_of, completed_rows, get_reputation_leaderboard,
}
use signal_count.Store.Jobs.Roundtrip.{Restores}
use signal_count.Store.Jobs.Credited.{Submitted, get_reputation_leaderboard-Submitted}
use signal_count.Coordinator.Submission.{build_chain_receipt_metadata}
use signal_count.Coordinator.Run.{DispatchResult}
use signal_count.Coordinator.Run.Metadata.{
  DumpLibrary, update_dicts, updated_if, build_run_metadata,
}

-- What a job is completed with: its dispatch, and what the recorder of receipts, if there is one, came to.
pub record Run (X F : Type 0) : Type 0 where
  pub run_mode : String
  pub result : DispatchResult F
  pub input_sources : List Fields
  pub receipts : Option (Outcome X (JobChainReceipts F))

dicts_of-objects : (ds : List Fields) → dicts_of (items_of (map obj ds)) ≡ ds
dicts_of-objects [] = refl
dicts_of-objects (d ∷ ds) = ap (λ more. d ∷ more) (dicts_of-objects ds)

-- A dict that does not name the updates, if there is one.
abbrev pub NamesNoUpdates : Option Fields → Type 0
NamesNoUpdates none = Unit
NamesNoUpdates (some d) = get_field "reputation_updates" d ≡ none

get_field-updated_if :
    (more : Option Fields) (d : Fields)
    → NamesNoUpdates more
    → get_field "reputation_updates" (updated_if more d) ≡ get_field "reputation_updates" d
get_field-updated_if none d h = refl
get_field-updated_if (some other) d h = get_field-update_fields "reputation_updates" other d h

build_chain_receipt_metadata-NamesNoUpdates :
    {X F : Type 0} (dump_float : F → Json) (dump_int : ℤ → Json)
    (receipts : Option (Outcome X (JobChainReceipts F)))
    → get_field "reputation_updates" (build_chain_receipt_metadata dump_float dump_int receipts)
      ≡ none
unfolding build_chain_receipt_metadata to_metadata
build_chain_receipt_metadata-NamesNoUpdates dump_float dump_int none = refl
build_chain_receipt_metadata-NamesNoUpdates dump_float dump_int (some (ok receipts)) = refl
build_chain_receipt_metadata-NamesNoUpdates dump_float dump_int (some (err e)) = refl

module _ (fl : Floats) (round6 percent : fl.Float → fl.Float) (add : fl.Float → fl.Float → fl.Float)
    (values : ValueLibrary fl.Float) (dumps : DumpLibrary fl.Float) (dump_int : ℤ → Json)
    (graph : WorkflowGraph) (plan : ExecutionPlan) (transport verifier : Option Fields)
    {X : Type 0} where
  open fl use {Float}

  -- `run_metadata` of `create_completed_job_submission`.
  abbrev pub stored_metadata : Run X Float → Json
  stored_metadata run = obj (
      update_fields (build_chain_receipt_metadata values.number_of dump_int run.receipts) (
        build_run_metadata fl round6 percent add values dumps graph plan run.run_mode run.result
          run.input_sources transport verifier))

  stored_metadata-updates :
      (run : Run X Float)
      → NamesNoUpdates transport
      → NamesNoUpdates verifier
      → updates_of (stored_metadata run)
        ≡ ok (update_dicts fl round6 percent add values dumps run.result.attestations)
  unfolding build_run_metadata
  stored_metadata-updates run of_transport of_verifier =
      rw
        (
          get_field-update_fields "reputation_updates"
              (build_chain_receipt_metadata values.number_of dump_int run.receipts)
              (build_run_metadata fl round6 percent add values dumps graph plan run.run_mode
                run.result run.input_sources transport verifier)
              (build_chain_receipt_metadata-NamesNoUpdates values.number_of dump_int run.receipts),
          get_field-updated_if verifier _ of_verifier,
          get_field-updated_if transport _ of_transport,
          dicts_of-objects
              (update_dicts fl round6 percent add values dumps run.result.attestations),
        )
        refl

  module _ (lib : JobLibrary) (runs : String → Run X Float) where
    -- A table that jobs are created in, and completed in with their runs.
    abbrev pub HasRuns : List JobRow → Type 0
    HasRuns rows =
        Submitted lib fl values (λ i. stored_metadata (runs i))
          (λ i. build_reputation_updates fl round6 percent add (runs i).result.attestations) rows

    abbrev pub attestations_in : List JobRow → List (VerificationAttestation Float)
    attestations_in rows = concat_map (λ r. (runs r.job_id).result.attestations) rows

    abbrev pub board_of : List JobRow → List (ReputationLedgerEntry Float)
    board_of rows =
        build_reputation_leaderboard fl round6 percent add (
          build_reputation_updates fl round6 percent add
            (attestations_in (completed_rows lib rows)))

    -- The leaderboard of the store is that of the attestations of the completed jobs' dispatches, in the
    -- order of the jobs' times, and it is sorted, if json reads back the metadata that is stored and the
    -- floats in it, no wallet is an empty text, and no `run_metadata` of the transport or the verifier
    -- names the updates.
    pub get_reputation_leaderboard-dispatched :
        NamesNoUpdates transport
        → NamesNoUpdates verifier
        → ((i : String) → Restores lib (stored_metadata (runs i)))
        → ((i : String)
            → All
                (IsStorable values)
                (build_reputation_updates fl round6 percent add (runs i).result.attestations))
        → {rows : List JobRow} → HasRuns rows
        → (get_reputation_leaderboard lib fl values round6 percent add rows ≡ ok (board_of rows))
          × IsSorted (ranks_before fl round6 percent add) (board_of rows)
    unfolding build_reputation_updates
    get_reputation_leaderboard-dispatched of_transport of_verifier restores storable {rows}
          has_runs =
        (
          get_reputation_leaderboard-Submitted lib fl values (λ i. stored_metadata (runs i))
                (λ i. build_reputation_updates fl round6 percent add (runs i).result.attestations)
                restores (λ i. stored_metadata-updates (runs i) of_transport of_verifier) storable
                round6 percent add has_runs
              ∙ ap (λ us. ok (build_reputation_leaderboard fl round6 percent add us))
                  (sym (
                    map-concat_map (update_of fl round6 percent add)
                      (λ r. (runs r.job_id).result.attestations) (completed_rows lib rows))),
          (build_reputation_leaderboard-IsSorted fl round6 percent add _).0,
        )
