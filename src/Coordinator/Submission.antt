-- ===== src/Coordinator/Submission.antt =====
-- The submission of a job (`create_completed_job_submission` of app/api/jobs.py): it is stored, dispatched,
-- answered by a memo, and stored again. An exception leaves the table as it is then.
pub mod Stored
pub mod Ledger
use signal_count.Base.{String, Option, none, some, List, [], ◌∷◌, map, not, if◌then◌else◌}
use signal_count.Base.Int.{ℤ}
use signal_count.Base.Json.{Json, str, arr, obj, Fields, end, field, items_of, texts, update_fields}
use signal_count.Base.Text.{is_empty}
use signal_count.Base.Outcome.{Outcome, ok, err}
use signal_count.Chain.Receipts.{JobChainReceipts, failed, to_metadata}
use signal_count.Store.Jobs.{
  JobRecord, JobRow, JobError, JobLibrary, create_job, complete_job, get_job,
}
use signal_count.Coordinator.Dispatch.{ExecutionRecord}
use signal_count.Coordinator.Run.{is_any}

-- Of `CoordinatorDispatchResult` what a submission stores.
pub record Dispatched (F : Type 0) : Type 0 where
  pub node_execution_records : List (ExecutionRecord F)
  pub topology_snapshot : Fields
  pub run_metadata : Fields

-- `HTTPException`, or an exception of the store, the coordinator or the synthesizer.
pub data SubmissionError (X Y : Type 0) : Type 0 where
  storing : JobError → SubmissionError X Y
  dispatching : X → SubmissionError X Y
  synthesizing : Y → SubmissionError X Y
  not_persisted : SubmissionError X Y

abbrev text_unless_empty : String → String → Fields → Fields
text_unless_empty key value rest = if is_empty value then rest else field key (str value) rest

module _ {F : Type 0} (dump_float : F → Json) (dump_int : ℤ → Json) where
  -- `NodeExecutionRecord.to_dict`
  unfoldable pub record_dict : ExecutionRecord F → Fields
  record_dict r = field "node_role" (str r.node_role) (
      field "peer_id" (str r.peer_id) (
        field "status" (str r.status) (
          field "latency_ms" (dump_float r.latency_ms) (
            text_unless_empty "service_name" r.service_name (
              text_unless_empty "transport" r.transport (
                text_unless_empty "dispatch_target" r.dispatch_target (
                  text_unless_empty "selection_reason" r.selection_reason (
                    if is_any r.attempted_peer_ids
                    then field "attempted_peer_ids" (texts r.attempted_peer_ids) end
                    else end))))))))

  -- `_build_provenance_ledger`
  unfoldable pub build_provenance_ledger : List (ExecutionRecord F) → Json
  build_provenance_ledger records = arr (items_of (map (λ r. obj (record_dict r)) records))

  -- `_build_chain_receipt_metadata`, of what the recorder, if there is one, comes to.
  unfoldable pub build_chain_receipt_metadata :
      {X : Type 0} → Option (Outcome X (JobChainReceipts F)) → Fields
  build_chain_receipt_metadata none = end
  build_chain_receipt_metadata (some (ok receipts)) = to_metadata dump_float dump_int receipts
  build_chain_receipt_metadata (some (err e)) = to_metadata dump_float dump_int (record {
    receipt_status = "failed";
    receipts = failed "job_receipts" "chain receipt write failed" none ∷ [];
  })

  -- The protocols `Coordinator`, `MemoSynthesizer` and `ChainReceiptRecorder`, called for the job's id; a
  -- memo is its `model_dump`.
  module _ {X Y Z : Type 0} (lib : JobLibrary) (coordinator : String → Outcome X (Dispatched F))
      (synthesizer : String → Dispatched F → Outcome Y Json)
      (recorder : Option (String → Dispatched F → Json → Outcome Z (JobChainReceipts F))) where
    abbrev recorded : String → Dispatched F → Json → Option (Outcome Z (JobChainReceipts F))
    recorded i d memo = elim recorder [
      | none ↦ none
      | some record_job_receipts ↦ some (record_job_receipts i d memo)
    ]

    abbrev pub final_metadata : String → Dispatched F → Json → Fields
    final_metadata i d memo =
        update_fields (build_chain_receipt_metadata (recorded i d memo)) d.run_metadata

    abbrev pub completed_table : String → Dispatched F → Json → List JobRow → List JobRow
    completed_table i d memo rows =
        complete_job lib i memo (some (build_provenance_ledger d.node_execution_records))
          (some (obj d.topology_snapshot)) (some (obj (final_metadata i d memo))) rows

    -- The id and the status of the stored job.
    abbrev pub answer :
        Outcome JobError (Option JobRecord) → Outcome (SubmissionError X Y) (String × String)
    answer (err e) = err (storing e)
    answer (ok none) = err not_persisted
    answer (ok (some job)) = ok (job.job_id, job.status)

    abbrev pub after_memo :
        String
        → Dispatched F
        → List JobRow
        → Outcome Y Json
        → List JobRow × Outcome (SubmissionError X Y) (String × String)
    after_memo i d rows (err e) = (rows, err (synthesizing e))
    after_memo i d rows (ok memo) =
        let done = completed_table i d memo rows in (done, answer (get_job lib i done))

    abbrev pub after_dispatch :
        String
        → List JobRow
        → Outcome X (Dispatched F)
        → List JobRow × Outcome (SubmissionError X Y) (String × String)
    after_dispatch i rows (err e) = (rows, err (dispatching e))
    after_dispatch i rows (ok d) = after_memo i d rows (synthesizer i d)

    abbrev pub after_creation :
        List JobRow
        → Outcome JobError (JobRecord × List JobRow)
        → List JobRow × Outcome (SubmissionError X Y) (String × String)
    after_creation rows (err e) = (rows, err (storing e))
    after_creation rows (ok (job, after)) = after_dispatch job.job_id after (coordinator job.job_id)

    -- `create_completed_job_submission`, for a fresh id and the present time.
    unfoldable pub create_completed_job_submission :
        String
        → String
        → Json
        → List JobRow
        → List JobRow × Outcome (SubmissionError X Y) (String × String)
    create_completed_job_submission uuid now payload rows =
        after_creation rows (create_job lib uuid now payload rows)
