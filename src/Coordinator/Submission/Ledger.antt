-- ===== src/Coordinator/Submission/Ledger.antt =====
-- The table of jobs after submissions of app/api/jobs.py, one after another or overlapping.
use signal_count.Base.{String, ◌≡◌, refl, sym, subst, Option, some, List, [], ◌∷◌, All}
use signal_count.Base.Int.{ℤ}
use signal_count.Base.Json.{Json, obj, Fields}
use signal_count.Base.Outcome.{Outcome, ok, err}
use signal_count.Base.Floats.{Floats}
use signal_count.Chain.Receipts.{JobChainReceipts}
use signal_count.Base.Sorting.{IsSorted}
use signal_count.Orchestration.Graph.{WorkflowGraph}
use signal_count.Orchestration.Plan.{ExecutionPlan}
use signal_count.Evaluation.Reputation.{ReputationUpdate, build_reputation_updates}
use signal_count.Evaluation.Reputation.Leaderboard.{ValueLibrary, IsStorable, ranks_before}
use signal_count.Store.Jobs.{JobRecord, JobRow, JobLibrary, create_job, complete_job}
use signal_count.Store.Jobs.Credited.{Submitted, empty, create, complete}
use signal_count.Store.Jobs.Leaderboard.{get_reputation_leaderboard}
use signal_count.Store.Jobs.Roundtrip.{Restores}
use signal_count.Coordinator.Run.Metadata.{DumpLibrary}
use signal_count.Coordinator.Run.Credited.{
  Run, NamesNoUpdates, stored_metadata, board_of, get_reputation_leaderboard-dispatched,
}
use signal_count.Coordinator.Submission.{
  Dispatched, build_provenance_ledger, final_metadata, after_memo, after_dispatch, after_creation,
  create_completed_job_submission,
}

module _ (fl : Floats) (values : ValueLibrary fl.Float) (dump_int : ℤ → Json) {X Y Z : Type 0}
    (lib : JobLibrary) (coordinator : String → Outcome X (Dispatched fl.Float))
    (synthesizer : String → Dispatched fl.Float → Outcome Y Json)
    (recorder : Option
      (String → Dispatched fl.Float → Json → Outcome Z (JobChainReceipts fl.Float)))
    (metadata_of : String → Json) (updates : String → List (ReputationUpdate fl.Float)) where
  open fl use {Float}

  abbrev Table : List JobRow → Type 0
  Table = Submitted lib fl values metadata_of updates

  -- The metadata that a submission stores is that of the job's run.
  abbrev pub Stores : Type 0
  Stores =
      (i : String) (d : Dispatched Float) (memo : Json)
      → coordinator i ≡ ok d
      → synthesizer i d ≡ ok memo
      → obj (final_metadata values.number_of dump_int lib coordinator synthesizer recorder i d memo)
        ≡ metadata_of i

  after_memo-Table :
      (stores : Stores) (i : String) (d : Dispatched Float) {rows : List JobRow}
      (o : Outcome Y Json)
      → coordinator i ≡ ok d
      → synthesizer i d ≡ o
      → Table rows
      → Table
          (after_memo values.number_of dump_int lib coordinator synthesizer recorder i d rows o).0
  after_memo-Table stores i d (err e) dispatched answered table = table
  after_memo-Table stores i d {rows} (ok memo) dispatched answered table =
      let ledger =
        some (build_provenance_ledger values.number_of dump_int d.node_execution_records) in
      let topology = some (obj d.topology_snapshot) in
      subst (λ metadata. Table (complete_job lib i memo ledger topology (some metadata) rows))
        (sym (stores i d memo dispatched answered)) (complete i memo ledger topology table)

  after_dispatch-Table :
      (stores : Stores) (i : String) {rows : List JobRow} (o : Outcome X (Dispatched Float))
      → coordinator i ≡ o
      → Table rows
      → Table
          (after_dispatch values.number_of dump_int lib coordinator synthesizer recorder i rows o).0
  after_dispatch-Table stores i (err e) dispatched table = table
  after_dispatch-Table stores i (ok d) dispatched table =
      after_memo-Table stores i d (synthesizer i d) dispatched refl table

  -- A submission adds its steps to the history of the table, whether it raises or not.
  pub create_completed_job_submission-Submitted :
      (uuid now : String) (payload : Json) {rows : List JobRow}
      → Stores
      → Table rows
      → Table
          (create_completed_job_submission values.number_of dump_int lib coordinator synthesizer
            recorder uuid now payload rows).0
  unfolding create_completed_job_submission
  create_completed_job_submission-Submitted uuid now payload {rows} stores table =
      from (create_job lib uuid now payload rows) refl
    where
      from :
          (o : Outcome _ (JobRecord × List JobRow))
          → create_job lib uuid now payload rows ≡ o
          → Table
              (after_creation values.number_of dump_int lib coordinator synthesizer recorder rows
                o).0
      from (err e) made = table
      from (ok (job, after)) made =
          after_dispatch-Table stores job.job_id (coordinator job.job_id) refl
            (create uuid now payload job table made)

-- Submissions of jobs with a coordinator whose dispatches are `runs`.
module _ (fl : Floats) (round6 percent : fl.Float → fl.Float) (add : fl.Float → fl.Float → fl.Float)
    (values : ValueLibrary fl.Float) (dumps : DumpLibrary fl.Float) (dump_int : ℤ → Json)
    (graph : WorkflowGraph) (plan : ExecutionPlan) (transport verifier : Option Fields)
    {X Y Z : Type 0} (lib : JobLibrary) (coordinator : String → Outcome X (Dispatched fl.Float))
    (synthesizer : String → Dispatched fl.Float → Outcome Y Json)
    (recorder : Option
      (String → Dispatched fl.Float → Json → Outcome Z (JobChainReceipts fl.Float)))
    (runs : String → Run Z fl.Float) where
  abbrev pub stored : String → Json
  stored i =
      stored_metadata fl round6 percent add values dumps dump_int graph plan transport verifier
        (runs i)

  abbrev pub updates_of_run : String → List (ReputationUpdate fl.Float)
  updates_of_run i = build_reputation_updates fl round6 percent add (runs i).result.attestations

  -- The table after one submission after another: ids, times and payloads.
  unfoldable pub submit_all : List (String × String × Json) → List JobRow → List JobRow
  unfolding create_completed_job_submission
  submit_all [] rows = rows
  submit_all ((uuid, now, payload) ∷ more) rows =
      submit_all more
        (create_completed_job_submission values.number_of dump_int lib coordinator synthesizer
          recorder uuid now payload rows).0

  submit_all-HasRuns :
      (jobs : List (String × String × Json)) {rows : List JobRow}
      → Stores fl values dump_int lib coordinator synthesizer recorder stored updates_of_run
      → Submitted lib fl values stored updates_of_run rows
      → Submitted lib fl values stored updates_of_run (submit_all jobs rows)
  unfolding submit_all
  submit_all-HasRuns [] stores table = table
  submit_all-HasRuns ((uuid, now, payload) ∷ more) stores table = submit_all-HasRuns more stores (
      create_completed_job_submission-Submitted fl values dump_int lib coordinator synthesizer
        recorder stored updates_of_run uuid now payload stores table)

  -- After any submissions to an empty table, which may fail or take the same id, the leaderboard is there
  -- and is that of the attestations of the completed jobs' dispatches, in the order of the jobs' times,
  -- and sorted. The metadata that is stored is that of the dispatches and is read back as it was written,
  -- and so are its floats; no wallet is an empty text; no other metadata names the updates.
  pub get_reputation_leaderboard-submit_all :
      (jobs : List (String × String × Json))
      → Stores fl values dump_int lib coordinator synthesizer recorder stored updates_of_run
      → NamesNoUpdates transport
      → NamesNoUpdates verifier
      → ((i : String) → Restores lib (stored i))
      → ((i : String) → All (IsStorable values) (updates_of_run i))
      → let table = submit_all jobs [] in
        let board =
          board_of fl round6 percent add values dumps dump_int graph plan transport verifier lib
            runs table in
        (get_reputation_leaderboard lib fl values round6 percent add table ≡ ok board)
        × IsSorted (ranks_before fl round6 percent add) board
  get_reputation_leaderboard-submit_all jobs stores of_transport of_verifier restores storable =
      get_reputation_leaderboard-dispatched fl round6 percent add values dumps dump_int graph plan
        transport verifier lib runs of_transport of_verifier restores storable
        (submit_all-HasRuns jobs stores empty)
