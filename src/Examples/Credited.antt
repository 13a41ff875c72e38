-- ===== src/Examples/Credited.antt =====
-- A store with the job of one dispatch, to test app/store/jobs.py and app/coordinator/service.py with.
use signal_count.Base.{
  ℕ, String, ◌≡◌, refl, ap, sym, Option, none, some, List, [], ◌∷◌, ◌==◌, string_eq, if◌then◌else◌,
}
use signal_count.Base.Json.{Json, null, arr, obj, nil, end}
use signal_count.Base.Outcome.{Outcome, ok, ok_inj}
use signal_count.Schemas.{VerificationAttestation}
use signal_count.Orchestration.Graph.{default_graph}
use signal_count.Evaluation.Reputation.{ReputationLedgerEntry, build_reputation_updates}
use signal_count.Base.Sorting.{IsSorted}
use signal_count.Evaluation.Reputation.Leaderboard.{ranks_before}
use signal_count.Store.Jobs.{
  JobRow, JobLibrary, pending_job, row_of, create_job, insert_row, complete_job,
}
use signal_count.Store.Jobs.Leaderboard.{get_reputation_leaderboard}
use signal_count.Store.Jobs.Credited.{empty, create, complete}
use signal_count.Coordinator.Run.Metadata.{DumpLibrary, build_run_metadata}
use signal_count.Coordinator.Run.Credited.{
  Run, stored_metadata, HasRuns, board_of, get_reputation_leaderboard-dispatched,
}
use signal_count.Coordinator.Submission.{Dispatched, build_chain_receipt_metadata}
use signal_count.Coordinator.Submission.Ledger.{
  Stores, submit_all, get_reputation_leaderboard-submit_all,
}
use signal_count.Nodes.Verifier.{plain}
use signal_count.Examples.Floats.{sample_floats}
use signal_count.Examples.Run.{result, plan}
use signal_count.Examples.Store.{dumps_empty, values, same, plus}

abbrev credited : VerificationAttestation ℕ
credited = plain "j1" "risk" "b" "accepted" 60 [] (some "0xa") (some "0xa") (some "0x1")

abbrev dumps : DumpLibrary ℕ
dumps = record { dump_attestation = λ a. null; dump_response = λ r. null }

abbrev run : Run Json ℕ
run = record {
  run_mode = "live-axl";
  result = record result { attestations = credited ∷ [] };
  input_sources = [];
  receipts = none;
}

abbrev metadata : Json
metadata =
    stored_metadata sample_floats same same plus values dumps (λ n. null) default_graph plan none
      none run

abbrev loads : String → Option Json
loads s = if s == "[]" then some (arr nil) else if s == "{}" then some (obj end) else some metadata

abbrev library : JobLibrary
library = record { dumps = dumps_empty; loads = loads; datetime = λ s. some s }

abbrev table : List JobRow
table =
    complete_job library "j1" (obj end) none none (some metadata)
      (row_of library (pending_job library "j1" "2026-01-01" (obj end)) ∷ [])

has_runs :
    HasRuns sample_floats same same plus values dumps
      (λ n. null)
      default_graph
      plan
      none
      none
      library
      (λ i. run)
      table
unfolding create_job insert_row
has_runs = complete "j1" (obj end) none none (create "j1" "2026-01-01" (obj end) _ empty refl)

abbrev expected : List (ReputationLedgerEntry ℕ)
expected =
    board_of sample_floats same same plus values dumps (λ n. null) default_graph plan none none
      library (λ i. run) table

get_reputation_leaderboard-dispatched_example :
    (get_reputation_leaderboard library sample_floats values same same plus table ≡ ok expected)
    × IsSorted (ranks_before sample_floats same same plus) expected
unfolding build_reputation_updates build_run_metadata build_chain_receipt_metadata
get_reputation_leaderboard-dispatched_example =
    get_reputation_leaderboard-dispatched sample_floats same same plus values dumps (λ n. null)
      default_graph plan none none library (λ i. run) tt tt (λ i. refl)
      (λ i. ((refl, refl, refl), tt)) has_runs

abbrev dispatched : Dispatched ℕ
dispatched = record {
  node_execution_records = [];
  topology_snapshot = end;
  run_metadata =
      build_run_metadata sample_floats same same plus values dumps default_graph plan "live-axl"
        run.result [] none none;
}

abbrev coordinator : String → Outcome Json (Dispatched ℕ)
coordinator i = ok dispatched

abbrev synthesizer : String → Dispatched ℕ → Outcome Json Json
synthesizer i d = ok (obj end)

stores :
    Stores sample_floats values
      (λ n. null)
      {Z = Json}
      library
      coordinator
      synthesizer
      none
      (λ i. metadata)
      (λ i. build_reputation_updates sample_floats same same plus (credited ∷ []))
unfolding build_chain_receipt_metadata
stores i d memo made answered = ap (λ x. obj x.run_metadata) (sym (ok_inj made))

-- Of three submissions the second takes an id that is there.
abbrev submitted : List JobRow
submitted =
    submit_all sample_floats same same plus values dumps (λ n. null) default_graph plan none none
      library coordinator synthesizer none (λ i. run)
      (("j1", "2026-01-01", obj end)
        ∷ ("j1", "2026-01-02", obj end)
        ∷ ("j2", "2026-01-03", obj end)
        ∷ [])
      []

abbrev board_after : List (ReputationLedgerEntry ℕ)
board_after =
    board_of sample_floats same same plus values dumps (λ n. null) default_graph plan none none
      library (λ i. run) submitted

get_reputation_leaderboard-submit_all_example :
    (get_reputation_leaderboard library sample_floats values same same plus submitted
      ≡ ok board_after)
    × IsSorted (ranks_before sample_floats same same plus) board_after
unfolding build_reputation_updates build_run_metadata build_chain_receipt_metadata
get_reputation_leaderboard-submit_all_example =
    get_reputation_leaderboard-submit_all sample_floats same same plus values dumps (λ n. null)
      default_graph plan none none library coordinator synthesizer none (λ i. run)
      (("j1", "2026-01-01", obj end)
        ∷ ("j1", "2026-01-02", obj end)
        ∷ ("j2", "2026-01-03", obj end)
        ∷ [])
      stores tt tt (λ i. refl) (λ i. ((refl, refl, refl), tt))
