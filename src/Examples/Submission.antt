-- ===== src/Examples/Submission.antt =====
-- A submission to an empty store, to test app/api/jobs.py with.
use signal_count.Base.{
  String, ◌≡◌, refl, false, Option, none, some, [], ◌==◌, string_eq, if◌then◌else◌, ℕ,
}
use signal_count.Base.Json.{Json, str, nat, arr, obj, nil, end, field}
use signal_count.Base.Outcome.{Outcome, ok}
use signal_count.Store.Jobs.{JobLibrary, get_job}
use signal_count.Coordinator.Submission.{
  Dispatched, build_provenance_ledger, build_chain_receipt_metadata,
}
use signal_count.Coordinator.Submission.Stored.{
  submission, IsSettled, create_completed_job_submission-IsSettled,
}
use signal_count.Examples.Store.{dumps_empty}

abbrev dispatched : Dispatched ℕ
dispatched = record {
  node_execution_records = [];
  topology_snapshot = end;
  run_metadata = field "run_mode" (str "live-axl") end;
}

abbrev loads : String → Option Json
loads s =
    if s == "[]"
    then some (arr nil)
    else if s == "{}"
    then some (obj end)
    else some (obj (field "run_mode" (str "live-axl") end))

abbrev library : JobLibrary
library = record { dumps = dumps_empty; loads = loads; datetime = λ s. some s }

abbrev coordinator : String → Outcome Json (Dispatched ℕ)
coordinator i = ok dispatched

abbrev synthesizer : String → Dispatched ℕ → Outcome Json Json
synthesizer i d = ok (obj end)

create_completed_job_submission-IsSettled_example :
    IsSettled
      (λ n. nat n)
      (λ n. nat 0)
      {Z = Json}
      library
      coordinator
      synthesizer
      none
      "j1"
      "2026-01-01"
      (obj end)
      []
      (submission
        (λ n. nat n)
        (λ n. nat 0)
        {Z = Json}
        library
        coordinator
        synthesizer
        none
        "j1"
        "2026-01-01"
        (obj end)
        [])
    × ((j : String)
        → ("j1" == j) ≡ false
        → get_job library j
            (submission
              (λ n. nat n)
              (λ n. nat 0)
              {Z = Json}
              library
              coordinator
              synthesizer
              none
              "j1"
              "2026-01-01"
              (obj end)
              []).0
          ≡ get_job library j [])
unfolding build_provenance_ledger build_chain_receipt_metadata
create_completed_job_submission-IsSettled_example =
    create_completed_job_submission-IsSettled (λ n. nat n) (λ n. nat 0) library coordinator
      synthesizer none "j1" "2026-01-01" (obj end) [] refl
      (refl, refl, refl, λ d memo made answered. (cc, cc, cc, cc))
