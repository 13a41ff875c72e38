-- ===== src/Coordinator/Submission/Stored.antt =====
-- What a submission of app/api/jobs.py leaves in the store.
use signal_count.Base.{
  String, ◌≡◌, refl, ◌∙◌, sym, subst, ◌⊎◌, inl, inr, false, Option, some, List, [], ◌∷◌, ◌++◌, ◌==◌,
  string_eq,
}
use signal_count.Base.Int.{ℤ}
use signal_count.Base.Json.{Json, arr, obj, nil, end}
use signal_count.Base.Outcome.{Outcome, ok, err, Outcome-cases}
use signal_count.Chain.Receipts.{JobChainReceipts}
use signal_count.Store.Jobs.{
  JobRecord, JobRow, JobLibrary, has_job, insert_row, row_of, pending_job, create_job, get_job,
}
use signal_count.Store.Jobs.Roundtrip.{
  Restores, DocumentsRestore, completed, get_job-create_job, get_job-complete_job,
}
use signal_count.Coordinator.Submission.{
  Dispatched, SubmissionError, dispatching, synthesizing, build_provenance_ledger, final_metadata,
  completed_table, answer, create_completed_job_submission,
}

create_job-fresh :
    (lib : JobLibrary) (uuid now : String) (payload : Json) (rows : List JobRow)
    → has_job uuid rows ≡ false
    → create_job lib uuid now payload rows
      ≡ ok (
        pending_job lib uuid now payload,
        rows ++ row_of lib (pending_job lib uuid now payload) ∷ [],
      )
unfolding create_job insert_row
create_job-fresh lib uuid now payload rows fresh = rw fresh refl

module _ {F : Type 0} (dump_float : F → Json) (dump_int : ℤ → Json) {X Y Z : Type 0}
    (lib : JobLibrary) (coordinator : String → Outcome X (Dispatched F))
    (synthesizer : String → Dispatched F → Outcome Y Json)
    (recorder : Option (String → Dispatched F → Json → Outcome Z (JobChainReceipts F))) where
  module _ (uuid now : String) (payload : Json) (rows : List JobRow) where
    abbrev pub submission : List JobRow × Outcome (SubmissionError X Y) (String × String)
    submission =
        create_completed_job_submission dump_float dump_int lib coordinator synthesizer recorder
          uuid now payload rows

    -- The job as it is created and as it is completed.
    abbrev pub pending : JobRecord
    pending = pending_job lib uuid now payload

    abbrev pub finished : Dispatched F → Json → JobRecord
    finished d memo =
        completed memo (build_provenance_ledger dump_float dump_int d.node_execution_records)
          (some (obj d.topology_snapshot))
          (obj
            (final_metadata dump_float dump_int lib coordinator synthesizer recorder uuid d memo))
          pending

    abbrev pub FailsAs :
        List JobRow × Outcome (SubmissionError X Y) (String × String) → SubmissionError X Y → Type 0
    FailsAs (after, out) e = (out ≡ err e) × (get_job lib uuid after ≡ ok (some pending))

    -- A submission whose dispatch or synthesis raises keeps the job pending; any other completes it.
    abbrev pub IsSettled : List JobRow × Outcome (SubmissionError X Y) (String × String) → Type 0
    IsSettled (after, out) =
        ((e : X) × (coordinator uuid ≡ err e) × FailsAs (after, out) (dispatching e))
        ⊎ ((d : Dispatched F) × (coordinator uuid ≡ ok d)
            × ((e : Y) × (synthesizer uuid d ≡ err e) × FailsAs (after, out) (synthesizing e)))
        ⊎ ((d : Dispatched F) × (coordinator uuid ≡ ok d)
            × ((memo : Json) × (synthesizer uuid d ≡ ok memo)
                × (out ≡ ok (uuid, "completed"))
                × (get_job lib uuid after ≡ ok (some (finished d memo)))))

    -- The documents that the store is given are read back as they were written.
    abbrev pub IsReadable : Type 0
    IsReadable =
        Restores lib payload
        × Restores lib (arr nil)
        × Restores lib (obj end)
        × ((d : Dispatched F) (memo : Json)
            → coordinator uuid ≡ ok d
            → synthesizer uuid d ≡ ok memo
            → DocumentsRestore lib memo (finished d memo).provenance_ledger
                (some (obj d.topology_snapshot)) (finished d memo).run_metadata)

    abbrev created : List JobRow
    created = rows ++ row_of lib pending ∷ []

    abbrev Leaves : List JobRow × Outcome (SubmissionError X Y) (String × String) → Type 0
    Leaves ends =
        IsSettled ends
        × ((j : String) → (uuid == j) ≡ false → get_job lib j ends.0 ≡ get_job lib j rows)

    abbrev answered : List JobRow → Outcome (SubmissionError X Y) (String × String)
    answered done =
        answer dump_float dump_int lib coordinator synthesizer recorder (get_job lib uuid done)

    -- Of a fresh id a submission raises what the dispatch or the synthesis raises, and the job stays
    -- pending; or it answers that the job is completed, and the job is read back with the memo, the
    -- provenance, the topology and the metadata of its run. Every other job is as before. What is stored
    -- is to be read back as it was written.
    pub create_completed_job_submission-IsSettled :
        has_job uuid rows ≡ false
        → IsReadable
        → IsSettled submission
          × ((j : String) → (uuid == j) ≡ false → get_job lib j submission.0 ≡ get_job lib j rows)
    unfolding create_completed_job_submission
    create_completed_job_submission-IsSettled fresh (whole, empty_list, empty_dict, documents) =
        let made = create_job-fresh lib uuid now payload rows fresh in
        let (stored, others) =
          get_job-create_job lib uuid now payload rows created whole empty_list empty_dict made in
        elim (Outcome-cases (coordinator uuid)) [
          | inr (e, raised) ↦
              let ends : submission ≡ (created, err (dispatching e)) = rw (made, raised) refl in
              subst Leaves (sym ends) (inl (e, raised, (refl, stored)), others)
          | inl (d, dispatched) ↦ elim (Outcome-cases (synthesizer uuid d)) [
            | inr (e, raised) ↦
                let ends : submission ≡ (created, err (synthesizing e)) =
                  rw (made, dispatched, raised) refl in
                subst Leaves (sym ends)
                  (inr (inl (d, dispatched, (e, raised, (refl, stored)))), others)
            | inl (memo, synthesized) ↦
                let (read, kept) =
                  get_job-complete_job lib uuid memo (some (finished d memo).provenance_ledger)
                    (some (obj d.topology_snapshot)) (some (finished d memo).run_metadata) created
                    (documents d memo dispatched synthesized) stored in
                let done =
                  completed_table dump_float dump_int lib coordinator synthesizer recorder uuid d
                    memo created in
                let ends : submission ≡ (done, answered done) =
                  rw (made, dispatched, synthesized) refl in
                subst Leaves (sym ends) (
                  inr (inr (d, dispatched, (memo, synthesized, rw read refl, read))),
                  λ j other. kept j other ∙ others j other,
                )
          ]
        ]
