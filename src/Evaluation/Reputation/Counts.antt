-- ===== src/Evaluation/Reputation/Counts.antt =====
-- What the aggregates of app/evaluation/reputation.py count.
use signal_count.Base.{
  ℕ, ◌+◌, String, ◌≡◌, refl, sym, ap, ◌∙◌, subst, inl, inr, Bool, true, false, ◌&&◌, not, Option,
  none, some, List, [], ◌∷◌, ◌==◌, pair_eq, pair_beq_iff, string_eq, if◌then◌else◌, Bool-cases,
  arith,
}
use signal_count.Base.Dict.{lookup, insert, lookup-insert}
use signal_count.Base.Floats.{Floats}
use signal_count.Evaluation.Reputation.{
  ReputationUpdate, ReputationLedgerEntry, Ledger, key_of, entry_or_new, added, is_skipped,
  aggregate_one, aggregate,
}

exclusive : (s : String) → (s == "accepted") ≡ true → (s == "rejected") ≡ false
exclusive s h =
    subst (λ x. (x == "rejected") ≡ false) (sym ((string_eq.beq_iff s "accepted").0 h)) refl

one-tally :
    (a b c : Bool)
    → ◌≡◌ {A = ℕ} (if b && c then (if a then 1 else 0) else 0) (if a && b && c then 1 else 0)
one-tally a b c = ground arith

module _ (fl : Floats) (round6 percent : fl.Float → fl.Float)
    (add : fl.Float → fl.Float → fl.Float) where
  open fl use {Float, zero, lt}

  -- The updates of a key that have a status and, if accepted, are eligible for credit.
  abbrev pub tally : String → String × String → List (ReputationUpdate Float) → ℕ
  tally status key [] = 0
  tally status key (u ∷ us) =
      let counts =
        u.verifier_status == status
        && not (is_skipped fl round6 percent add u)
        && key_of fl round6 percent add u == key in
      (if counts then 1 else 0) + tally status key us

  abbrev accepted_of : Option (ReputationLedgerEntry Float) → ℕ
  accepted_of none = 0
  accepted_of (some e) = e.accepted_contributions

  abbrev rejected_of : Option (ReputationLedgerEntry Float) → ℕ
  rejected_of none = 0
  rejected_of (some e) = e.rejected_contributions

  abbrev pub accepted_at : String × String → Ledger fl round6 percent add → ℕ
  accepted_at key ledger = accepted_of (lookup key ledger)

  abbrev pub rejected_at : String × String → Ledger fl round6 percent add → ℕ
  rejected_at key ledger = rejected_of (lookup key ledger)

  -- What one update adds to the entry of its own key.
  abbrev accepted_by : ReputationUpdate Float → ℕ
  accepted_by u = if u.verifier_status == "accepted" then 1 else 0

  abbrev rejected_by : ReputationUpdate Float → ℕ
  rejected_by u = if u.verifier_status == "rejected" then 1 else 0

  added-accepted :
      (u : ReputationUpdate Float) (o : Option (ReputationLedgerEntry Float))
      → (added fl round6 percent add u
          (entry_or_new fl round6 percent add u o)).accepted_contributions
        ≡ accepted_by u + accepted_of o
  added-accepted u none = ground arith
  added-accepted u (some e) = ground arith

  added-rejected :
      (u : ReputationUpdate Float) (o : Option (ReputationLedgerEntry Float))
      → (added fl round6 percent add u
          (entry_or_new fl round6 percent add u o)).rejected_contributions
        ≡ rejected_by u + rejected_of o
  added-rejected u o = elim (Bool-cases (u.verifier_status == "accepted")) [
    | inl yes_accepted ↦ rw (yes_accepted, exclusive u.verifier_status yes_accepted) (kept o)
    | inr other ↦ rw other (counted o (u.verifier_status == "rejected"))
  ]
    where
      kept :
          (o : Option (ReputationLedgerEntry Float))
          → (entry_or_new fl round6 percent add u o).rejected_contributions ≡ 0 + rejected_of o
      kept none = ground arith
      kept (some e) = ground arith

      counted :
          (o : Option (ReputationLedgerEntry Float)) (b : Bool)
          → (if b
              then (entry_or_new fl round6 percent add u o).rejected_contributions + 1
              else (entry_or_new fl round6 percent add u o).rejected_contributions)
            ≡ (if b then 1 else 0) + rejected_of o
      counted none b = ground arith
      counted (some e) b = ground arith

  -- A measure of entries that one update raises by `by`.
  module _ (measure : Option (ReputationLedgerEntry Float) → ℕ) (by : ReputationUpdate Float → ℕ)
      (raises : (u : ReputationUpdate Float) (o : Option (ReputationLedgerEntry Float))
        → measure (some (added fl round6 percent add u (entry_or_new fl round6 percent add u o)))
          ≡ by u + measure o) where
    abbrev total : String × String → List (ReputationUpdate Float) → ℕ
    total key [] = 0
    total key (u ∷ us) =
        (if not (is_skipped fl round6 percent add u) && key_of fl round6 percent add u == key
          then by u
          else 0)
        + total key us

    aggregate_one-measure :
        (key : String × String) (u : ReputationUpdate Float) (ledger : Ledger fl round6 percent add)
        → measure (lookup key (aggregate_one fl round6 percent add u ledger))
          ≡ (if not (is_skipped fl round6 percent add u) && key_of fl round6 percent add u == key
              then by u
              else 0)
            + measure (lookup key ledger)
    aggregate_one-measure key u ledger =
        let k = key_of fl round6 percent add u in
        let entry =
          added fl round6 percent add u (entry_or_new fl round6 percent add u (lookup k ledger)) in
        let found : (b : Bool)
            → (k == key) ≡ b
            → lookup key (insert k entry ledger) ≡ (if b then some entry else lookup key ledger) =
          λ b e.
            lookup-insert k key entry ledger
            ∙ ap (λ x. if x then some entry else lookup key ledger) e in
        elim (Bool-cases (is_skipped fl round6 percent add u)) [
          | inl skipped ↦ rw skipped (ground arith)
          | inr counted ↦ elim (Bool-cases (k == key)) [
            | inr other ↦ rw (counted, other) (ap measure (found false other) ∙ ground arith)
            | inl same ↦
                let eq = (pair_beq_iff k key).0 same in
                rw (counted, same)
                  (ap measure (found true same)
                    ∙ raises u (lookup k ledger)
                    ∙ ap (λ j. by u + measure (lookup j ledger)) eq)
          ]
        ]

    aggregate-measure :
        (key : String × String) (us : List (ReputationUpdate Float))
        (ledger : Ledger fl round6 percent add)
        → measure (lookup key (aggregate fl round6 percent add us ledger))
          ≡ total key us + measure (lookup key ledger)
    unfolding aggregate
    aggregate-measure key [] ledger = ground arith
    aggregate-measure key (u ∷ us) ledger = omega (
      arith,
      aggregate-measure key us (aggregate_one fl round6 percent add u ledger),
      aggregate_one-measure key u ledger,
    )

  accepted-tally :
      (key : String × String) (us : List (ReputationUpdate Float))
      → total accepted_of accepted_by added-accepted key us ≡ tally "accepted" key us
  accepted-tally key [] = refl
  accepted-tally key (u ∷ us) =
      let this =
        one-tally (u.verifier_status == "accepted") (not (is_skipped fl round6 percent add u))
          (key_of fl round6 percent add u == key) in
      omega (arith, this, accepted-tally key us)

  rejected-tally :
      (key : String × String) (us : List (ReputationUpdate Float))
      → total rejected_of rejected_by added-rejected key us ≡ tally "rejected" key us
  rejected-tally key [] = refl
  rejected-tally key (u ∷ us) =
      let this =
        one-tally (u.verifier_status == "rejected") (not (is_skipped fl round6 percent add u))
          (key_of fl round6 percent add u == key) in
      omega (arith, this, rejected-tally key us)

  -- The entry of a role and peer has as many accepted and rejected contributions as the updates
  -- with these statuses that are its own and are not passed over.
  pub aggregate-counts :
      (key : String × String) (us : List (ReputationUpdate Float))
      → (accepted_at key (aggregate fl round6 percent add us []) ≡ tally "accepted" key us)
        × (rejected_at key (aggregate fl round6 percent add us []) ≡ tally "rejected" key us)
  aggregate-counts key us = (
    aggregate-measure accepted_of accepted_by added-accepted key us []
        ∙ omega (arith, accepted-tally key us),
    aggregate-measure rejected_of rejected_by added-rejected key us []
        ∙ omega (arith, rejected-tally key us),
  )
