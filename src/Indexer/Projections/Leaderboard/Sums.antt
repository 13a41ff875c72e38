-- ===== src/Indexer/Projections/Leaderboard/Sums.antt =====
-- The totals and the order of the leaderboard of app/indexer/projections.py.
use signal_count.Base.{
  ℕ, ◌+◌, String, Bool, ◌≡◌, refl, sym, ap, ◌∙◌, inl, inr, true, false, Option, none, some, List,
  [], ◌∷◌, map, length, Eq, pair_eq, Bool-cases, arith,
}
use signal_count.Base.Text.{text_lt-asym}
use signal_count.Base.Dict.{Dict, lookup, insert}
use signal_count.Base.Sorting.{
  sorted, sorted-Reordered, IsSorted, sorted-IsSorted, total, total-Reordered,
}
use signal_count.Base.Floats.{Floats}
use signal_count.Indexer.Projections.{ReputationProjection, ChainEventsProjection}
use signal_count.Indexer.Projections.Leaderboard.{
  AgentReputationEntry, Aggregates, agent_key, aggregate_or_new, with_record, aggregate_records,
  ranks_before, agent_leaderboard,
}

-- A measure of what a key holds.
abbrev held : {V : Type 0} → (V → ℕ) → Option V → ℕ
held f none = 0
held f (some v) = f v

total-insert :
    {K V : Type 0} ⦃e : Eq K⦄ (f : V → ℕ) (k : K) (v : V) (d : Dict K V)
    → total (λ (row : K × V). f row.1) (insert k v d) + held f (lookup k d)
      ≡ total (λ (row : K × V). f row.1) d + f v
total-insert f k v [] = omega arith
total-insert ⦃e⦄ f k v ((j, w) ∷ d) = elim (Bool-cases (e.beq j k)) [
  | inl found ↦ rw found (omega arith)
  | inr other ↦ rw other (omega (arith, total-insert f k v d))
]

total-values :
    {K V : Type 0} (f : V → ℕ) (d : Dict K V)
    → total f (map (λ (row : K × V). row.1) d) ≡ total (λ (row : K × V). f row.1) d
total-values f [] = refl
total-values f (row ∷ d) = ap (λ n. f row.1 + n) (total-values f d)

total_of_ones : {A : Type 0} (xs : List A) → total (λ (x : A). 1) xs ≡ length xs
total_of_ones [] = refl
total_of_ones (x ∷ xs) = omega (arith, total_of_ones xs)

module _ (fl : Floats) (add6 : fl.Float → fl.Float → fl.Float) where
  open fl use {Float, lt, lt_irrefl, lt_trans}

  -- A measure of entries that a record raises by its own amount.
  module _ (f : AgentReputationEntry Float → ℕ) (by : ReputationProjection Float → ℕ)
      (raises : (r : ReputationProjection Float) (o : Option (AgentReputationEntry Float))
        → f (with_record fl add6 r (aggregate_or_new fl add6 r o)) ≡ held f o + by r) where
    aggregate_records-total :
        (rs : List (ReputationProjection Float)) (d : Aggregates fl add6)
        → total
            (λ (row : (String × String) × AgentReputationEntry Float). f row.1)
            (aggregate_records fl add6 rs d)
          ≡ total by rs
            + total (λ (row : (String × String) × AgentReputationEntry Float). f row.1) d
    unfolding aggregate_records
    aggregate_records-total [] d = omega arith
    aggregate_records-total (r ∷ rs) d =
        let k = agent_key fl add6 r in
        let entry = with_record fl add6 r (aggregate_or_new fl add6 r (lookup k d)) in
        let next = total-insert f k entry d in
        let raised = raises r (lookup k d) in
        let rest = aggregate_records-total rs (insert k entry d) in omega arith

    leaderboard-total :
        (p : ChainEventsProjection Float)
        → total f (agent_leaderboard fl add6 p) ≡ total by p.reputations
    unfolding agent_leaderboard
    leaderboard-total p =
        sym (
          total-Reordered f (
            sorted-Reordered (ranks_before fl add6)
              (map (λ row. row.1) (aggregate_records fl add6 p.reputations []))))
        ∙ total-values f (aggregate_records fl add6 p.reputations [])
        ∙ aggregate_records-total p.reputations []
        ∙ omega arith

  raises-payout :
      (r : ReputationProjection Float) (o : Option (AgentReputationEntry Float))
      → (with_record fl add6 r (aggregate_or_new fl add6 r o)).native_test_payout_wei
        ≡ held (λ (e : AgentReputationEntry Float). e.native_test_payout_wei) o
          + r.native_test_payout_wei
  raises-payout r none = refl
  raises-payout r (some e) = refl

  raises-count :
      (r : ReputationProjection Float) (o : Option (AgentReputationEntry Float))
      → (with_record fl add6 r (aggregate_or_new fl add6 r o)).recorded_contributions
        ≡ held (λ (e : AgentReputationEntry Float). e.recorded_contributions) o + 1
  raises-count r none = refl
  raises-count r (some e) = refl

  lt_asym : (x y : Float) → lt x y ≡ true → lt y x ≡ false
  lt_asym x y h = elim (Bool-cases (lt y x)) [
    | inr no_more ↦ no_more
    | inl back ↦ cc (lt_trans x y x h back, lt_irrefl x)
  ]

  ranks_before-asym :
      (a b : AgentReputationEntry Float)
      → ranks_before fl add6 a b ≡ true
      → ranks_before fl add6 b a ≡ false
  ranks_before-asym a b h = ground (
    arith,
    lt_asym a.reputation_points b.reputation_points,
    lt_asym b.reputation_points a.reputation_points,
    text_lt-asym a.node_role b.node_role,
    text_lt-asym b.node_role a.node_role,
    text_lt-asym a.agent_wallet b.agent_wallet,
  )

  abbrev pub has_more_points : AgentReputationEntry Float → AgentReputationEntry Float → Bool
  has_more_points a b = lt b.reputation_points a.reputation_points

  -- Who has more points stands above.
  ranks_before-IsSorted :
      (es : List (AgentReputationEntry Float))
      → IsSorted (ranks_before fl add6) es
      → IsSorted has_more_points es
  ranks_before-IsSorted [] h = tt
  ranks_before-IsSorted (a ∷ []) h = tt
  ranks_before-IsSorted (a ∷ b ∷ es) (next, more) = (
    elim (Bool-cases (has_more_points b a)) [
      | inl above ↦ let bad = rw above at next in cc
      | inr level ↦ level
    ],
    ranks_before-IsSorted (b ∷ es) more,
  )

  -- The payouts on the leaderboard sum up to those of the recorded reputations, its counts of
  -- contributions to the number of records, no entry stands below one that has fewer points, and none
  -- below one that it outranks by points, then role, then wallet.
  pub agent_leaderboard-accounts :
      (p : ChainEventsProjection Float)
      → (total
            (λ (e : AgentReputationEntry Float). e.native_test_payout_wei)
            (agent_leaderboard fl add6 p)
          ≡ total (λ (r : ReputationProjection Float). r.native_test_payout_wei) p.reputations)
        × (total
              (λ (e : AgentReputationEntry Float). e.recorded_contributions)
              (agent_leaderboard fl add6 p)
            ≡ length p.reputations)
        × IsSorted has_more_points (agent_leaderboard fl add6 p)
        × IsSorted (ranks_before fl add6) (agent_leaderboard fl add6 p)
  unfolding agent_leaderboard
  agent_leaderboard-accounts p = (
    leaderboard-total (λ e. e.native_test_payout_wei) (λ r. r.native_test_payout_wei) raises-payout
        p,
    leaderboard-total (λ e. e.recorded_contributions) (λ r. 1) raises-count p
        ∙ total_of_ones p.reputations,
    ranks_before-IsSorted _ (by_rank p),
    by_rank p,
  )
    where
      by_rank :
          (q : ChainEventsProjection Float)
          → IsSorted (ranks_before fl add6) (
              sorted
                (ranks_before fl add6)
                (map (λ row. row.1) (aggregate_records fl add6 q.reputations [])))
      by_rank q =
          sorted-IsSorted (ranks_before fl add6) ranks_before-asym
            (map (λ row. row.1) (aggregate_records fl add6 q.reputations []))
