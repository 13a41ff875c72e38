-- ===== src/Indexer/Projections/Leaderboard.antt =====
-- The leaderboard of agents (`agent_leaderboard` of app/indexer/projections.py).
pub mod Sums
use signal_count.Base.{
  ℕ, ◌+◌, String, Bool, true, false, Option, none, some, List, [], ◌∷◌, map, ◌==◌, pair_eq,
  if◌then◌else◌,
}
use signal_count.Base.Text.{text_lt}
use signal_count.Base.Dict.{Dict, lookup, insert}
use signal_count.Base.Sorting.{sorted}
use signal_count.Base.Floats.{Floats}
use signal_count.Indexer.Projections.{ReputationProjection, ChainEventsProjection}

pub record AgentReputationEntry (F : Type 0) : Type 0 where
  pub agent_wallet : String
  pub node_role : String
  pub reputation_points : F
  pub recorded_contributions : ℕ
  pub total_verifier_score : F
  pub native_test_payout_wei : ℕ

-- `add6 x y` is `round(x + y, 6)`.
module _ (fl : Floats) (add6 : fl.Float → fl.Float → fl.Float) where
  open fl use {Float, zero, lt}

  abbrev pub Aggregates : Type 0
  Aggregates = Dict (String × String) (AgentReputationEntry Float)

  abbrev pub agent_key : ReputationProjection Float → String × String
  agent_key r = (r.agent, r.role)

  -- `setdefault`
  abbrev pub aggregate_or_new :
      ReputationProjection Float → Option (AgentReputationEntry Float) → AgentReputationEntry Float
  aggregate_or_new r (some entry) = entry
  aggregate_or_new r none = record {
    agent_wallet = r.agent;
    node_role = r.role;
    reputation_points = zero;
    recorded_contributions = 0;
    total_verifier_score = zero;
    native_test_payout_wei = 0;
  }

  abbrev pub with_record :
      ReputationProjection Float → AgentReputationEntry Float → AgentReputationEntry Float
  with_record r entry = record entry {
    reputation_points = add6 entry.reputation_points r.points;
    recorded_contributions = entry.recorded_contributions + 1;
    total_verifier_score = add6 entry.total_verifier_score r.score;
    native_test_payout_wei = entry.native_test_payout_wei + r.native_test_payout_wei;
  }

  -- The loop over the reputations.
  unfoldable pub aggregate_records : List (ReputationProjection Float) → Aggregates → Aggregates
  aggregate_records [] aggregates = aggregates
  aggregate_records (r ∷ rs) aggregates = aggregate_records rs (
      insert (agent_key r) (with_record r (aggregate_or_new r (lookup (agent_key r) aggregates)))
        aggregates)

  -- The sort's key: most points first, then the role, then the wallet.
  abbrev pub ranks_before : AgentReputationEntry Float → AgentReputationEntry Float → Bool
  ranks_before a b =
      if lt b.reputation_points a.reputation_points
      then true
      else if lt a.reputation_points b.reputation_points
      then false
      else if text_lt a.node_role b.node_role
      then true
      else if text_lt b.node_role a.node_role
      then false
      else text_lt a.agent_wallet b.agent_wallet

  unfoldable pub agent_leaderboard : ChainEventsProjection Float → List (AgentReputationEntry Float)
  unfolding aggregate_records
  agent_leaderboard p =
      sorted ranks_before (map (λ row. row.1) (aggregate_records p.reputations []))
