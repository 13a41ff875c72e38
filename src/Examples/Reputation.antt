-- ===== src/Examples/Reputation.antt =====
-- Updates of two peers to test app/evaluation/reputation.py with.
use signal_count.Base.{ℕ, ◌+◌, String, ◌≡◌, Bool, true, false, some, List, [], ◌∷◌}
use signal_count.Evaluation.Reputation.{ReputationUpdate, aggregate}
use signal_count.Evaluation.Reputation.Counts.{accepted_at, rejected_at, aggregate-counts}
use signal_count.Examples.Floats.{sample_floats}

abbrev same : ℕ → ℕ
same x = x

abbrev plus : ℕ → ℕ → ℕ
plus x y = x + y

abbrev update : String → String → Bool → ReputationUpdate ℕ
update peer status eligible = record {
  job_id = "j1";
  node_role = "risk";
  peer_id = peer;
  agent_wallet = some "0xa";
  verifier_status = status;
  verifier_score = 1;
  credit_eligible = eligible;
  reputation_points = 100;
  reason = "";
}

abbrev updates : List (ReputationUpdate ℕ)
updates =
    update "a" "accepted" true
    ∷ update "b" "accepted" true
    ∷ update "a" "rejected" false
    ∷ update "a" "accepted" false
    ∷ update "a" "accepted" true
    ∷ []

aggregate-counts_example :
    (accepted_at sample_floats same same plus
        ("risk", "a")
        (aggregate sample_floats same same plus updates [])
      ≡ 2)
    × (rejected_at sample_floats same same plus
          ("risk", "a")
          (aggregate sample_floats same same plus updates [])
        ≡ 1)
aggregate-counts_example = aggregate-counts sample_floats same same plus ("risk", "a") updates
