-- ===== src/Examples/Payouts.antt =====
-- Two rounds in which a peer stands twice, to test app/evaluation/payouts/loop.py with.
use signal_count.Base.{
  ℕ, ◌+◌, ◌-◌, ◌*◌, String, ◌≡◌, refl, some, true, not, List, [], ◌∷◌, All, ltb, ltb_of_le, arith,
}
use signal_count.Base.Int.{pos}
use signal_count.Base.Outcome.{ok, err}
use signal_count.Evaluation.PayoutLedger.{SimulationLedger, invalid_entry, is_wallet}
use signal_count.Evaluation.Payouts.{
  Arithmetic, PeerScore, RoundInput, payout_multiplier, simulate_rounds,
}
use signal_count.Evaluation.Payouts.Paid.{IsPaid}
use signal_count.Evaluation.Payouts.Returned.{
  IsMonotone, IsValidInput, AreUnits, simulate_rounds-pays,
}
use signal_count.Examples.Floats.{sample_floats}

-- Whole numbers in place of floats: everything is 0 or 1, and the reputation is the last score.
abbrev whole : Arithmetic sample_floats
whole = record {
  add = λ x y. x + y;
  sub = λ x y. x - y;
  mul = λ x y. x * y;
  div = λ x y. x;
  round6 = λ x. x;
  floor_times = λ n x. some (n * x);
  one = 1;
  reputation_alpha = 1;
  initial_reputation = 1;
  slash_threshold = 1;
  threshold_multiplier = 1;
  full_payout_reputation = 1;
  bonus_reputation = 1;
  max_multiplier = 1;
}

abbrev scored : String → ℕ → PeerScore ℕ
scored peer score = record {
  peer_id = peer;
  role = "risk";
  wallet = "0x00000000000000000000000000000000000000aA";
  verifier_score = score;
}

abbrev rounds : List (RoundInput ℕ)
rounds =
    record {
      round_index = pos 0;
      job_id = "j";
      peer_scores = scored "a" 1 ∷ scored "b" 0 ∷ scored "a" 1 ∷ [];
    }
    ∷ record { round_index = pos 1; job_id = "k"; peer_scores = scored "b" 1 ∷ [] }
    ∷ []

not_below : (x : ℕ) → not (ltb x 0) ≡ true
not_below x = rw (ltb_of_le x 0 (omega arith)) refl

laws : IsMonotone sample_floats whole
laws = record {
  unit = refl;
  round_nonneg = λ x h. h;
  round_unit = λ x h. h;
  add_nonneg = λ x y h k. not_below (x + y);
  mul_nonneg = λ x y h k. not_below (x * y);
  div_nonneg = λ x y h k. h;
  sub_nonneg = λ x y h. not_below (x - y);
  threshold = refl;
  threshold_low = refl;
  max_high = refl;
  full_above = refl;
  bonus_above = refl;
  initial = refl;
}

are_valid : All (IsValidInput sample_floats whole) rounds
unfolding is_wallet
are_valid = (
  (
    refl,
    refl,
    ((refl, refl, refl, refl), ((refl, refl, refl, refl), ((refl, refl, refl, refl), tt))),
  ),
  ((refl, refl, ((refl, refl, refl, refl), tt)), tt),
)

are_units : AreUnits sample_floats whole []
are_units k v found = cc

-- The wallet of a peer has 40 hexadecimal digits, or the round is refused.
short_wallet :
    simulate_rounds sample_floats whole
      (record {
        round_index = pos 0;
        job_id = "j";
        peer_scores =
            record { peer_id = "a"; role = "risk"; wallet = "0xa"; verifier_score = 1 } ∷ [];
      }
        ∷ [])
      (pos 50)
      []
    ≡ err invalid_entry
unfolding simulate_rounds is_wallet
short_wallet = refl

simulate_rounds-pays_example :
    (l : SimulationLedger ℕ) × (simulate_rounds sample_floats whole rounds (pos 50) [] ≡ ok l)
    × IsPaid sample_floats whole l
simulate_rounds-pays_example =
    simulate_rounds-pays sample_floats whole laws 50
      (λ reputation. (50 * payout_multiplier sample_floats whole reputation, refl)) rounds are_valid
      [] are_units
