-- ===== src/Evaluation/Payouts.antt =====
-- The reputation policy and the simulation of payout rounds (app/evaluation/payouts/policy.py and
-- loop.py). What raises in the middle of a round ends the simulation.
pub mod Paid
pub mod Returned
use signal_count.Base.{
  ℕ, ◌+◌, String, Bool, true, false, not, ◌||◌, Option, none, some, List, [], ◌∷◌, map, string_eq,
  if◌then◌else◌,
}
use signal_count.Base.Dict.{Dict, lookup, insert}
use signal_count.Base.Int.{ℤ, pos, negsuc, ltb_ℤ}
use signal_count.Base.Outcome.{Outcome, ok, err, ◌>>=◌, or_raise}
use signal_count.Evaluation.PayoutLedger.{
  PayoutError, negative_base, overflow, PeerRoundEntry, RoundLedger, SimulationLedger, make_entry,
  make_round, make_simulation,
}
use signal_count.Base.Floats.{Floats}

-- Python's arithmetic of floats, without laws: `floor_times n x` is `int(n * x)` for an `x` that
-- is not negative, and none is its `OverflowError`. The literals are those of the policy.
pub record Arithmetic (fl : Floats) : Type 0 where
  pub add : fl.Float → fl.Float → fl.Float
  pub sub : fl.Float → fl.Float → fl.Float
  pub mul : fl.Float → fl.Float → fl.Float
  pub div : fl.Float → fl.Float → fl.Float
  pub round6 : fl.Float → fl.Float
  pub floor_times : ℕ → fl.Float → Option ℕ
  pub one : fl.Float
  pub reputation_alpha : fl.Float
  pub initial_reputation : fl.Float
  pub slash_threshold : fl.Float
  pub threshold_multiplier : fl.Float
  pub full_payout_reputation : fl.Float
  pub bonus_reputation : fl.Float
  pub max_multiplier : fl.Float

pub record PeerScore (F : Type 0) : Type 0 where
  pub peer_id : String
  pub role : String
  pub wallet : String
  pub verifier_score : F

pub record RoundInput (F : Type 0) : Type 0 where
  pub round_index : ℤ
  pub job_id : String
  pub peer_scores : List (PeerScore F)

-- `sum(e.payout_wei for e in entries)`
abbrev pub sum_payouts : {F : Type 0} → List (PeerRoundEntry F) → ℕ
sum_payouts [] = 0
sum_payouts (e ∷ es) = e.payout_wei + sum_payouts es

-- `d.get(key, default)`
abbrev pub value_or : {A : Type 0} → A → Option A → A
value_or a none = a
value_or a (some x) = x

module _ (fl : Floats) (ops : Arithmetic fl) where
  open fl use {Float, zero, lt}
  open ops use {
    add, sub, mul, div, round6, floor_times, one, reputation_alpha, initial_reputation,
    slash_threshold, threshold_multiplier, full_payout_reputation, bonus_reputation, max_multiplier,
  }

  -- `_clamp_unit`
  abbrev pub clamp_unit : Float → Float
  clamp_unit value = if lt value zero then zero else if lt one value then one else value

  unfoldable pub update_reputation : Float → Float → Float
  update_reputation current verifier_score =
      let updated =
        add (mul reputation_alpha (clamp_unit verifier_score))
          (mul (sub one reputation_alpha) (clamp_unit current)) in
      round6 (clamp_unit updated)

  -- `x == y` of floats that are not NaN.
  abbrev pub equal : Float → Float → Bool
  equal x y = not (lt x y || lt y x)

  -- `_linear`
  abbrev pub linear : (x x0 y0 x1 y1 : Float) → Float
  linear x x0 y0 x1 y1 =
      if equal x1 x0 then y0 else add y0 (div (mul (sub y1 y0) (sub x x0)) (sub x1 x0))

  unfoldable pub payout_multiplier : Float → Float
  payout_multiplier reputation =
      let rep = clamp_unit reputation in
      if lt rep slash_threshold
      then zero
      else if lt full_payout_reputation rep
      then linear rep full_payout_reputation one bonus_reputation max_multiplier
      else linear rep slash_threshold threshold_multiplier full_payout_reputation one

  -- `0` for a multiplier of 0, or else `int(base_wei * multiplier)`; a base below 0 is refused before.
  abbrev pub multiplied : ℤ → Float → Outcome PayoutError ℕ
  multiplied (pos base) multiplier =
      if equal multiplier zero then ok 0 else or_raise (floor_times base multiplier) overflow
  multiplied (negsuc n) multiplier = err negative_base

  unfoldable pub payout_wei : Float → ℤ → Outcome PayoutError ℕ
  unfolding payout_multiplier
  payout_wei reputation base_wei =
      if ltb_ℤ base_wei (pos 0)
      then err negative_base
      else multiplied base_wei (payout_multiplier reputation)

  abbrev pub entry_of : PeerScore Float → ℤ → Float → Float → ℕ → PeerRoundEntry Float
  entry_of score base_wei before after payout = record {
    peer_id = score.peer_id;
    role = score.role;
    wallet = score.wallet;
    reputation_before = round6 before;
    verifier_score = round6 score.verifier_score;
    reputation_after = after;
    multiplier = round6 (payout_multiplier after);
    base_wei = base_wei;
    payout_wei = payout;
    slashed = lt after slash_threshold;
  }

  -- The loop of `run_round`: a peer that stands twice is paid on its new reputation.
  unfoldable pub run_peers :
      ℤ
      → List (PeerScore Float)
      → Dict String Float
      → Outcome PayoutError (List (PeerRoundEntry Float) × Dict String Float)
  unfolding payout_wei update_reputation make_entry
  run_peers base_wei [] state = ok ([], state)
  run_peers base_wei (score ∷ scores) state = do
    let before = value_or initial_reputation (lookup score.peer_id state)
    let after = update_reputation before score.verifier_score
    payout ← payout_wei after base_wei
    entry ← make_entry fl one (entry_of score base_wei before after payout)
    (entries, final) ← run_peers base_wei scores (insert score.peer_id after state)
    ok (entry ∷ entries, final)

  abbrev pub ledger_of : RoundInput Float → List (PeerRoundEntry Float) → RoundLedger Float
  ledger_of input entries = record {
    round_index = input.round_index;
    job_id = input.job_id;
    peers = entries;
    total_payout_wei = sum_payouts entries;
  }

  unfoldable pub run_round :
      ℤ
      → RoundInput Float
      → Dict String Float
      → Outcome PayoutError (RoundLedger Float × Dict String Float)
  unfolding run_peers make_round
  run_round base_wei input state = do
    (entries, final) ← run_peers base_wei input.peer_scores state
    ledger ← make_round fl one (ledger_of input entries)
    ok (ledger, final)

  -- `for entry in ledger.peers`
  abbrev pub add_payouts : List (PeerRoundEntry Float) → Dict String ℕ → Dict String ℕ
  add_payouts [] cumulative = cumulative
  add_payouts (e ∷ es) cumulative =
      add_payouts es
        (insert e.peer_id (value_or 0 (lookup e.peer_id cumulative) + e.payout_wei) cumulative)

  -- The loop of `simulate_rounds`: the ledgers, the reputations and the cumulative payouts.
  unfoldable pub run_rounds :
      ℤ
      → List (RoundInput Float)
      → Dict String Float
      → Dict String ℕ
      → Outcome PayoutError (List (RoundLedger Float) × Dict String Float × Dict String ℕ)
  unfolding run_round
  run_rounds base_wei [] state cumulative = ok ([], state, cumulative)
  run_rounds base_wei (input ∷ inputs) state cumulative = do
    (ledger, next) ← run_round base_wei input state
    (ledgers, final, paid) ← run_rounds base_wei inputs next (add_payouts ledger.peers cumulative)
    ok (ledger ∷ ledgers, final, paid)

  abbrev pub simulation_of :
      ℤ → List (RoundLedger Float) × Dict String Float × Dict String ℕ → SimulationLedger Float
  simulation_of base_wei (ledgers, final, paid) = record {
    base_wei = base_wei;
    rounds = ledgers;
    final_reputation = map (λ kv. (kv.0, round6 kv.1)) final;
    cumulative_payout_wei = paid;
  }

  unfoldable pub simulate_rounds :
      List (RoundInput Float) → ℤ → Dict String Float → Outcome PayoutError (SimulationLedger Float)
  unfolding run_rounds make_simulation
  simulate_rounds rounds base_wei initial_reputation = do
    (ledgers, final, paid) ← run_rounds base_wei rounds initial_reputation []
    make_simulation fl one (simulation_of base_wei (ledgers, final, paid))
