-- ===== src/Evaluation/Payouts/Returned.antt =====
-- The simulations of app/evaluation/payouts/loop.py that raise nothing.
use signal_count.Base.{
  ℕ, ◌+◌, String, ◌≡◌, refl, ap, ◌∙◌, sym, subst, inl, inr, true, false, some, List, [], ◌∷◌, All,
  ◌==◌, string_eq, Bool-cases, Option-cases, ltb_of_le, arith,
}
use signal_count.Base.Dict.{Dict, lookup, insert, lookup-insert}
use signal_count.Base.Int.{pos, ltb_ℤ}
use signal_count.Base.Text.{is_empty}
use signal_count.Base.Outcome.{Outcome, ok, Ends}
use signal_count.Base.Floats.{Floats}
use signal_count.Evaluation.PayoutLedger.{
  PayoutError, SimulationLedger, is_wallet, is_nonneg, in_unit, make_entry, make_round,
  make_simulation,
}
use signal_count.Evaluation.Payouts.{
  simulation_of, Arithmetic, PeerScore, RoundInput, clamp_unit, equal, linear, update_reputation,
  payout_multiplier, payout_wei, value_or, entry_of, ledger_of, run_peers, run_round, run_rounds,
  add_payouts, simulate_rounds,
}
use signal_count.Evaluation.Payouts.Paid.{IsPaid, simulate_rounds-IsPaid}

module _ (fl : Floats) (ops : Arithmetic fl) where
  open fl use {Float, zero, lt}
  open ops use {
    add, sub, mul, div, round6, floor_times, one, initial_reputation, slash_threshold,
    threshold_multiplier, full_payout_reputation, bonus_reputation, max_multiplier,
  }

  abbrev Nonneg : Float → Type 0
  Nonneg x = is_nonneg fl one x ≡ true

  abbrev pub InUnit : Float → Type 0
  InUnit x = in_unit fl one x ≡ true

  -- What the policy relies on of Python's floats: 0 is not above 1, rounding keeps numbers that are not
  -- negative and those of the unit interval, the four operations keep numbers that are not negative, of
  -- a difference if it is not of a smaller number; and the order of the policy's constants.
  pub record IsMonotone : Type 0 where
    pub unit : lt one zero ≡ false
    pub round_nonneg : (x : Float) → Nonneg x → Nonneg (round6 x)
    pub round_unit : (x : Float) → InUnit x → InUnit (round6 x)
    pub add_nonneg : (x y : Float) → Nonneg x → Nonneg y → Nonneg (add x y)
    pub mul_nonneg : (x y : Float) → Nonneg x → Nonneg y → Nonneg (mul x y)
    pub div_nonneg : (x y : Float) → Nonneg x → Nonneg y → Nonneg (div x y)
    pub sub_nonneg : (x y : Float) → lt x y ≡ false → Nonneg (sub x y)
    pub threshold : Nonneg threshold_multiplier
    pub threshold_low : lt one threshold_multiplier ≡ false
    pub max_high : lt max_multiplier one ≡ false
    pub full_above : lt full_payout_reputation slash_threshold ≡ false
    pub bonus_above : lt bonus_reputation full_payout_reputation ≡ false
    pub initial : InUnit initial_reputation

  -- The scores of a round whose entries the schema takes.
  abbrev pub IsValidScore : PeerScore Float → Type 0
  IsValidScore s =
      (is_empty s.peer_id ≡ false)
      × (is_empty s.role ≡ false)
      × (is_wallet s.wallet ≡ true)
      × InUnit s.verifier_score

  abbrev pub IsValidInput : RoundInput Float → Type 0
  IsValidInput input =
      (ltb_ℤ input.round_index (pos 0) ≡ false)
      × (is_empty input.job_id ≡ false)
      × All IsValidScore input.peer_scores

  abbrev pub AreUnits : Dict String Float → Type 0
  AreUnits state = (k : String) (v : Float) → lookup k state ≡ some v → InUnit v

  module _ (laws : IsMonotone) (base : ℕ)
      (fits : (rep : Float)
        → (n : ℕ) × (floor_times base (payout_multiplier fl ops rep) ≡ some n)) where
    lt_asym : (x y : Float) → lt x y ≡ true → lt y x ≡ false
    lt_asym x y h = elim (Bool-cases (lt y x)) [
      | inl back ↦ let loop = fl.lt_trans x y x h back in let no = fl.lt_irrefl x in cc
      | inr apart ↦ apart
    ]

    InUnit-clamp_unit : (x : Float) → InUnit (clamp_unit fl ops x)
    InUnit-clamp_unit x = ground (arith, laws.unit, fl.lt_irrefl zero, fl.lt_irrefl one)

    InUnit-update_reputation :
        (current score : Float) → InUnit (update_reputation fl ops current score)
    unfolding update_reputation
    InUnit-update_reputation current score = laws.round_unit _ (InUnit-clamp_unit _)

    Nonneg-linear :
        (x x0 y0 x1 y1 : Float)
        → lt x x0 ≡ false
        → lt x1 x0 ≡ false
        → Nonneg y0
        → lt y1 y0 ≡ false
        → Nonneg (linear fl ops x x0 y0 x1 y1)
    Nonneg-linear x x0 y0 x1 y1 right wide low up = elim (Bool-cases (equal fl ops x1 x0)) [
      | inl same ↦ rw same low
      | inr apart ↦ rw apart (
          laws.add_nonneg y0 _ low (
            laws.div_nonneg _ (sub x1 x0)
              (laws.mul_nonneg (sub y1 y0) (sub x x0) (laws.sub_nonneg y1 y0 up)
                (laws.sub_nonneg x x0 right))
              (laws.sub_nonneg x1 x0 wide)))
    ]

    Nonneg-payout_multiplier : (reputation : Float) → Nonneg (payout_multiplier fl ops reputation)
    unfolding payout_multiplier
    Nonneg-payout_multiplier reputation =
        let rep = clamp_unit fl ops reputation in
        let one_nonneg : Nonneg one = rw (laws.unit) refl in
        elim (Bool-cases (lt rep slash_threshold)) [
          | inl slashed ↦ rw (slashed, fl.lt_irrefl zero) refl
          | inr kept ↦ elim (Bool-cases (lt full_payout_reputation rep)) [
            | inl high ↦
                rw (kept, high)
                  (Nonneg-linear rep full_payout_reputation one bonus_reputation max_multiplier
                    (lt_asym full_payout_reputation rep high) laws.bonus_above one_nonneg
                    laws.max_high)
            | inr low ↦
                rw (kept, low)
                  (Nonneg-linear rep slash_threshold threshold_multiplier full_payout_reputation one
                    kept laws.full_above laws.threshold laws.threshold_low)
          ]
        ]

    AreUnits-insert :
        (peer : String) (x : Float) (state : Dict String Float)
        → InUnit x
        → AreUnits state
        → AreUnits (insert peer x state)
    AreUnits-insert peer x state good units k v found =
        let at = lookup-insert peer k x state in
        elim (Bool-cases (peer == k)) [
          | inl here ↦ subst InUnit (ap (value_or x) (sym (rw here at at) ∙ found)) good
          | inr other ↦ units k v (sym (rw other at at) ∙ found)
        ]

    before-InUnit :
        (state : Dict String Float) (peer : String)
        → AreUnits state
        → InUnit (value_or initial_reputation (lookup peer state))
    before-InUnit state peer units = elim (Option-cases (lookup peer state)) [
      | inl new ↦ rw new laws.initial
      | inr (v, old) ↦ rw old (units peer v old)
    ]

    payout_wei-Ends : (reputation : Float) → Ends (payout_wei fl ops reputation (pos base))
    unfolding payout_wei
    payout_wei-Ends reputation =
        let (n, finite) = fits reputation in
        elim (Bool-cases (equal fl ops (payout_multiplier fl ops reputation) zero)) [
          | inl nothing ↦ (0, rw (ltb_of_le (base + 0) 0 (omega arith), nothing) refl)
          | inr paid ↦ (n, rw (ltb_of_le (base + 0) 0 (omega arith), paid, finite) refl)
        ]

    entry-Ends :
        (s : PeerScore Float) (before after : Float) (payout : ℕ)
        → IsValidScore s
        → InUnit before
        → InUnit after
        → make_entry fl one (entry_of fl ops s (pos base) before after payout)
          ≡ ok (entry_of fl ops s (pos base) before after payout)
    unfolding make_entry
    entry-Ends s before after payout (peer, role, wallet, score) old new =
        rw
          (
            peer,
            role,
            wallet,
            laws.round_unit before old,
            laws.round_unit s.verifier_score score,
            new,
            laws.round_nonneg _ (Nonneg-payout_multiplier after),
            ltb_of_le (base + 0) 0 (omega arith),
          )
          refl

    -- What a loop returns whose reputations are all in the unit interval at its end.
    abbrev Gives : {A : Type 0} → Outcome PayoutError (A × Dict String Float) → Type 0
    Gives {A} o = (r : A × Dict String Float) × (o ≡ ok r) × AreUnits r.1

    run_peers-Gives :
        (scores : List (PeerScore Float)) (state : Dict String Float)
        → All IsValidScore scores
        → AreUnits state
        → Gives (run_peers fl ops (pos base) scores state)
    unfolding run_peers
    run_peers-Gives [] state valid units = (([], state), refl, units)
    run_peers-Gives (s ∷ scores) state (one_valid, valid) units =
        let before = value_or initial_reputation (lookup s.peer_id state) in
        let after = update_reputation fl ops before s.verifier_score in
        let old = before-InUnit state s.peer_id units in
        let new = InUnit-update_reputation before s.verifier_score in
        let (payout, paid) = payout_wei-Ends after in
        let made = entry-Ends s before after payout one_valid old new in
        let ((entries, final), rest, last) =
          run_peers-Gives scores (insert s.peer_id after state) valid
            (AreUnits-insert s.peer_id after state new units) in
        (
          (entry_of fl ops s (pos base) before after payout ∷ entries, final),
          rw (paid, made, rest) refl,
          last,
        )

    run_round-Gives :
        (input : RoundInput Float) (state : Dict String Float)
        → IsValidInput input
        → AreUnits state
        → Gives (run_round fl ops (pos base) input state)
    unfolding run_round make_round
    run_round-Gives input state (index, job, scores) units =
        let ((entries, final), run, last) = run_peers-Gives input.peer_scores state scores units in
        ((ledger_of fl ops input entries, final), rw (run, index, job) refl, last)

    run_rounds-Ends :
        (rounds : List (RoundInput Float)) (state : Dict String Float) (cumulative : Dict String ℕ)
        → All IsValidInput rounds
        → AreUnits state
        → Ends (run_rounds fl ops (pos base) rounds state cumulative)
    unfolding run_rounds
    run_rounds-Ends [] state cumulative valid units = (([], state, cumulative), refl)
    run_rounds-Ends (input ∷ rounds) state cumulative (first, valid) units =
        let ((ledger, next), run, units') = run_round-Gives input state first units in
        let ((ledgers, final, paid), rest) =
          run_rounds-Ends rounds next (add_payouts fl ops ledger.peers cumulative) valid units' in
        ((ledger ∷ ledgers, final, paid), rw (run, rest) refl)

  -- A simulation with a base that is not negative ends and returns a ledger, in which each peer's
  -- cumulative payout is the sum of its payouts in the rounds, and all of them together are the sum of
  -- the totals of the rounds. This holds if the laws of the floats hold, the base times each
  -- reputation's multiplier has an integer part, each round has an index that is not negative, a job id
  -- and entries with a peer id, a role, a wallet and a score from 0 to 1, and the reputations the
  -- simulation starts with are from 0 to 1.
  pub simulate_rounds-pays :
      IsMonotone
      → (base : ℕ)
      → ((reputation : Float)
          → (n : ℕ) × (floor_times base (payout_multiplier fl ops reputation) ≡ some n))
      → (rounds : List (RoundInput Float)) → All IsValidInput rounds
      → (reputations : Dict String Float) → AreUnits reputations
      → (l : SimulationLedger Float) × (simulate_rounds fl ops rounds (pos base) reputations ≡ ok l)
        × IsPaid fl ops l
  unfolding simulate_rounds make_simulation
  simulate_rounds-pays laws base fits rounds valid reputations units =
      let (r, run) = run_rounds-Ends laws base fits rounds reputations [] valid units in
      let l = simulation_of fl ops (pos base) r in
      let returned : simulate_rounds fl ops rounds (pos base) reputations ≡ ok l =
        rw (run, ltb_of_le (base + 0) 0 (omega arith)) refl in
      (l, returned, simulate_rounds-IsPaid fl ops rounds (pos base) reputations l returned)
