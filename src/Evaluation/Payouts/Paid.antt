-- ===== src/Evaluation/Payouts/Paid.antt =====
-- What a simulation of app/evaluation/payouts/loop.py pays.
use signal_count.Base.{
  ℕ, ◌+◌, String, ◌≡◌, refl, ap, ◌∙◌, subst, inl, inr, Bool, true, false, some, List, [], ◌∷◌, ◌==◌,
  string_eq, if◌then◌else◌, Bool-cases, arith,
}
use signal_count.Base.Dict.{Dict, lookup, insert, lookup-insert}
use signal_count.Base.Int.{ℤ}
use signal_count.Base.Outcome.{Ensures, ok-Ensures, >>=-Ensures}
use signal_count.Evaluation.PayoutLedger.{
  PeerRoundEntry, RoundLedger, SimulationLedger, make_round, make_round-same, make_simulation-same,
}
use signal_count.Base.Floats.{Floats}
use signal_count.Evaluation.Payouts.{
  ledger_of, simulation_of, Arithmetic, RoundInput, sum_payouts, value_or, run_peers, run_round,
  add_payouts, run_rounds, simulate_rounds,
}

-- The payouts of a peer in a list of entries, and in a list of rounds.
abbrev pub paid_in_round : {F : Type 0} → String → List (PeerRoundEntry F) → ℕ
paid_in_round peer [] = 0
paid_in_round peer (e ∷ es) =
    (if e.peer_id == peer then e.payout_wei else 0) + paid_in_round peer es

abbrev pub paid_in_rounds : {F : Type 0} → String → List (RoundLedger F) → ℕ
paid_in_rounds peer [] = 0
paid_in_rounds peer (l ∷ ls) = paid_in_round peer l.peers + paid_in_rounds peer ls

abbrev pub round_totals : {F : Type 0} → List (RoundLedger F) → ℕ
round_totals [] = 0
round_totals (l ∷ ls) = l.total_payout_wei + round_totals ls

abbrev pub sum_values : Dict String ℕ → ℕ
sum_values [] = 0
sum_values ((k, v) ∷ d) = v + sum_values d

abbrev pub paid_at : String → Dict String ℕ → ℕ
paid_at peer d = value_or 0 (lookup peer d)

sum_values-replace :
    (k : String) (w : ℕ) (d : Dict String ℕ)
    → sum_values (insert k w d) + paid_at k d ≡ sum_values d + w
sum_values-replace k w [] = omega arith
sum_values-replace k w ((j, v) ∷ d) = elim (Bool-cases (j == k)) [
  | inl same ↦ rw same (omega arith)
  | inr other ↦ rw other (let ih = sum_values-replace k w d in omega arith)
]

sum_values-insert :
    (k : String) (n : ℕ) (d : Dict String ℕ)
    → sum_values (insert k (paid_at k d + n) d) ≡ sum_values d + n
sum_values-insert k n d = let h = sum_values-replace k (paid_at k d + n) d in omega arith

paid_at-insert :
    (peer k : String) (n : ℕ) (d : Dict String ℕ)
    → paid_at peer (insert k (paid_at k d + n) d) ≡ paid_at peer d + (if k == peer then n else 0)
paid_at-insert peer k n d =
    ap (value_or 0) (lookup-insert k peer (paid_at k d + n) d) ∙ cases (k == peer) refl
  where
    cases :
        (b : Bool)
        → (k == peer) ≡ b
        → value_or 0 (if b then some (paid_at k d + n) else lookup peer d)
          ≡ paid_at peer d + (if b then n else 0)
    cases true same = ap (λ x. paid_at x d + n) ((string_eq.beq_iff k peer).0 same)
    cases false other = omega arith

module _ (fl : Floats) (ops : Arithmetic fl) where
  open fl use {Float}

  add_payouts-paid_at :
      (peer : String) (es : List (PeerRoundEntry Float)) (d : Dict String ℕ)
      → (paid_at peer (add_payouts fl ops es d) ≡ paid_at peer d + paid_in_round peer es)
        × (sum_values (add_payouts fl ops es d) ≡ sum_values d + sum_payouts es)
  add_payouts-paid_at peer [] d = (omega arith, omega arith)
  add_payouts-paid_at peer (e ∷ es) d =
      let d' = insert e.peer_id (paid_at e.peer_id d + e.payout_wei) d in
      let (a, b) = add_payouts-paid_at peer es d' in
      let c = paid_at-insert peer e.peer_id e.payout_wei d in
      let s = sum_values-insert e.peer_id e.payout_wei d in (omega arith, omega arith)

  -- What the rounds that are run have paid.
  abbrev Paid :
      Dict String ℕ → List (RoundLedger Float) × Dict String Float × Dict String ℕ → Type 0
  Paid cumulative r =
      ((peer : String) → paid_at peer r.2 ≡ paid_at peer cumulative + paid_in_rounds peer r.0)
      × (sum_values r.2 ≡ sum_values cumulative + round_totals r.0)

  -- A round's ledger adds up its own entries.
  run_round-sums :
      (base : ℤ) (input : RoundInput Float) (state : Dict String Float)
      → Ensures
          (λ r. r.0.total_payout_wei ≡ sum_payouts r.0.peers)
          (run_round fl ops base input state)
  unfolding run_round
  run_round-sums base input state =
      >>=-Ensures _ (run_peers fl ops base input.peer_scores state) _ (λ (entries, final) _.
        >>=-Ensures _ (make_round fl ops.one (ledger_of fl ops input entries)) _ (λ ledger made.
          ok-Ensures _ (ledger, final)
            (subst (λ l. l.total_payout_wei ≡ sum_payouts l.peers)
              (make_round-same fl ops.one (ledger_of fl ops input entries) ledger made) refl)))

  run_rounds-Paid :
      (base : ℤ) (rounds : List (RoundInput Float)) (state : Dict String Float)
      (cumulative : Dict String ℕ)
      → Ensures (Paid cumulative) (run_rounds fl ops base rounds state cumulative)
  unfolding run_rounds
  run_rounds-Paid base [] state cumulative =
      ok-Ensures (Paid cumulative) ([], state, cumulative) (λ peer. omega arith, omega arith)
  run_rounds-Paid base (input ∷ inputs) state cumulative =
      >>=-Ensures (Paid cumulative) (run_round fl ops base input state) _ (λ (ledger, next) run.
        >>=-Ensures (Paid cumulative)
          (run_rounds fl ops base inputs next (add_payouts fl ops ledger.peers cumulative)) _
          (λ (ledgers, final, paid) rest.
            let own = run_round-sums base input state (ledger, next) run in
            let more =
              run_rounds-Paid base inputs next (add_payouts fl ops ledger.peers cumulative)
                (ledgers, final, paid) rest in
            ok-Ensures (Paid cumulative) (ledger ∷ ledgers, final, paid)
              (
                λ peer.
                    let a = (add_payouts-paid_at peer ledger.peers cumulative).0 in
                    let b = more.0 peer in omega arith,
                let c = (add_payouts-paid_at "" ledger.peers cumulative).1 in
                    let d = more.1 in omega arith,
              )))

  -- What a simulation pays: each peer's cumulative payout is the sum of its payouts in the rounds, and
  -- all of them together are the sum of the totals of the rounds.
  abbrev pub IsPaid : SimulationLedger Float → Type 0
  IsPaid l =
      ((peer : String) → paid_at peer l.cumulative_payout_wei ≡ paid_in_rounds peer l.rounds)
      × (sum_values l.cumulative_payout_wei ≡ round_totals l.rounds)

  pub simulate_rounds-IsPaid :
      (rounds : List (RoundInput Float)) (base : ℤ) (reputations : Dict String Float)
      → Ensures IsPaid (simulate_rounds fl ops rounds base reputations)
  unfolding simulate_rounds
  simulate_rounds-IsPaid rounds base reputations =
      >>=-Ensures IsPaid (run_rounds fl ops base rounds reputations []) _ (λ r run ledger made.
        let (paid, total) = run_rounds-Paid base rounds reputations [] r run in
        subst IsPaid (make_simulation-same fl ops.one (simulation_of fl ops base r) ledger made)
          (λ peer. let a = paid peer in omega arith, omega arith))
