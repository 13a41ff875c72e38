-- ===== src/Chain/Rpc/Waiting.antt =====
-- How the loop that waits for a transaction's receipt (app/chain/broadcaster.py) ends.
use signal_count.Base.{
  ℕ, zero, suc, ◌+◌, ◌<◌, ◌≤◌, String, ◌≡◌, refl, ltb, ltb_of_le, if◌then◌else◌, arith, ap, [], ◌∷◌,
}
use signal_count.Base.Json.{Json, Fields, null, bool, nat, num, str, arr, obj}
use signal_count.Base.Outcome.{Outcome, ok, err}
use signal_count.Chain.Rpc.{
  Node, Session, M, ChainError, call, received, continue, wait_until, wait_for_receipt, sleep,
  timed_out,
}

module _ (node : Node) where
  call-clock :
      (method : String) (params : _) (s : Session) → s.clock ≤ (call node method params s).1.clock
  unfolding call
  call-clock method params s = omega arith

  -- What follows a call depends on the rest of the loop from a later second on.
  resume :
      (rest rest' : M Fields) (start : ℕ)
      → ((s : Session) → start + 1000 ≤ s.clock → rest s ≡ rest' s)
      → (o : Outcome ChainError Json) (s : Session) → start ≤ s.clock
      → continue (received node rest) (o, s) ≡ continue (received node rest') (o, s)
  resume rest rest' start agree (err e) s h = refl
  resume rest rest' start agree (ok (obj fields)) s h = refl
  resume rest rest' start agree (ok (null)) s h = agree (sleep node s) (omega arith)
  resume rest rest' start agree (ok (bool b)) s h = agree (sleep node s) (omega arith)
  resume rest rest' start agree (ok (nat n)) s h = agree (sleep node s) (omega arith)
  resume rest rest' start agree (ok (num t)) s h = agree (sleep node s) (omega arith)
  resume rest rest' start agree (ok (str t)) s h = agree (sleep node s) (omega arith)
  resume rest rest' start agree (ok (arr items)) s h = agree (sleep node s) (omega arith)

  -- Any two amounts of fuel that reach past the deadline give the same.
  wait_until-fuel :
      (m n deadline : ℕ) (tx_hash : String) (s : Session)
      → deadline < s.clock + m
      → deadline < s.clock + n
      → wait_until node m deadline tx_hash s ≡ wait_until node n deadline tx_hash s
  unfolding wait_until
  wait_until-fuel zero zero deadline tx_hash s p q = refl
  wait_until-fuel zero (suc n) deadline tx_hash s p q =
      rw (ltb_of_le s.clock deadline (omega arith)) refl
  wait_until-fuel (suc m) zero deadline tx_hash s p q =
      rw (ltb_of_le s.clock deadline (omega arith)) refl
  wait_until-fuel (suc m) (suc n) deadline tx_hash s p q =
      let (reply, s') = call node "eth_getTransactionReceipt" (str tx_hash ∷ []) s in
      ap (λ x. if ltb s.clock deadline then x else (err timed_out, s))
        (resume (wait_until node m deadline tx_hash) (wait_until node n deadline tx_hash) s.clock
          (λ later h. wait_until-fuel m n deadline tx_hash later (omega arith) (omega arith)) reply
          s' (call-clock "eth_getTransactionReceipt" (str tx_hash ∷ []) s))

  -- The wait for a receipt is the loop with any larger fuel: it ends as the source's loop does.
  pub wait_for_receipt-ends :
      (timeout extra : ℕ) (tx_hash : String) (s : Session)
      → wait_until node (suc timeout + extra) (s.clock + timeout) tx_hash s
        ≡ wait_for_receipt node timeout tx_hash s
  unfolding wait_for_receipt
  wait_for_receipt-ends timeout extra tx_hash s =
      wait_until-fuel (suc timeout + extra) (suc timeout) (s.clock + timeout) tx_hash s
        (omega arith) (omega arith)
