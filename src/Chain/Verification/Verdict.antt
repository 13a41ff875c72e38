-- ===== src/Chain/Verification/Verdict.antt =====
-- What the verdicts of app/chain/verification.py mean.
use signal_count.Base.{
  ℕ, String, ◌≡◌, ◌↔◌, ◌≢◌, refl, ap, false, ◌==◌, string_eq, inl, inr, Option, none, some, [], ◌∷◌,
  nat_beq, nat_beq_iff, Bool-cases, arith,
}
use signal_count.Base.Json.{Json, null, str, bool, nat, num, arr, obj, Fields, get_field}
use signal_count.Base.Outcome.{Outcome, ok, err}
use signal_count.Chain.Rpc.{ChainError, Node, Session, call}
use signal_count.Chain.Verification.{hex_value, by_status, verdict, verify_transaction}

-- The reply is a receipt with this status.
abbrev pub HasStatus : Outcome ChainError Json → ℕ → Type 0
HasStatus reply n =
    (receipt : Fields) × (reply ≡ ok (obj receipt))
    × (hex_value (get_field "status" receipt) ≡ some n)

-- Two texts that `==` tells apart.
apart : {A : Type 0} (s t : String) → (s == t) ≡ false → s ≡ t → A
apart s t differ same = absurd (let both = (string_eq.beq_iff s t).1 same in cc)

by_status-verified :
    (tx_hash : String) (receipt : Fields) (o : Option ℕ)
    → (by_status tx_hash receipt o).status ≡ "verified"
    → o ≡ some 1
by_status-verified tx_hash receipt none h = apart "present" "verified" refl h
by_status-verified tx_hash receipt (some n) h = elim (Bool-cases (nat_beq n 1)) [
  | inl one ↦ ap some ((nat_beq_iff n 1).0 one)
  | inr other ↦ apart "failed" "verified" refl (rw other at h)
]

by_status-failed :
    (tx_hash : String) (receipt : Fields) (o : Option ℕ)
    → (by_status tx_hash receipt o).status ≡ "failed"
    → (n : ℕ) × (o ≡ some n) × (n ≢ 1)
by_status-failed tx_hash receipt none h = apart "present" "failed" refl h
by_status-failed tx_hash receipt (some n) h = elim (Bool-cases (nat_beq n 1)) [
  | inl one ↦ apart "verified" "failed" refl (rw one at h)
  | inr other ↦ (n, refl, λ e. ground arith)
]

by_status-not_missing :
    (tx_hash : String) (receipt : Fields) (o : Option ℕ)
    → (by_status tx_hash receipt o).status ≡ "missing"
    → ⊥
by_status-not_missing tx_hash receipt none h = apart "present" "missing" refl h
by_status-not_missing tx_hash receipt (some n) h = elim (Bool-cases (nat_beq n 1)) [
  | inl one ↦ apart "verified" "missing" refl (rw one at h)
  | inr other ↦ apart "failed" "missing" refl (rw other at h)
]

not_one : (n : ℕ) → n ≢ 1 → nat_beq n 1 ≡ false
not_one n other = ground arith

reply-verified :
    (tx_hash : String) (reply : Outcome ChainError Json)
    → ((verdict tx_hash reply).status ≡ "verified") ↔ HasStatus reply 1
unfolding verdict
reply-verified tx_hash reply = (to reply, λ r. back reply r.0 r.1 r.2)
  where
    back :
        (reply : Outcome ChainError Json) (receipt : Fields)
        → reply ≡ ok (obj receipt)
        → hex_value (get_field "status" receipt) ≡ some 1
        → (verdict tx_hash reply).status ≡ "verified"
    back reply receipt same one = rw (same, one) refl

    to :
        (reply : Outcome ChainError Json)
        → (verdict tx_hash reply).status ≡ "verified"
        → HasStatus reply 1
    to (err e) h = apart "present" "verified" refl h
    to (ok (null)) h = apart "missing" "verified" refl h
    to (ok (obj receipt)) h = (
      receipt,
      refl,
      by_status-verified tx_hash receipt (hex_value (get_field "status" receipt)) h,
    )
    to (ok (bool b)) h = apart "present" "verified" refl h
    to (ok (nat n)) h = apart "present" "verified" refl h
    to (ok (num t)) h = apart "present" "verified" refl h
    to (ok (str s)) h = apart "present" "verified" refl h
    to (ok (arr items)) h = apart "present" "verified" refl h

reply-failed :
    (tx_hash : String) (reply : Outcome ChainError Json)
    → ((verdict tx_hash reply).status ≡ "failed") ↔ ((n : ℕ) × HasStatus reply n × (n ≢ 1))
unfolding verdict
reply-failed tx_hash reply = (to reply, λ r. back reply r.1.0 r.0 r.1.1 r.1.2 r.2)
  where
    back :
        (reply : Outcome ChainError Json) (receipt : Fields) (n : ℕ)
        → reply ≡ ok (obj receipt)
        → hex_value (get_field "status" receipt) ≡ some n
        → n ≢ 1
        → (verdict tx_hash reply).status ≡ "failed"
    back reply receipt n same has other = rw (same, has, not_one n other) refl

    to :
        (reply : Outcome ChainError Json)
        → (verdict tx_hash reply).status ≡ "failed"
        → (n : ℕ) × HasStatus reply n × (n ≢ 1)
    to (err e) h = apart "present" "failed" refl h
    to (ok (null)) h = apart "missing" "failed" refl h
    to (ok (obj receipt)) h =
        let (n, has, other) =
          by_status-failed tx_hash receipt (hex_value (get_field "status" receipt)) h in
        (n, (receipt, refl, has), other)
    to (ok (bool b)) h = apart "present" "failed" refl h
    to (ok (nat n)) h = apart "present" "failed" refl h
    to (ok (num t)) h = apart "present" "failed" refl h
    to (ok (str s)) h = apart "present" "failed" refl h
    to (ok (arr items)) h = apart "present" "failed" refl h

reply-missing :
    (tx_hash : String) (reply : Outcome ChainError Json)
    → ((verdict tx_hash reply).status ≡ "missing") ↔ (reply ≡ ok (null))
unfolding verdict
reply-missing tx_hash reply = (to reply, λ same. rw same refl)
  where
    to :
        (reply : Outcome ChainError Json)
        → (verdict tx_hash reply).status ≡ "missing"
        → reply ≡ ok (null)
    to (err e) h = apart "present" "missing" refl h
    to (ok (null)) h = refl
    to (ok (obj receipt)) h =
        absurd (by_status-not_missing tx_hash receipt (hex_value (get_field "status" receipt)) h)
    to (ok (bool b)) h = apart "present" "missing" refl h
    to (ok (nat n)) h = apart "present" "missing" refl h
    to (ok (num t)) h = apart "present" "missing" refl h
    to (ok (str s)) h = apart "present" "missing" refl h
    to (ok (arr items)) h = apart "present" "missing" refl h

-- A transaction is `verified` exactly if the node's reply is a receipt with status 1, `failed` exactly
-- if it is a receipt with another status that is a number, and `missing` exactly if the node has no
-- receipt of it.
pub verify_transaction-verdicts :
    (node : Node) (tx_hash : String) (s : Session)
    → let reply = (call node "eth_getTransactionReceipt" (str tx_hash ∷ []) s).0 in
      let status = (verify_transaction node tx_hash s).0.status in
      ((status ≡ "verified") ↔ HasStatus reply 1)
      × ((status ≡ "failed") ↔ ((n : ℕ) × HasStatus reply n × (n ≢ 1)))
      × ((status ≡ "missing") ↔ (reply ≡ ok (null)))
unfolding verify_transaction
verify_transaction-verdicts node tx_hash s =
    let reply = (call node "eth_getTransactionReceipt" (str tx_hash ∷ []) s).0 in
    (reply-verified tx_hash reply, reply-failed tx_hash reply, reply-missing tx_hash reply)
