-- ===== src/Chain/Broadcaster/Sent.antt =====
-- The transactions that calls of app/chain/broadcaster.py send, and their nonces.
use signal_count.Base.{
  ℕ, ◌+◌, String, ◌≡◌, refl, sym, ap, ◌∙◌, subst, List, [], ◌∷◌, ◌++◌, length, ◌==◌, string_eq,
  if◌then◌else◌, arith, length-append,
}
use mathlib.Core.List.{append_assoc}
use signal_count.Base.Json.{Json, str}
use signal_count.Base.Outcome.{Outcome, ok, err}
use signal_count.Chain.Client.{Transaction}
use signal_count.Chain.Rpc.{Call, ChainError}

abbrev pub raw_params : List Json → List String
raw_params (str raw ∷ rest) = raw ∷ []
raw_params _ = []

-- The raw transaction of a call, if it sends one, and those of all calls in order.
abbrev pub raw_of : Call → List String
raw_of c = if c.method == "eth_sendRawTransaction" then raw_params c.params else []

abbrev pub sent : List Call → List String
sent [] = []
sent (c ∷ cs) = raw_of c ++ sent cs

pub sent-append : (xs ys : List Call) → sent (xs ++ ys) ≡ sent xs ++ sent ys
sent-append [] ys = refl
sent-append (c ∷ cs) ys =
    ap (◌++◌ (raw_of c)) (sent-append cs ys) ∙ sym (append_assoc (raw_of c) (sent cs) (sent ys))

-- Consecutive nonces from `n` on, and a property of each transaction.
abbrev pub Numbered : (Transaction → Type 0) → ℕ → List Transaction → Type 0
Numbered P n [] = Unit
Numbered P n (t ∷ ts) = (t.nonce ≡ n) × P t × Numbered P (n + 1) ts

pub Numbered-append :
    (P : Transaction → Type 0) (n : ℕ) (xs ys : List Transaction)
    → Numbered P n xs
    → Numbered P (n + length xs) ys
    → Numbered P n (xs ++ ys)
Numbered-append P n [] ys h k = subst (λ m. Numbered P m ys) (omega arith) k
Numbered-append P n (t ∷ ts) ys h k =
    (h.0, h.1, Numbered-append P (n + 1) ts ys h.2 (subst (λ m. Numbered P m ys) (omega arith) k))

-- What is said of a result and of the number of transactions sent, if there is a result.
abbrev pub Counted : {A : Type 0} → (A → ℕ → Type 0) → Outcome ChainError A → ℕ → Type 0
Counted Q (ok a) c = Q a c
Counted Q (err e) c = Unit

pub Counted-append :
    {A : Type 0} (R : A → ℕ → Type 0) (xs ys : List Transaction) (r : Outcome ChainError A)
    → Counted (λ b d. R b (length xs + d)) r (length ys)
    → Counted R r (length (xs ++ ys))
Counted-append R xs ys (ok b) h = subst (R b) (sym (length-append xs ys)) h
Counted-append R xs ys (err e) h = tt
