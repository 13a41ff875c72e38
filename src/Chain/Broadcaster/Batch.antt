-- ===== src/Chain/Broadcaster/Batch.antt =====
-- Computations of app/chain/broadcaster.py by the transactions that they send.
use signal_count.Chain.Broadcaster.Sent.{
  Counted, Counted-append, Numbered, Numbered-append, raw_of, raw_params, sent, sent-append,
}
use signal_count.Base.{
  ℕ, zero, suc, ◌+◌, String, ◌≡◌, refl, sym, ap, ◌∙◌, subst, inl, inr, false, Option, some, List,
  [], ◌∷◌, ◌++◌, map, length, ltb, ◌==◌, string_eq, if◌then◌else◌, Bool-cases, arith,
}
use mathlib.Core.List.{map-append, append_assoc, append-nil}
use signal_count.Base.Json.{Json, Fields, null, bool, nat, num, str, arr, obj}
use signal_count.Base.Outcome.{Outcome, ok, err, ok_inj}
use signal_count.Chain.Client.{Transaction}
use signal_count.Chain.Rpc.{
  Session, M, ChainError, Node, ◌>>=◌, continue, lift, call, wait_until, wait_for_receipt, received,
  sleep,
}

module _ (decode : String → Option Transaction) (P : Transaction → Type 0) where
  -- What is sent from a session on: transactions with nonces from `n` on.
  abbrev pub SendsFrom :
      {A : Type 0} → Session → ℕ → (A → ℕ → Type 0) → Outcome ChainError A × Session → Type 0
  SendsFrom s n Q r =
      (txs : List Transaction) × (map decode (sent r.1.calls)
        ≡ map decode (sent s.calls) ++ map some txs)
      × Numbered P n txs
      × Counted Q r.0 (length txs)

  abbrev pub Sends : {A : Type 0} → ℕ → (A → ℕ → Type 0) → M A → Type 0
  Sends n Q m = (s : Session) → SendsFrom s n Q (m s)

  abbrev pub Nothing : {A : Type 0} → A → ℕ → Type 0
  Nothing a c = c ≡ 0

  weaken :
      {A : Type 0} (Q R : A → ℕ → Type 0)
      → ((a : A) (c : ℕ) → Q a c → R a c)
      → (o : Outcome ChainError A) (c : ℕ) → Counted Q o c
      → Counted R o c
  weaken Q R f (ok a) c h = f a c h
  weaken Q R f (err e) c h = tt

  pub weaken-Sends :
      {A : Type 0} (n : ℕ) (Q R : A → ℕ → Type 0) (m : M A)
      → ((a : A) (c : ℕ) → Q a c → R a c)
      → Sends n Q m
      → Sends n R m
  weaken-Sends n Q R m f h s =
      let (txs, same, numbered, counted) = h s in
      (txs, same, numbered, weaken Q R f (m s).0 (length txs) counted)

  pub none_sent : (s : Session) → map decode (sent s.calls) ≡ map decode (sent s.calls) ++ []
  none_sent s = sym (append-nil _)

  pub lift-Sends :
      {A : Type 0} (n : ℕ) (o : Outcome ChainError A)
      → Sends n (λ a c. (c ≡ 0) × (o ≡ ok a)) (lift o)
  lift-Sends n (ok a) s = ([], none_sent s, tt, (refl, refl))
  lift-Sends n (err e) s = ([], none_sent s, tt, tt)

  after :
      {A B : Type 0} (n : ℕ) (Q : A → ℕ → Type 0) (R : B → ℕ → Type 0) (next : A → M B)
      → ((a : A) (c : ℕ) → Q a c → Sends (n + c) (λ b d. R b (c + d)) (next a))
      → (before : Session) (o : Outcome ChainError A) (s : Session) (txs : List Transaction)
      → (map decode (sent s.calls) ≡ map decode (sent before.calls) ++ map some txs)
      → Numbered P n txs
      → Counted Q o (length txs)
      → (all : List Transaction) × (map decode (sent (continue next (o, s)).1.calls)
          ≡ map decode (sent before.calls) ++ map some all)
        × Numbered P n all
        × Counted R (continue next (o, s)).0 (length all)
  after n Q R next rule before (err e) s txs same numbered counted = (txs, same, numbered, tt)
  after n Q R next rule before (ok a) s txs same numbered counted =
      let (more, same', numbered', counted') = rule a (length txs) counted s in
      (
        txs ++ more,
        same'
            ∙ ap (λ x. x ++ map some more) same
            ∙ append_assoc (map decode (sent before.calls)) (map some txs) (map some more)
            ∙ ap (◌++◌ (map decode (sent before.calls))) (sym (map-append some txs more)),
        Numbered-append P n txs more numbered numbered',
        Counted-append R txs more (next a s).0 counted',
      )

  pub >>=-Sends :
      {A B : Type 0} (n : ℕ) (Q : A → ℕ → Type 0) (R : B → ℕ → Type 0) (m : M A) (next : A → M B)
      → Sends n Q m
      → ((a : A) (c : ℕ) → Q a c → Sends (n + c) (λ b d. R b (c + d)) (next a))
      → Sends n R (m >>= next)
  >>=-Sends n Q R m next first rule s =
      let (txs, same, numbered, counted) = first s in
      after n Q R next rule s (m s).0 (m s).1 txs same numbered counted

  at_zero :
      {B : Type 0} (n : ℕ) (R : B → ℕ → Type 0) (m : M B)
      → Sends n R m
      → Sends (n + 0) (λ b d. R b (0 + d)) m
  at_zero n R m h =
      weaken-Sends (n + 0) R (λ b d. R b (0 + d)) m (λ b d r. subst (R b) (omega arith) r)
        (subst (λ k. Sends k R m) (omega arith) h)

  -- The first part sends nothing, and its result has a property that the rest may use.
  pub quiet :
      {A B : Type 0} (n : ℕ) (Q : A → Type 0) (R : B → ℕ → Type 0) (m : M A) (next : A → M B)
      → Sends n (λ a c. (c ≡ 0) × Q a) m
      → ((a : A) → Q a → Sends n R (next a))
      → Sends n R (m >>= next)
  quiet {B} n Q R m next h k =
      >>=-Sends n (λ a c. (c ≡ 0) × Q a) R m next h
        (λ a c fact.
          subst (λ z. Sends (n + z) (λ (b : B) d. R b (z + d)) (next a)) (sym fact.0)
            (at_zero n R (next a) (k a fact.1)))

  abbrev pub Anything : {A : Type 0} → A → Type 0
  Anything a = Unit

  -- The same, where nothing is known of the result.
  pub silent :
      {A B : Type 0} (n : ℕ) (R : B → ℕ → Type 0) (m : M A) (next : A → M B)
      → Sends n Nothing m
      → ((a : A) → Sends n R (next a))
      → Sends n R (m >>= next)
  silent {A} n R m next h k =
      quiet n (Anything {A = A}) R m next
        (weaken-Sends n Nothing (λ a c. (c ≡ 0) × Unit {0}) m (λ a c empty. (empty, tt)) h)
        (λ a _. k a)

  pub lift-Nothing : {A : Type 0} (n : ℕ) (o : Outcome ChainError A) → Sends n Nothing (lift o)
  lift-Nothing n (ok a) s = ([], none_sent s, tt, refl)
  lift-Nothing n (err e) s = ([], none_sent s, tt, tt)

  -- A value or an exception.
  pub lifted :
      {A B : Type 0} (n : ℕ) (R : B → ℕ → Type 0) (o : Outcome ChainError A) (next : A → M B)
      → ((a : A) → o ≡ ok a → Sends n R (next a))
      → Sends n R (lift o >>= next)
  lifted n R o next k = quiet n (λ a. o ≡ ok a) R (lift o) next (lift-Sends n o) k

  -- The result of a first part that sends nothing is known.
  pub known :
      {A B : Type 0} (n : ℕ) (R : B → ℕ → Type 0) (m : M A) (next : A → M B) (s : Session) (a : A)
      → Sends n Nothing m
      → (m s).0 ≡ ok a
      → Sends n R (next a)
      → SendsFrom s n R ((m >>= next) s)
  known {A} n R m next s a h found k = from (m s).0 (m s).1 (h s) found
    where
      from :
          (o : Outcome ChainError A) (s' : Session)
          → SendsFrom s n Nothing (o, s')
          → o ≡ ok a
          → SendsFrom s n R (continue next (o, s'))
      from (err e) s' h' bad = cc
      from (ok b) s' (txs, same, numbered, empty) found' =
          after n (λ b' c. (c ≡ 0) × (b' ≡ a)) R next
            (λ b' c fact.
              subst (λ z. Sends (n + z) (λ r d. R r (z + d)) (next b')) (sym fact.0)
                (at_zero n R (next b') (subst (λ x. Sends n R (next x)) (sym fact.1) k)))
            s (ok b) s' txs same numbered (empty, ok_inj found')

  abbrev pub One : {A : Type 0} → A → ℕ → Type 0
  One a c = c ≡ 1

  -- One transaction, and then none.
  pub once :
      {A B : Type 0} (n : ℕ) (m : M A) (next : A → M B)
      → Sends n One m
      → ((k : ℕ) (a : A) → Sends k Nothing (next a))
      → Sends n One (m >>= next)
  once n m next h rest = >>=-Sends n One One m next h (λ a c one.
      weaken-Sends (n + c) Nothing (λ b d. One b (c + d)) (next a) (λ b d empty. omega arith)
        (rest (n + c) a))

  module _ (node : Node) where
    sent-call :
        (method : String) (params : List Json) (s : Session)
        → sent (call node method params s).1.calls
          ≡ sent s.calls ++ raw_of (record { method = method; params = params })
    unfolding call
    sent-call method params s =
        sent-append s.calls (record { method = method; params = params } ∷ [])
        ∙ ap (◌++◌ (sent s.calls)) (append-nil _)

    -- A call of another method sends nothing.
    pub call-Sends :
        (n : ℕ) (method : String) (params : List Json)
        → (method == "eth_sendRawTransaction") ≡ false
        → Sends n Nothing (call node method params)
    call-Sends n method params other s = (
      [],
      ap (map decode) (
            sent-call method params s
            ∙ ap (λ b. sent s.calls ++ (if b then raw_params params else [])) other
            ∙ append-nil _)
          ∙ none_sent s,
      tt,
      nothing (call node method params s).0,
    )
      where
        nothing : (r : Outcome ChainError Json) → Counted Nothing r 0
        nothing (ok j) = refl
        nothing (err e) = tt

    -- A raw transaction that decodes is sent, whatever comes back.
    pub call-sends_one :
        (n : ℕ) (raw : String) (t : Transaction)
        → decode raw ≡ some t
        → t.nonce ≡ n
        → P t
        → Sends n (λ j c. c ≡ 1) (call node "eth_sendRawTransaction" (str raw ∷ []))
    call-sends_one n raw t decodes at_n holds s = (
      t ∷ [],
      ap (map decode) (sent-call "eth_sendRawTransaction" (str raw ∷ []) s)
          ∙ map-append decode (sent s.calls) (raw ∷ [])
          ∙ ap (λ x. map decode (sent s.calls) ++ x ∷ []) decodes,
      (at_n, holds, tt),
      one (call node "eth_sendRawTransaction" (str raw ∷ []) s).0,
    )
      where
        one : (r : Outcome ChainError Json) → Counted (λ j c. c ≡ 1) r 1
        one (ok j) = refl
        one (err e) = tt

    received-Sends :
        (n : ℕ) (rest : M Fields)
        → Sends n Nothing rest
        → (j : Json) → Sends n Nothing (received node rest j)
    received-Sends n rest h (obj fields) s = ([], none_sent s, tt, refl)
    received-Sends n rest h (null) s = h (sleep node s)
    received-Sends n rest h (bool b) s = h (sleep node s)
    received-Sends n rest h (nat k) s = h (sleep node s)
    received-Sends n rest h (num t) s = h (sleep node s)
    received-Sends n rest h (str t) s = h (sleep node s)
    received-Sends n rest h (arr items) s = h (sleep node s)

    wait_until-Sends :
        (n fuel deadline : ℕ) (tx_hash : String)
        → Sends n Nothing (wait_until node fuel deadline tx_hash)
    unfolding wait_until
    wait_until-Sends n zero deadline tx_hash s = ([], none_sent s, tt, tt)
    wait_until-Sends n (suc fuel) deadline tx_hash s = elim (Bool-cases (ltb s.clock deadline)) [
      | inr late ↦ rw late ([], none_sent s, tt, tt)
      | inl early ↦ rw early (
          >>=-Sends n Nothing Nothing (call node "eth_getTransactionReceipt" (str tx_hash ∷ []))
            (received node (wait_until node fuel deadline tx_hash))
            (call-Sends n "eth_getTransactionReceipt" (str tx_hash ∷ []) refl)
            (λ j c empty.
              weaken-Sends (n + c) Nothing (λ b d. Nothing b (c + d))
                (received node (wait_until node fuel deadline tx_hash) j) (λ b d h. omega arith)
                (received-Sends (n + c) (wait_until node fuel deadline tx_hash)
                  (wait_until-Sends (n + c) fuel deadline tx_hash) j))
            s)
    ]

    pub wait_for_receipt-Sends :
        (n timeout : ℕ) (tx_hash : String) → Sends n Nothing (wait_for_receipt node timeout tx_hash)
    unfolding wait_for_receipt
    wait_for_receipt-Sends n timeout tx_hash s =
        wait_until-Sends n (suc timeout) (s.clock + timeout) tx_hash s
