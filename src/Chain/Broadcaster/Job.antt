-- ===== src/Chain/Broadcaster/Job.antt =====
-- What `record_job_receipts` of app/chain/broadcaster.py sends.
use signal_count.Base.{
  ℕ, ◌+◌, ◌≤◌, String, ◌≡◌, refl, sym, subst, inl, inr, Option, some, List, [], ◌∷◌, ◌++◌, map,
  length, ◌==◌, string_eq, Bool-cases, arith, length-append,
}
use signal_count.Base.Json.{str, Fields}
use signal_count.Base.Int.{ℤ}
use signal_count.Base.Floats.{Floats}
use signal_count.Base.Outcome.{ok, or_raise}
use signal_count.Schemas.{ThesisRequest, SpecialistResponse}
use signal_count.Identity.Hashing.{Crypto}
use signal_count.Chain.Config.{ChainConfig, validate_testnet}
use signal_count.Chain.Client.{Signer, Transaction, CallOptions}
use signal_count.Chain.Receipts.{ChainReceipt, JobChainReceipts}
use signal_count.Chain.Rpc.{Node, Session, M, ◌>>=◌, pure, call, hex_to_int, invalid_key}
use signal_count.Chain.Broadcaster.{
  zero_address, get_nonce, get_gas_price, latest_task_id, next_task_id_params, record_contribution,
  record_contributions, record_update, record_reputation_updates, record_vault, record_task,
  record_job_receipts,
}
use signal_count.Chain.Updates.{accepted_reputation_updates}
use signal_count.Chain.Broadcaster.Amounts.{Conversions}
use signal_count.Chain.Broadcaster.Amounts.Bounds.{Validated, validate_testnet-Validated}
use signal_count.Chain.Broadcaster.Batch.{
  Sends, Nothing, weaken-Sends, >>=-Sends, silent, lifted, One, none_sent, known, lift-Nothing,
  SendsFrom, call-Sends,
}
use signal_count.Chain.Broadcaster.Sent.{sent, Numbered, Counted}
use signal_count.Chain.Broadcaster.Recorded.{
  IsCapped, record_task-Sends, record_contribution-Sends, record_update-Sends,
}

module _ (fl : Floats) (conv : Conversions fl) (crypto : Crypto fl.Float) (signer : Signer)
    (config : ChainConfig) (node : Node) (timeout : ℕ) where
  open fl use {Float}

  abbrev D : String → Option Transaction
  D raw = signer.decode raw

  abbrev S : {A : Type 0} → ℕ → (A → ℕ → Type 0) → M A → Type 0
  S n Q m = Sends D IsCapped n Q m

  module _ (valid : Validated config) where
    -- As many transactions as receipts, and as many receipts as items.
    abbrev Each : {X A : Type 0} → List X → List A → ℕ → Type 0
    Each xs receipts c = (c ≡ length receipts) × (length receipts ≡ length xs)

    next_receipt :
        {X : Type 0} (n : ℕ) (x : X) (xs : List X) (m : M (ChainReceipt Float))
        (rest : M (List (ChainReceipt Float)))
        → S n (One D IsCapped) m
        → S (n + 1) (Each xs) rest
        → S n (Each (x ∷ xs)) (m >>= λ r. rest >>= λ rs. pure (r ∷ rs))
    next_receipt n x xs m rest h k =
        >>=-Sends D IsCapped n (One D IsCapped) (Each (x ∷ xs)) m _ h λ r c one.
          >>=-Sends D IsCapped (n + c) (Each xs) (λ rs d. Each (x ∷ xs) rs (c + d)) rest _
            (subst (λ z. S (n + z) (Each xs) rest) (sym one) k)
            λ rs d each. λ s. ([], none_sent D IsCapped s, tt, (omega arith, omega arith))

    record_contributions-Sends :
        (job_id : String) (task_id : ℤ) (gas_price n : ℕ) (rs : List (SpecialistResponse Float))
        → S n (Each rs) (
            record_contributions fl conv crypto signer config node timeout job_id task_id gas_price
              n rs)
    unfolding record_contributions
    record_contributions-Sends job_id task_id gas_price n [] =
        λ s. ([], none_sent D IsCapped s, tt, (refl, refl))
    record_contributions-Sends job_id task_id gas_price n (r ∷ rs) =
        let options : CallOptions = record { nonce = n; gas_price_wei = gas_price } in
        next_receipt n r rs
          (record_contribution fl conv crypto signer config node timeout job_id task_id options r) _
          (record_contribution-Sends fl conv crypto signer config node timeout valid job_id task_id
            options r)
          (record_contributions-Sends job_id task_id gas_price (n + 1) rs)

    record_reputation_updates-Sends :
        (job_id : String) (task_id : ℤ) (gas_price n : ℕ) (us : List Fields)
        → S n (Each us) (
            record_reputation_updates fl conv crypto signer config node timeout job_id task_id
              gas_price n us)
    unfolding record_reputation_updates
    record_reputation_updates-Sends job_id task_id gas_price n [] =
        λ s. ([], none_sent D IsCapped s, tt, (refl, refl))
    record_reputation_updates-Sends job_id task_id gas_price n (u ∷ us) =
        let options : CallOptions = record { nonce = n; gas_price_wei = gas_price } in
        next_receipt n u us
          (record_update fl conv crypto signer config node timeout job_id task_id options u) _
          (record_update-Sends fl conv crypto signer config node timeout valid job_id task_id
            options u)
          (record_reputation_updates-Sends job_id task_id gas_price (n + 1) us)

    abbrev PerReceipt : {A : Type 0} → List A → ℕ → Type 0
    PerReceipt receipts c = c ≡ length receipts

    record_vault-Sends :
        (job_id : String) (task_id : ℤ) (gas_price n : ℕ) (run_metadata : Fields)
        → S n PerReceipt (
            record_vault fl conv crypto signer config node timeout job_id task_id gas_price n
              run_metadata)
    unfolding record_vault
    record_vault-Sends job_id task_id gas_price n run_metadata =
        elim (Bool-cases (config.reputation_vault_address == zero_address)) [
          | inl absent ↦ rw absent (λ s. ([], none_sent D IsCapped s, tt, refl))
          | inr present ↦ rw present (
              lifted D IsCapped n PerReceipt (accepted_reputation_updates fl conv run_metadata) _
                λ us _.
                  weaken-Sends D IsCapped n (Each us) PerReceipt
                    (record_reputation_updates fl conv crypto signer config node timeout job_id
                      task_id gas_price n us)
                    (λ rs c each. each.0)
                    (record_reputation_updates-Sends job_id task_id gas_price n us))
        ]

    get_nonce-Sends :
        (n : ℕ) → S n (Nothing D IsCapped) (get_nonce fl conv crypto signer config node timeout)
    unfolding get_nonce
    get_nonce-Sends n =
        lifted D IsCapped n _ (or_raise (crypto.address_of config.writer_private_key) invalid_key) _
          λ writer _.
            silent D IsCapped n _
              (call node "eth_getTransactionCount" (str writer ∷ str "pending" ∷ [])) _
              (call-Sends D IsCapped node n "eth_getTransactionCount"
                (str writer ∷ str "pending" ∷ []) refl)
              λ result. lift-Nothing D IsCapped n (hex_to_int result)

    get_gas_price-Sends :
        (n : ℕ) → S n (Nothing D IsCapped) (get_gas_price fl conv crypto signer config node timeout)
    unfolding get_gas_price
    get_gas_price-Sends n =
        silent D IsCapped n _ (call node "eth_gasPrice" []) _
          (call-Sends D IsCapped node n "eth_gasPrice" [] refl)
          λ result. lift-Nothing D IsCapped n (hex_to_int result)

    latest_task_id-Sends :
        (n : ℕ)
        → S n (Nothing D IsCapped) (latest_task_id fl conv crypto signer config node timeout)
    unfolding latest_task_id
    latest_task_id-Sends n =
        let params = next_task_id_params fl conv crypto signer config node timeout in
        silent D IsCapped n _ (call node "eth_call" params) _
          (call-Sends D IsCapped node n "eth_call" params refl)
          λ result.
            lifted D IsCapped n _ (hex_to_int result) _
              λ k _. λ s. ([], none_sent D IsCapped s, tt, refl)

    -- One transaction for each receipt, and at least those of the task and the responses.
    abbrev Complete : List (SpecialistResponse Float) → JobChainReceipts Float → ℕ → Type 0
    Complete responses r c = (c ≡ length r.receipts) × (1 + length responses ≤ c)

    record_job_receipts-Sends :
        (job_id : String) (request : ThesisRequest) (responses : List (SpecialistResponse Float))
        (run_metadata : Fields) (s : Session) (n : ℕ)
        → (get_nonce fl conv crypto signer config node timeout s).0 ≡ ok n
        → SendsFrom D IsCapped s n (Complete responses) (
            record_job_receipts fl conv crypto signer config node timeout job_id request responses
              run_metadata s)
    unfolding record_job_receipts
    record_job_receipts-Sends job_id request responses run_metadata s n found =
        let all = Complete responses in
        known D IsCapped n all (get_nonce fl conv crypto signer config node timeout) _ s n
          (get_nonce-Sends n) found
          (silent D IsCapped n all (get_gas_price fl conv crypto signer config node timeout) _
            (get_gas_price-Sends n)
            λ gas_price.
              let options : CallOptions = record { nonce = n; gas_price_wei = gas_price } in
              >>=-Sends D IsCapped n (One D IsCapped) all
                (record_task fl conv crypto signer config node timeout job_id request options) _
                (record_task-Sends fl conv crypto signer config node timeout valid job_id request
                  options)
                λ task c one.
                  silent D IsCapped (n + c) (λ r d. all r (c + d))
                    (latest_task_id fl conv crypto signer config node timeout) _
                    (latest_task_id-Sends (n + c))
                    λ task_id.
                      >>=-Sends D IsCapped (n + c) (Each responses) (λ r d. all r (c + d))
                        (record_contributions fl conv crypto signer config node timeout job_id
                          task_id gas_price (n + 1) responses)
                        _
                        (subst
                          (λ z. S (n + z) (Each responses) (
                            record_contributions fl conv crypto signer config node timeout job_id
                              task_id gas_price (n + 1) responses))
                          (sym one)
                          (record_contributions-Sends job_id task_id gas_price (n + 1) responses))
                        λ contributions d each.
                          >>=-Sends D IsCapped (n + c + d) PerReceipt (λ r e. all r (c + (d + e)))
                            (record_vault fl conv crypto signer config node timeout job_id task_id
                              gas_price (n + length responses + 1) run_metadata)
                            _
                            (subst
                              (λ z. S z PerReceipt (
                                record_vault fl conv crypto signer config node timeout job_id
                                  task_id gas_price (n + length responses + 1) run_metadata))
                              (omega arith)
                              (record_vault-Sends job_id task_id gas_price
                                (n + length responses + 1) run_metadata))
                            λ updates e paid. λ s'. (
                              [],
                              none_sent D IsCapped s',
                              tt,
                              (omega (arith, length-append contributions updates), omega arith),
                            ))

  -- With a configuration that validates, and `n` the writer's count of transactions as the node
  -- reports it, a recording of a job sends transactions that decode to the nonces n, n + 1 and so on
  -- in this order, each with a value from 0 to the hard cap, whatever the node answers and also if it
  -- raises; if it returns, it has sent one transaction for each receipt, and at least one for the
  -- task and one for each response.
  pub record_job_receipts-numbers :
      validate_testnet config ≡ ok tt
      → (job_id : String) (request : ThesisRequest) (responses : List (SpecialistResponse Float))
        (run_metadata : Fields) (s : Session) (n : ℕ)
      → (get_nonce fl conv crypto signer config node timeout s).0 ≡ ok n
      → (txs : List Transaction) × (map D (
            sent
              (record_job_receipts fl conv crypto signer config node timeout job_id request
                responses run_metadata s).1.calls)
          ≡ map D (sent s.calls) ++ map some txs)
        × Numbered IsCapped n txs
        × Counted
            (λ (r : JobChainReceipts Float) c. (c ≡ length r.receipts) × (1 + length responses ≤ c))
            (record_job_receipts fl conv crypto signer config node timeout job_id request responses
              run_metadata s).0
            (length txs)
  record_job_receipts-numbers validated job_id request responses run_metadata s n found =
      record_job_receipts-Sends (validate_testnet-Validated config validated) job_id request
        responses run_metadata s n found
