-- ===== src/Chain/Broadcaster/Recorded.antt =====
-- What one step of the recorder in app/chain/broadcaster.py sends.
use signal_count.Base.{
  ℕ, String, ◌≡◌, refl, sym, subst, inl, inr, Option, some, [], ◌∷◌, string_eq, if◌then◌else◌,
  Bool-cases, arith,
}
use signal_count.Base.Json.{str, Fields}
use signal_count.Base.Int.{ℤ, pos}
use signal_count.Base.Text.{fstring}
use signal_count.Base.Floats.{Floats}
use signal_count.Base.Outcome.{Outcome, ok, err, or_raise, or_raise-ok}
use signal_count.Schemas.{ThesisRequest, SpecialistResponse}
use signal_count.Identity.Hashing.{Crypto, task_hash, output_hash}
use signal_count.Chain.Config.{ChainConfig}
use signal_count.Chain.Client.{
  Signer, SignedContractTransaction, Transaction, CallOptions, ClientError,
  sign_record_reputation_transaction, sign_record_reputation_payout_transaction,
}
use signal_count.Chain.Client.Built.{
  Signed, sign_create_task_transaction-Signed, sign_record_contribution_transaction-Signed,
  sign_record_reputation_transaction-Signed, sign_record_reputation_payout_transaction-Signed,
}
use signal_count.Chain.Rpc.{
  Node, M, ◌>>=◌, from_client, client_outcome, call, wait_for_receipt, expect_hex_string,
  hex_to_int, invalid_key, invalid_number,
}
use signal_count.Chain.Broadcaster.{
  task_spec_of, or_text, zero_bytes32, BroadcastReceipt, require_status, status_of,
  broadcast_and_wait, record_contribution, sign_update, record_update, record_task,
}
use signal_count.Chain.Updates.{scaled_int, text_at, float_of}
use signal_count.Chain.Broadcaster.Amounts.{
  Conversions, is_nonzero, update_payout_wei, native_test_payout_wei,
}
use signal_count.Chain.Broadcaster.Amounts.Bounds.{
  WithinCap, Validated, update_payout_wei-WithinCap,
}
use signal_count.Chain.Broadcaster.Batch.{
  Sends, Nothing, silent, lifted, once, One, none_sent, call-sends_one, wait_for_receipt-Sends,
}

-- A transaction that moves no more than the cap.
abbrev pub IsCapped : Transaction → Type 0
IsCapped t = WithinCap t.value

from_client_ok :
    {A : Type 0} (o : Outcome ClientError A) {a : A} → client_outcome o ≡ ok a → o ≡ ok a
from_client_ok (ok b) h = cc
from_client_ok (err e) h = cc

zero-WithinCap : WithinCap (pos 0)
zero-WithinCap = omega arith

module _ (fl : Floats) (conv : Conversions fl) (crypto : Crypto fl.Float) (signer : Signer)
    (config : ChainConfig) (node : Node) (timeout : ℕ) (valid : Validated config) where
  open fl use {Float}

  abbrev pub D : String → Option Transaction
  D raw = signer.decode raw

  abbrev pub S : {A : Type 0} → ℕ → (A → ℕ → Type 0) → M A → Type 0
  S n Q m = Sends D IsCapped n Q m

  -- A signed transaction is sent once.
  pub broadcast_and_wait-Sends :
      (n : ℕ) (raw : String) (t : Transaction)
      → signer.decode raw ≡ some t
      → t.nonce ≡ n
      → IsCapped t
      → S n (One D IsCapped) (broadcast_and_wait fl conv crypto signer config node timeout raw)
  unfolding broadcast_and_wait
  broadcast_and_wait-Sends n raw t decodes at_n capped =
      once D IsCapped n (call node "eth_sendRawTransaction" (str raw ∷ [])) _
        (call-sends_one D IsCapped node n raw t decodes at_n capped)
        λ k result. lifted D IsCapped k _ (expect_hex_string result) _ λ tx_hash _.
          silent D IsCapped k _ (wait_for_receipt node timeout tx_hash) _
            (wait_for_receipt-Sends D IsCapped node k timeout tx_hash)
            λ receipt.
              lifted D IsCapped k _
                (require_status fl conv crypto signer config node timeout receipt
                  (hex_to_int (status_of fl conv crypto signer config node timeout receipt)))
                _ λ passed _. λ s. ([], none_sent D IsCapped s, tt, refl)

  -- A step that signs a transaction with the options' nonce, sends it, and makes a receipt of it.
  sends_built :
      {B : Type 0} (options : CallOptions) (o : Outcome ClientError SignedContractTransaction)
      (next : BroadcastReceipt → M B)
      → ((tx : SignedContractTransaction)
          → o ≡ ok tx
          → (value : ℤ) × WithinCap value × Signed crypto signer config options value tx)
      → ((k : ℕ) (r : BroadcastReceipt) → S k (Nothing D IsCapped) (next r))
      → S options.nonce (One D IsCapped) (
          from_client o >>= λ tx.
          broadcast_and_wait fl conv crypto signer config node timeout tx.raw_transaction >>= next)
  sends_built options o next signs rest =
      lifted D IsCapped options.nonce (One D IsCapped) (client_outcome o) _ λ tx made.
        let (value, capped, (t, decodes, (at_n, same))) = signs tx (from_client_ok o made) in
        once D IsCapped options.nonce
          (broadcast_and_wait fl conv crypto signer config node timeout tx.raw_transaction) next
          (broadcast_and_wait-Sends options.nonce tx.raw_transaction t decodes at_n
            (subst WithinCap (sym same) capped))
          rest

  pub record_task-Sends :
      (job_id : String) (request : ThesisRequest) (options : CallOptions)
      → S options.nonce
          (One D IsCapped)
          (record_task fl conv crypto signer config node timeout job_id request options)
  unfolding record_task
  record_task-Sends job_id request options =
      sends_built options _ _
        (λ tx made. (
          pos 0,
          zero-WithinCap,
          sign_create_task_transaction-Signed crypto signer config
              (task_hash crypto (task_spec_of job_id request))
              (fstring ("signal-count://jobs/" ∷ job_id ∷ "/task" ∷ [])) options tx made,
        ))
        (λ k r s. ([], none_sent D IsCapped s, tt, refl))

  pub record_contribution-Sends :
      (job_id : String) (task_id : ℤ) (options : CallOptions) (response : SpecialistResponse Float)
      → S options.nonce (One D IsCapped) (
          record_contribution fl conv crypto signer config node timeout job_id task_id options
            response)
  unfolding record_contribution
  record_contribution-Sends job_id task_id options response =
      lifted D IsCapped options.nonce _
        (or_raise (crypto.address_of config.writer_private_key) invalid_key) _
        λ agent _.
          sends_built options _ _
            (λ tx made. (
              pos 0,
              zero-WithinCap,
              sign_record_contribution_transaction-Signed crypto signer config task_id agent
                  response.node_role (output_hash crypto response)
                  (or_text response.ree_receipt_hash zero_bytes32)
                  (fstring
                    ("signal-count://jobs/" ∷ job_id ∷ "/contributions/" ∷ response.node_role ∷ []))
                  options tx made,
            ))
            (λ k r s. ([], none_sent D IsCapped s, tt, refl))

  sign_update-Signed :
      (task_id : ℤ) (agent role : String) (score points payout_wei : ℤ) (uri : String)
      (options : CallOptions) (tx : SignedContractTransaction)
      → WithinCap payout_wei
      → (if is_nonzero payout_wei
          then sign_record_reputation_payout_transaction crypto signer config task_id agent role
              score points payout_wei uri options
          else sign_record_reputation_transaction crypto signer config task_id agent role score
              points uri options)
        ≡ ok tx
      → (value : ℤ) × WithinCap value × Signed crypto signer config options value tx
  sign_update-Signed task_id agent role score points payout_wei uri options tx capped made =
      elim (Bool-cases (is_nonzero payout_wei)) [
        | inl paid ↦ (
          payout_wei,
          capped,
          sign_record_reputation_payout_transaction-Signed crypto signer config task_id agent role
              score points payout_wei uri options tx (rw paid at made),
        )
        | inr unpaid ↦ (
          pos 0,
          zero-WithinCap,
          sign_record_reputation_transaction-Signed crypto signer config task_id agent role score
              points uri options tx (rw unpaid at made),
        )
      ]

  pub record_update-Sends :
      (job_id : String) (task_id : ℤ) (options : CallOptions) (update : Fields)
      → S options.nonce
          (One D IsCapped)
          (record_update fl conv crypto signer config node timeout job_id task_id options update)
  unfolding record_update sign_update
  record_update-Sends job_id task_id options update =
      let n = options.nonce in
      lifted D IsCapped n _ (scaled_int fl conv "verifier_score" update) _ λ score _.
        lifted D IsCapped n _ (scaled_int fl conv "reputation_points" update) _ λ points _.
          lifted D IsCapped n _ (text_at fl conv "node_role" update) _ λ role _.
            lifted D IsCapped n _ (text_at fl conv "agent_wallet" update) _ λ agent _.
              lifted D IsCapped n _
                (or_raise
                  (update_payout_wei fl conv update (native_test_payout_wei config)
                    config.native_test_payout_max_wei)
                  invalid_number)
                _
                λ payout_wei found.
                  sends_built options _ _
                    (λ tx made.
                      sign_update-Signed task_id agent role score points payout_wei
                        (fstring ("signal-count://jobs/" ∷ job_id ∷ "/reputation/" ∷ role ∷ []))
                        options tx
                        (update_payout_wei-WithinCap fl conv config valid update payout_wei
                          (or_raise-ok _ invalid_number found))
                        made)
                    (λ k r.
                      lifted D IsCapped k _ (float_of fl conv "verifier_score" update) _ λ x _.
                        lifted D IsCapped k _ (float_of fl conv "reputation_points" update) _
                          λ y _. λ s. ([], none_sent D IsCapped s, tt, refl))
