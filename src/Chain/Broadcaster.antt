-- ===== src/Chain/Broadcaster.antt =====
-- The recorder of a job's receipts (app/chain/broadcaster.py): its transactions are signed and sent
-- one after the other, each after the receipt of the one before.
pub mod Sent
pub mod Amounts
pub mod Batch
pub mod Recorded
pub mod Job
use signal_count.Chain.Updates.{
  scaled_int, float_of, text_at, accepted_reputation_updates, is_accepted_update, accepted_items,
}
use signal_count.Base.{
  ℕ, zero, suc, ◌+◌, String, Bool, true, false, not, ◌&&◌, Option, none, some, List, [], ◌∷◌, ◌++◌,
  length, nat_beq, ◌==◌, string_eq, if◌then◌else◌,
}
use signal_count.Base.Json.{
  Json, null, str, nat, bool, num, arr, obj, Items, nil, item, end, Fields, field, get_field,
}
use signal_count.Base.Int.{ℤ, pos, sub_ℕ}
use signal_count.Base.Floats.{Floats}
use signal_count.Base.Text.{fstring, is_empty}
use signal_count.Base.Hex.{take_text}
use signal_count.Base.Outcome.{Outcome, ok, err, or_raise}
use signal_count.Schemas.{ThesisRequest, TaskSpec, SpecialistResponse}
use signal_count.Identity.Hashing.{Crypto, task_hash, output_hash}
use signal_count.Chain.Config.{ChainConfig}
use signal_count.Chain.Client.{
  Signer, SignedContractTransaction, CallOptions, sign_create_task_transaction,
  sign_record_contribution_transaction, sign_record_reputation_transaction,
  sign_record_reputation_payout_transaction,
}
use signal_count.Chain.Receipts.{ChainReceipt, JobChainReceipts, confirmed}
use signal_count.Chain.Rpc.{
  ChainError, Node, Session, M, ◌>>=◌, lift, pure, from_client, call, wait_for_receipt,
  expect_hex_string, hex_to_int, invalid_key, missing_key, invalid_number, transaction_failed,
}
use signal_count.Chain.Broadcaster.Amounts.{
  Conversions, is_nonzero, update_payout_wei, native_test_payout_wei,
}

abbrev pub zero_bytes32 : String
zero_bytes32 = "0x0000000000000000000000000000000000000000000000000000000000000000"

abbrev pub zero_address : String
zero_address = "0x0000000000000000000000000000000000000000"

pub record BroadcastReceipt : Type 0 where
  pub tx_hash : String
  pub status : String

-- `value or other`
abbrev pub or_text : Option String → String → String
or_text none other = other
or_text (some s) other = if is_empty s then other else s

abbrev pub task_spec_of : String → ThesisRequest → TaskSpec
task_spec_of job_id request = record {
  job_id = job_id;
  thesis = request.thesis;
  asset = request.asset;
  horizon_days = request.horizon_days;
}

module _ (fl : Floats) (conv : Conversions fl) where
  open fl use {Float, zero as zero_float, lt}
  open conv use {to_float, scaled, show}

  -- `float(update.get(key, 0.0)) > 0.0`
  module _ (crypto : Crypto Float) (signer : Signer) (config : ChainConfig) (node : Node)
      (timeout : ℕ) where
    -- `_writer_address`
    abbrev writer_address : M String
    writer_address = lift (or_raise (crypto.address_of config.writer_private_key) invalid_key)

    unfoldable pub get_nonce : M ℕ
    unfolding call hex_to_int
    get_nonce = do
      writer ← writer_address
      result ← call node "eth_getTransactionCount" (str writer ∷ str "pending" ∷ [])
      lift (hex_to_int result)

    unfoldable pub get_gas_price : M ℕ
    unfolding call hex_to_int
    get_gas_price = do result ← call node "eth_gasPrice" []; lift (hex_to_int result)

    abbrev require_status : Fields → Outcome ChainError ℕ → Outcome ChainError (Unit {0})
    require_status receipt (err e) = err e
    require_status receipt (ok n) = if nat_beq n 1 then ok tt else err transaction_failed

    abbrev status_of : Fields → Json
    status_of receipt = elim (get_field "status" receipt) [ none ↦ null | some j ↦ j ]

    unfoldable pub broadcast_and_wait : String → M BroadcastReceipt
    unfolding call expect_hex_string hex_to_int wait_for_receipt
    broadcast_and_wait raw_transaction = do
      result ← call node "eth_sendRawTransaction" (str raw_transaction ∷ [])
      tx_hash ← lift (expect_hex_string result)
      receipt ← wait_for_receipt node timeout tx_hash
      passed ← lift (require_status receipt (hex_to_int (status_of receipt)))
      pure (record { tx_hash = tx_hash; status = "confirmed" })

    -- The call of `nextTaskId()` on the registry of tasks.
    abbrev pub next_task_id_params : List Json
    unfolding take_text
    next_task_id_params =
        let selector = fstring ("0x" ∷ take_text 8 (crypto.keccak_digits "nextTaskId()") ∷ []) in
        obj (field "to" (str config.task_registry_address) (field "data" (str selector) end))
        ∷ str "latest"
        ∷ []

    unfoldable pub latest_task_id : M ℤ
    unfolding call hex_to_int next_task_id_params
    latest_task_id = do
      result ← call node "eth_call" next_task_id_params
      n ← lift (hex_to_int result)
      pure (sub_ℕ n 1)

    -- One contribution: the loop's body in `record_job_receipts`.
    unfoldable pub record_contribution :
        String → ℤ → CallOptions → SpecialistResponse Float → M (ChainReceipt Float)
    unfolding sign_record_contribution_transaction broadcast_and_wait confirmed
    record_contribution job_id task_id options response = do
      let ree_receipt_hash = or_text response.ree_receipt_hash zero_bytes32
      agent ← writer_address
      tx ← from_client (
          sign_record_contribution_transaction crypto signer config task_id agent response.node_role
            (output_hash crypto response) ree_receipt_hash
            (fstring
              ("signal-count://jobs/" ∷ job_id ∷ "/contributions/" ∷ response.node_role ∷ []))
            options)
      sent ← broadcast_and_wait tx.raw_transaction
      pure (record (confirmed "contribution" sent.tx_hash config.explorer_base_url) {
        role = some response.node_role;
        ree_receipt_hash = if ree_receipt_hash == zero_bytes32 then none else some ree_receipt_hash;
        ree_status = response.receipt_status;
      })

    unfoldable pub record_contributions :
        String → ℤ → ℕ → ℕ → List (SpecialistResponse Float) → M (List (ChainReceipt Float))
    unfolding record_contribution
    record_contributions job_id task_id gas_price nonce [] = pure []
    record_contributions job_id task_id gas_price nonce (r ∷ rs) = do
      receipt ←
          record_contribution job_id task_id (record { nonce = nonce; gas_price_wei = gas_price }) r
      receipts ← record_contributions job_id task_id gas_price (nonce + 1) rs
      pure (receipt ∷ receipts)

    -- The transaction of one update: with a payout or without.
    unfoldable pub sign_update :
        ℤ
        → (agent role : String) (score points payout_wei : ℤ) (metadata_uri : String) → CallOptions
        → M SignedContractTransaction
    unfolding sign_record_reputation_payout_transaction sign_record_reputation_transaction
    sign_update task_id agent role score points payout_wei metadata_uri options = from_client (
        if is_nonzero payout_wei
        then sign_record_reputation_payout_transaction crypto signer config task_id agent role score
            points payout_wei metadata_uri options
        else sign_record_reputation_transaction crypto signer config task_id agent role score points
            metadata_uri options)

    -- One round of the loop of `_record_reputation_updates`.
    unfoldable pub record_update : String → ℤ → CallOptions → Fields → M (ChainReceipt Float)
    unfolding sign_update broadcast_and_wait confirmed update_payout_wei native_test_payout_wei
    record_update job_id task_id options update = do
      score ← lift (scaled_int fl conv "verifier_score" update)
      points ← lift (scaled_int fl conv "reputation_points" update)
      role ← lift (text_at fl conv "node_role" update)
      agent ← lift (text_at fl conv "agent_wallet" update)
      payout_wei ← lift (
          or_raise
            (update_payout_wei fl conv update (native_test_payout_wei config)
              config.native_test_payout_max_wei)
            invalid_number)
      let uri = fstring ("signal-count://jobs/" ∷ job_id ∷ "/reputation/" ∷ role ∷ [])
      tx ← sign_update task_id agent role score points payout_wei uri options
      sent ← broadcast_and_wait tx.raw_transaction
      verifier_score ← lift (float_of fl conv "verifier_score" update)
      reputation_points ← lift (float_of fl conv "reputation_points" update)
      pure (record (confirmed "reputation" sent.tx_hash config.explorer_base_url) {
        role = some role;
        agent = some agent;
        verifier_score = some verifier_score;
        reputation_points = some reputation_points;
        native_test_payout_wei = if is_nonzero payout_wei then some payout_wei else none;
      })

    unfoldable pub record_reputation_updates :
        String → ℤ → ℕ → ℕ → List Fields → M (List (ChainReceipt Float))
    unfolding record_update
    record_reputation_updates job_id task_id gas_price nonce [] = pure []
    record_reputation_updates job_id task_id gas_price nonce (u ∷ us) = do
      receipt ← record_update job_id task_id (record { nonce = nonce; gas_price_wei = gas_price }) u
      receipts ← record_reputation_updates job_id task_id gas_price (nonce + 1) us
      pure (receipt ∷ receipts)

    -- The updates, unless no vault is configured.
    unfoldable pub record_vault : String → ℤ → ℕ → ℕ → Fields → M (List (ChainReceipt Float))
    unfolding record_reputation_updates accepted_reputation_updates
    record_vault job_id task_id gas_price nonce run_metadata =
        if config.reputation_vault_address == zero_address
        then pure []
        else (lift (accepted_reputation_updates fl conv run_metadata)
            >>= record_reputation_updates job_id task_id gas_price nonce)

    unfoldable pub record_task : String → ThesisRequest → CallOptions → M (ChainReceipt Float)
    unfolding sign_create_task_transaction broadcast_and_wait confirmed
    record_task job_id request options = do
      tx ← from_client (
          sign_create_task_transaction crypto signer config
            (task_hash crypto (task_spec_of job_id request))
            (fstring ("signal-count://jobs/" ∷ job_id ∷ "/task" ∷ [])) options)
      sent ← broadcast_and_wait tx.raw_transaction
      pure (confirmed "task" sent.tx_hash config.explorer_base_url)

    unfoldable pub record_job_receipts :
        String
        → ThesisRequest
        → List (SpecialistResponse Float)
        → Fields
        → M (JobChainReceipts Float)
    unfolding get_nonce get_gas_price record_task latest_task_id record_contributions record_vault
    record_job_receipts job_id request responses run_metadata = do
      nonce ← get_nonce
      gas_price ← get_gas_price
      task ← record_task job_id request (record { nonce = nonce; gas_price_wei = gas_price })
      task_id ← latest_task_id
      contributions ← record_contributions job_id task_id gas_price (nonce + 1) responses
      updates ← record_vault job_id task_id gas_price (nonce + length responses + 1) run_metadata
      pure (record { receipt_status = "confirmed"; receipts = task ∷ contributions ++ updates })
