-- ===== src/Chain/Client/Built.antt =====
-- The nonce and the value of the transactions that app/chain/client.py signs.
use signal_count.Base.{ℕ, String, ◌≡◌, refl, true, false, some, if◌then◌else◌}
use signal_count.Base.Int.{ℤ, pos}
use signal_count.Base.Outcome.{
  Outcome, ◌>>=◌, guard, or_raise, or_raise-ok, Ensures, ok-Ensures, >>=-Ensures, >>-Ensures,
  Ensures, ok-Ensures, >>=-Ensures, >>-Ensures,
}
use signal_count.Base.Text.{is_empty}
use signal_count.Identity.Hashing.{Crypto}
use signal_count.Chain.Config.{ChainConfig}
use signal_count.Chain.Client.{
  ClientError, Transaction, Signer, SignedContractTransaction, CallOptions, to_checksum_address,
  encode_call, bytes32, base_transaction, sign_built, build_create_task_transaction,
  sign_create_task_transaction, build_record_contribution_transaction,
  sign_record_contribution_transaction, build_record_reputation_transaction,
  sign_record_reputation_transaction, build_record_reputation_payout_transaction,
  sign_record_reputation_payout_transaction, no_private_key, unsignable,
}

module _ {F : Type 0} (crypto : Crypto F) (signer : Signer) (config : ChainConfig) where
  -- A transaction with these options and this value.
  abbrev Has : CallOptions → ℤ → Transaction → Type 0
  Has options value t = (t.nonce ≡ options.nonce) × (t.value ≡ value)

  -- A signed transaction that its raw text decodes to, with this nonce and value.
  abbrev pub Signed : CallOptions → ℤ → SignedContractTransaction → Type 0
  Signed options value tx =
      (t : Transaction) × (signer.decode tx.raw_transaction ≡ some t) × Has options value t

  base_transaction-Has :
      (to call_data : String) (options : CallOptions) (gas : ℕ) (value : ℤ)
      → Ensures
          (Has options value)
          (base_transaction crypto signer config to call_data options gas value)
  unfolding base_transaction
  base_transaction-Has to call_data options gas value =
      >>=-Ensures (Has options value) (to_checksum_address crypto signer config to) _
        (λ target _. ok-Ensures (Has options value) _ (refl, refl))

  sign_built-Signed :
      (options : CallOptions) (value : ℤ) (t : Transaction)
      → Has options value t
      → Ensures (Signed options value) (sign_built crypto signer config t)
  unfolding sign_built
  sign_built-Signed options value t h =
      >>-Ensures (Signed options value)
        (guard (if is_empty config.writer_private_key then false else true) no_private_key) _
        (>>=-Ensures (Signed options value)
          (or_raise (signer.sign_transaction t config.writer_private_key) unsignable) _
          (λ pair made. ok-Ensures (Signed options value) _ (
            t,
            signer.decode_sign t config.writer_private_key pair.0 pair.1
                (or_raise-ok _ unsignable made),
            h,
          )))

  -- A builder's transaction, signed.
  built-Signed :
      (options : CallOptions) (value : ℤ) (built : Outcome ClientError Transaction)
      → Ensures (Has options value) built
      → Ensures (Signed options value) (built >>= sign_built crypto signer config)
  built-Signed options value built h =
      >>=-Ensures (Signed options value) built (sign_built crypto signer config)
        (λ t made. sign_built-Signed options value t (h t made))

  pub sign_create_task_transaction-Signed :
      (task_hash metadata_uri : String) (options : CallOptions)
      → Ensures
          (Signed options (pos 0))
          (sign_create_task_transaction crypto signer config task_hash metadata_uri options)
  unfolding sign_create_task_transaction build_create_task_transaction
  sign_create_task_transaction-Signed task_hash metadata_uri options =
      built-Signed options (pos 0)
        (build_create_task_transaction crypto signer config task_hash metadata_uri options)
        (>>=-Ensures _ (bytes32 task_hash) _ λ digest _.
          >>=-Ensures _ (encode_call crypto signer config _ _ _) _ λ call_data _.
            base_transaction-Has config.task_registry_address call_data options 250000 (pos 0))

  pub sign_record_contribution_transaction-Signed :
      (task_id : ℤ) (agent role output_hash ree_receipt_hash metadata_uri : String)
      (options : CallOptions)
      → Ensures (Signed options (pos 0)) (
          sign_record_contribution_transaction crypto signer config task_id agent role output_hash
            ree_receipt_hash metadata_uri options)
  unfolding sign_record_contribution_transaction build_record_contribution_transaction
  sign_record_contribution_transaction-Signed task_id agent role output_hash ree_receipt_hash
        metadata_uri options =
      built-Signed options (pos 0)
        (build_record_contribution_transaction crypto signer config task_id agent role output_hash
          ree_receipt_hash metadata_uri options)
        (>>=-Ensures _ (to_checksum_address crypto signer config agent) _ λ a _.
          >>=-Ensures _ (bytes32 output_hash) _ λ o _.
            >>=-Ensures _ (bytes32 ree_receipt_hash) _ λ r _.
              >>=-Ensures _ (encode_call crypto signer config _ _ _) _ λ call_data _.
                base_transaction-Has config.receipt_registry_address call_data options 350000
                  (pos 0))

  pub sign_record_reputation_transaction-Signed :
      (task_id : ℤ) (agent role : String) (score points : ℤ) (metadata_uri : String)
      (options : CallOptions)
      → Ensures (Signed options (pos 0)) (
          sign_record_reputation_transaction crypto signer config task_id agent role score points
            metadata_uri options)
  unfolding sign_record_reputation_transaction build_record_reputation_transaction
  sign_record_reputation_transaction-Signed task_id agent role score points metadata_uri options =
      built-Signed options (pos 0)
        (build_record_reputation_transaction crypto signer config task_id agent role score points
          metadata_uri options)
        (>>=-Ensures _ (to_checksum_address crypto signer config agent) _ λ a _.
          >>=-Ensures _ (encode_call crypto signer config _ _ _) _ λ call_data _.
            base_transaction-Has config.reputation_vault_address call_data options 250000 (pos 0))

  pub sign_record_reputation_payout_transaction-Signed :
      (task_id : ℤ) (agent role : String) (score points payout_wei : ℤ) (metadata_uri : String)
      (options : CallOptions)
      → Ensures (Signed options payout_wei) (
          sign_record_reputation_payout_transaction crypto signer config task_id agent role score
            points payout_wei metadata_uri options)
  unfolding sign_record_reputation_payout_transaction build_record_reputation_payout_transaction
  sign_record_reputation_payout_transaction-Signed task_id agent role score points payout_wei
        metadata_uri options =
      built-Signed options payout_wei
        (build_record_reputation_payout_transaction crypto signer config task_id agent role score
          points payout_wei metadata_uri options)
        (>>=-Ensures _ (to_checksum_address crypto signer config agent) _ λ a _.
          >>=-Ensures _ (encode_call crypto signer config _ _ _) _ λ call_data _.
            base_transaction-Has config.reputation_vault_address call_data options 300000
              payout_wei)
