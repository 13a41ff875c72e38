-- ===== src/Chain/Client.antt =====
-- The builders of signed contract transactions (app/chain/client.py).
pub mod Built
use signal_count.Base.{
  ℕ, ◌+◌, String, ◌≡◌, Bool, true, false, Option, none, some, List, [], ◌∷◌, nat_beq, if◌then◌else◌,
}
use signal_count.Base.Int.{ℤ, pos}
use signal_count.Base.Outcome.{Outcome, ok, err, ◌>>=◌, ◌>>◌, guard, or_raise}
use signal_count.Base.Text.{fstring, is_empty, starts_with, remove_prefix, text_length}
use signal_count.Base.Hex.{from_hex, take_text}
use signal_count.Identity.Hashing.{Crypto}
use signal_count.Chain.Config.{ChainConfig}

-- What a builder raises.
pub data ClientError : Type 0 where
  invalid_address invalid_bytes32 unencodable no_private_key unsignable : ClientError

pub record Transaction : Type 0 where
  pub to : String
  pub value : ℤ
  pub call_data : String
  pub nonce : ℕ
  pub chain_id : ℤ
  pub gas : ℕ
  pub gas_price_wei : ℕ

pub data AbiValue : Type 0 where
  uint : ℤ → AbiValue
  address : String → AbiValue
  text : String → AbiValue
  bytes : List ℕ → AbiValue

-- What eth_abi and eth_account do: `none` is a call that raises. A signed transaction is read back
-- from its raw text, which is the hexadecimal digits with a prefix.
pub record Signer : Type 0 where
  pub encode : List String → List AbiValue → Option String
  pub sign_transaction : Transaction → String → Option (String × String)
  pub decode : String → Option Transaction
  pub decode_sign :
      (t : Transaction) (key raw hash : String)
      → sign_transaction t key ≡ some (raw, hash)
      → decode (fstring ("0x" ∷ raw ∷ [])) ≡ some t

pub record SignedContractTransaction : Type 0 where
  pub transaction : Transaction
  pub raw_transaction : String
  pub transaction_hash : String

abbrev is_32_bytes : String → Outcome ClientError (List ℕ)
is_32_bytes normalized = do
  guard (nat_beq (text_length normalized) 64) invalid_bytes32
  or_raise (from_hex normalized) invalid_bytes32

-- `_bytes32`
unfoldable pub bytes32 : String → Outcome ClientError (List ℕ)
unfolding starts_with remove_prefix text_length from_hex
bytes32 value = is_32_bytes (
    if starts_with "sha256:" value then remove_prefix "sha256:" value else remove_prefix "0x" value)

-- What every call of a contract has: the nonce and the price of gas.
pub record CallOptions : Type 0 where
  pub nonce : ℕ
  pub gas_price_wei : ℕ

module _ {F : Type 0} (crypto : Crypto F) (signer : Signer) (config : ChainConfig) where
  open crypto use {keccak_digits, checksum}
  open signer use {encode, sign_transaction}

  abbrev pub to_checksum_address : String → Outcome ClientError String
  to_checksum_address a = or_raise (checksum a) invalid_address

  -- `_encode_call`: the first four bytes of the signature's hash, and the encoded arguments.
  pub encode_call : String → List String → List AbiValue → Outcome ClientError String
  unfolding take_text
  encode_call signature types values = do
    encoded_args ← or_raise (encode types values) unencodable
    ok (fstring ("0x" ∷ take_text 8 (keccak_digits signature) ∷ encoded_args ∷ []))

  pub base_transaction : String → String → CallOptions → ℕ → ℤ → Outcome ClientError Transaction
  base_transaction to call_data options gas value = do
    target ← to_checksum_address to
    ok (record {
      to = target;
      value = value;
      call_data = call_data;
      nonce = options.nonce;
      chain_id = config.chain_id;
      gas = gas;
      gas_price_wei = options.gas_price_wei;
    })

  -- `_sign_transaction`
  unfoldable pub sign_built : Transaction → Outcome ClientError SignedContractTransaction
  sign_built t = do
    guard (if is_empty config.writer_private_key then false else true) no_private_key
    (raw, hash) ← or_raise (sign_transaction t config.writer_private_key) unsignable
    ok (record {
      transaction = t;
      raw_transaction = fstring ("0x" ∷ raw ∷ []);
      transaction_hash = fstring ("0x" ∷ hash ∷ []);
    })

  unfoldable pub build_create_task_transaction :
      String → String → CallOptions → Outcome ClientError Transaction
  unfolding encode_call bytes32 base_transaction
  build_create_task_transaction task_hash metadata_uri options = do
    digest ← bytes32 task_hash
    call_data ←
        encode_call "createTask(bytes32,string)" ("bytes32" ∷ "string" ∷ [])
          (bytes digest ∷ text metadata_uri ∷ [])
    base_transaction config.task_registry_address call_data options 250000 (pos 0)

  unfoldable pub sign_create_task_transaction :
      String → String → CallOptions → Outcome ClientError SignedContractTransaction
  unfolding build_create_task_transaction sign_built
  sign_create_task_transaction task_hash metadata_uri options = do
    t ← build_create_task_transaction task_hash metadata_uri options
    sign_built t

  unfoldable pub build_record_contribution_transaction :
      ℤ
      → (agent role output_hash ree_receipt_hash metadata_uri : String) → CallOptions
      → Outcome ClientError Transaction
  unfolding encode_call bytes32 base_transaction
  build_record_contribution_transaction task_id agent role output_hash ree_receipt_hash metadata_uri
        options =
      do
        agent_address ← to_checksum_address agent
        output ← bytes32 output_hash
        receipt ← bytes32 ree_receipt_hash
        call_data ←
            encode_call "recordContribution(uint256,address,string,bytes32,bytes32,string)"
              ("uint256" ∷ "address" ∷ "string" ∷ "bytes32" ∷ "bytes32" ∷ "string" ∷ [])
              (uint task_id
                ∷ address agent_address
                ∷ text role
                ∷ bytes output
                ∷ bytes receipt
                ∷ text metadata_uri
                ∷ [])
        base_transaction config.receipt_registry_address call_data options 350000 (pos 0)

  unfoldable pub sign_record_contribution_transaction :
      ℤ
      → (agent role output_hash ree_receipt_hash metadata_uri : String) → CallOptions
      → Outcome ClientError SignedContractTransaction
  unfolding build_record_contribution_transaction sign_built
  sign_record_contribution_transaction task_id agent role output_hash ree_receipt_hash metadata_uri
        options =
      do
        t ←
            build_record_contribution_transaction task_id agent role output_hash ree_receipt_hash
              metadata_uri options
        sign_built t

  unfoldable pub build_record_reputation_transaction :
      ℤ
      → (agent role : String) (score points : ℤ) (metadata_uri : String) → CallOptions
      → Outcome ClientError Transaction
  unfolding encode_call base_transaction
  build_record_reputation_transaction task_id agent role score points metadata_uri options = do
    agent_address ← to_checksum_address agent
    call_data ←
        encode_call "recordReputation(uint256,address,string,uint256,uint256,string)"
          ("uint256" ∷ "address" ∷ "string" ∷ "uint256" ∷ "uint256" ∷ "string" ∷ [])
          (uint task_id
            ∷ address agent_address
            ∷ text role
            ∷ uint score
            ∷ uint points
            ∷ text metadata_uri
            ∷ [])
    base_transaction config.reputation_vault_address call_data options 250000 (pos 0)

  unfoldable pub sign_record_reputation_transaction :
      ℤ
      → (agent role : String) (score points : ℤ) (metadata_uri : String) → CallOptions
      → Outcome ClientError SignedContractTransaction
  unfolding build_record_reputation_transaction sign_built
  sign_record_reputation_transaction task_id agent role score points metadata_uri options = do
    t ← build_record_reputation_transaction task_id agent role score points metadata_uri options
    sign_built t

  unfoldable pub build_record_reputation_payout_transaction :
      ℤ
      → (agent role : String) (score points payout_wei : ℤ) (metadata_uri : String) → CallOptions
      → Outcome ClientError Transaction
  unfolding encode_call base_transaction
  build_record_reputation_payout_transaction task_id agent role score points payout_wei metadata_uri
        options =
      do
        agent_address ← to_checksum_address agent
        call_data ←
            encode_call
              "recordReputationWithNativeTestPayout(uint256,address,string,uint256,uint256,uint256,string)"
              ("uint256" ∷ "address" ∷ "string" ∷ "uint256" ∷ "uint256" ∷ "uint256" ∷ "string" ∷ [])
              (uint task_id
                ∷ address agent_address
                ∷ text role
                ∷ uint score
                ∷ uint points
                ∷ uint payout_wei
                ∷ text metadata_uri
                ∷ [])
        base_transaction config.reputation_vault_address call_data options 300000 payout_wei

  unfoldable pub sign_record_reputation_payout_transaction :
      ℤ
      → (agent role : String) (score points payout_wei : ℤ) (metadata_uri : String) → CallOptions
      → Outcome ClientError SignedContractTransaction
  unfolding build_record_reputation_payout_transaction sign_built
  sign_record_reputation_payout_transaction task_id agent role score points payout_wei metadata_uri
        options =
      do
        t ←
            build_record_reputation_payout_transaction task_id agent role score points payout_wei
              metadata_uri options
        sign_built t
