-- ===== src/Identity/Hashing.antt =====
-- Canonical JSON and its Keccak hash (app/identity/canonical.py and hashing.py), over the libraries
-- that they call.
use signal_count.Base.{String, ◌≡◌, Option, some, [], ◌∷◌}
use signal_count.Base.Json.{Json, obj, str, nat, field, end}
use signal_count.Base.Text.{fstring, lower}
use signal_count.Schemas.{TaskSpec, SpecialistResponse}

-- What json, pydantic, eth_utils and eth_account do. `none` is a call that raises. The laws are
-- their documented behaviour: a checksum changes only the case of an address, and depends on
-- nothing else of it; an account's address is checksummed; a signature recovers to its signer.
pub record Crypto (F : Type 0) : Type 0 where
  -- `json.dumps` with sorted keys, and `model_dump(mode="json")` of a response.
  pub dumps : Json → String
  pub dump_response : SpecialistResponse F → Json
  -- The hexadecimal digits of `keccak` of a UTF-8 text.
  pub keccak_digits : String → String
  -- `to_checksum_address` and `Account.from_key(key).address`
  pub checksum : String → Option String
  pub address_of : String → Option String
  -- The signature's digits, and the recovery from a signature with its prefix, of the EIP-191
  -- message of a text.
  pub sign : (message key : String) → String
  pub recover : (message signature : String) → Option String
  pub checksum_lower : (a b : String) → checksum a ≡ some b → lower b ≡ lower a
  pub checksum_case : (a b : String) → lower a ≡ lower b → checksum a ≡ checksum b
  pub address_checksummed : (key a : String) → address_of key ≡ some a → checksum a ≡ some a
  pub recover_sign :
      (message key a : String)
      → address_of key ≡ some a
      → recover message (fstring ("0x" ∷ sign message key ∷ [])) ≡ some a

module _ {F : Type 0} (crypto : Crypto F) where
  open crypto use {dumps, dump_response, keccak_digits}

  abbrev pub keccak256_hex : String → String
  keccak256_hex text = fstring ("0x" ∷ keccak_digits text ∷ [])

  unfoldable pub canonical_json_hash : Json → String
  canonical_json_hash value = keccak256_hex (dumps value)

  abbrev pub dump_task : TaskSpec → Json
  dump_task t = obj (
      field "job_id" (str t.job_id) (
        field "thesis" (str t.thesis)
          (field "asset" (str t.asset) (field "horizon_days" (nat t.horizon_days) end))))

  unfoldable pub task_hash : TaskSpec → String
  unfolding canonical_json_hash
  task_hash task = canonical_json_hash (dump_task task)

  unfoldable pub output_hash : SpecialistResponse F → String
  unfolding canonical_json_hash
  output_hash response = canonical_json_hash (dump_response response)
