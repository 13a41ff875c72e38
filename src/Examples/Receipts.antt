-- ===== src/Examples/Receipts.antt =====
-- A receipt whose hashes recompute, to test app/ree with.
use signal_count.Base.{ℕ, String, ◌≡◌, ◌⊎◌, refl, true, false, some, ◌==◌, string_eq}
use signal_count.Base.Json.{str, field, end}
use signal_count.Base.Text.{
  lower, strip, starts_with, remove_prefix, drop_text, text_length, is_int16, hex_digits,
}
use signal_count.Schemas.{SpecialistResponse}
use signal_count.Ree.Receipts.{
  ReeReceipt, ReceiptLibrary, parse_ree_receipt, normalize_receipt_data, compute_receipt_hash,
}
use signal_count.Ree.Validator.{validate_ree_receipt, content_hash, has_hex_digest, failure_reasons}
use signal_count.Ree.Claims.{
  check_receipt_claim, claimed_status, check_status, has_receipt_material, receipt_reasons,
  metadata_reasons,
}
use signal_count.Ree.Claims.Closed.{Bound, check_receipt_claim-closed}
use signal_count.Examples.Dispatch.{sample_response}

abbrev digest : String
digest = "sha256:0000000000000000000000000000000000000000000000000000000000000000"

abbrev receipt : ReeReceipt
receipt = record {
  model_name = "m";
  commit_hash = "c";
  config_hash = "g";
  prompt = "p";
  prompt_hash = digest;
  parameters = end;
  parameters_hash = digest;
  tokens_hash = digest;
  token_count = 1;
  finish_reason = "";
  text_output = "t";
  device_type = "";
  device_name = "";
  receipt_hash = digest;
  version = "";
  ree_version = "";
}

-- A library whose every hash is of zeros, and that reads each body as the receipt.
abbrev zeros : ReceiptLibrary
zeros = record {
  model_validate = λ d. some receipt;
  model_dump = λ r. end;
  dumps = λ j. "json";
  sha256_digits = λ s. "0000000000000000000000000000000000000000000000000000000000000000";
  keccak_digits = λ s. "";
}

abbrev validated : SpecialistResponse ℕ
validated = record sample_response {
  ree_receipt_hash = some digest;
  receipt_status = some "validated";
  ree_prompt_hash = some digest;
  ree_tokens_hash = some digest;
  ree_model_name = some "m";
  ree_receipt_body = some (field "model_name" (str "m") end);
}

is_valid : (check_receipt_claim zeros validated).valid ≡ true
unfolding check_receipt_claim claimed_status check_status has_receipt_material receipt_reasons
    metadata_reasons validate_ree_receipt content_hash has_hex_digest failure_reasons
    parse_ree_receipt normalize_receipt_data compute_receipt_hash lower strip starts_with
    remove_prefix drop_text text_length is_int16 hex_digits
is_valid = refl

check_receipt_claim-closed_example :
    ((check_receipt_claim zeros validated).status ≡ "not_claimed")
    ⊎ (((check_receipt_claim zeros validated).status ≡ claimed_status zeros validated)
        × ((claimed_status zeros validated == "verified") ≡ false)
        × ((claimed_status zeros validated == "validated") ≡ true
            → (r : ReeReceipt) × Bound zeros validated r))
check_receipt_claim-closed_example = check_receipt_claim-closed zeros validated is_valid
