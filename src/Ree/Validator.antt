-- ===== src/Ree/Validator.antt =====
-- Local validation of a receipt (app/ree/validator.py).
use signal_count.Base.{
  String, Bool, false, ◌&&◌, Option, none, some, List, [], ◌∷◌, ◌++◌, is_mem, nat_beq, ◌==◌,
  string_eq, if◌then◌else◌,
}
use signal_count.Base.Json.{obj}
use signal_count.Base.Text.{
  fstring, strip, lower, starts_with, remove_prefix, text_length, is_int16,
}
use signal_count.Ree.Receipts.{ReeReceipt, ReceiptLibrary, compute_receipt_hash}

pub record ReeValidationResult : Type 0 where
  pub receipt_hash : String
  pub expected_receipt_hash : String
  pub expected_prompt_hash : String
  pub expected_parameters_hash : String
  pub expected_tokens_hash : String
  pub receipt_hash_matches : Bool
  pub prompt_hash_matches : Bool
  pub parameters_hash_matches : Bool
  pub tokens_hash_matches : Bool
  pub unsupported_component_hashes : List String

-- One round of the loop of `failure_reasons`.
abbrev pub component_reason : List String → String → Bool → List String
component_reason unsupported component matches =
    if is_mem component unsupported
    then fstring (component ∷ "_hash_algorithm_unsupported" ∷ []) ∷ []
    else if matches
    then []
    else fstring (component ∷ "_hash_mismatch" ∷ []) ∷ []

unfoldable pub failure_reasons : ReeValidationResult → List String
failure_reasons v =
    (if v.receipt_hash_matches then [] else "receipt_recomputation_failed" ∷ [])
    ++ (component_reason v.unsupported_component_hashes "prompt" v.prompt_hash_matches
        ++ (component_reason v.unsupported_component_hashes "parameters" v.parameters_hash_matches
            ++ component_reason v.unsupported_component_hashes "tokens" v.tokens_hash_matches))

unfoldable pub has_hex_digest : String → Bool
unfolding text_length is_int16
has_hex_digest value = if nat_beq (text_length value) 64 then is_int16 value else false

-- `_hash_matches`
abbrev pub hash_matches : String → Option String → Bool
hash_matches declared none = false
hash_matches declared (some expected) = lower declared == lower expected

abbrev or_blank : Option String → String
or_blank none = ""
or_blank (some s) = s

abbrev pub if_unsupported : String → Option String → List String → List String
if_unsupported component none rest = component ∷ rest
if_unsupported component (some h) rest = rest

module _ (lib : ReceiptLibrary) where
  open lib use {dumps, sha256_digits, keccak_digits}

  -- `_content_hash` of a UTF-8 text.
  unfoldable pub content_hash : String → String → Option String
  unfolding has_hex_digest strip starts_with remove_prefix lower
  content_hash value declared =
      let normalized = lower (strip declared) in
      if starts_with "sha256:" normalized && has_hex_digest (remove_prefix "sha256:" normalized)
      then some (fstring ("sha256:" ∷ sha256_digits value ∷ []))
      else if starts_with "0x" normalized && has_hex_digest (remove_prefix "0x" normalized)
      then some (fstring ("0x" ∷ keccak_digits value ∷ []))
      else none

  abbrev pub prompt_digest : ReeReceipt → Option String
  prompt_digest r = content_hash r.prompt r.prompt_hash

  abbrev pub parameters_digest : ReeReceipt → Option String
  parameters_digest r = content_hash (dumps (obj r.parameters)) r.parameters_hash

  abbrev pub tokens_digest : ReeReceipt → Option String
  tokens_digest r = content_hash r.text_output r.tokens_hash

  abbrev pub receipt_digest : ReeReceipt → String
  receipt_digest r =
      compute_receipt_hash lib r.commit_hash r.config_hash r.prompt_hash r.parameters_hash
        r.tokens_hash

  unfoldable pub validate_ree_receipt : ReeReceipt → ReeValidationResult
  unfolding compute_receipt_hash content_hash
  validate_ree_receipt r = record {
    receipt_hash = r.receipt_hash;
    expected_receipt_hash = receipt_digest r;
    expected_prompt_hash = or_blank (prompt_digest r);
    expected_parameters_hash = or_blank (parameters_digest r);
    expected_tokens_hash = or_blank (tokens_digest r);
    receipt_hash_matches = lower r.receipt_hash == lower (receipt_digest r);
    prompt_hash_matches = hash_matches r.prompt_hash (prompt_digest r);
    parameters_hash_matches = hash_matches r.parameters_hash (parameters_digest r);
    tokens_hash_matches = hash_matches r.tokens_hash (tokens_digest r);
    unsupported_component_hashes = if_unsupported "prompt" (prompt_digest r) (
        if_unsupported "parameters" (parameters_digest r)
          (if_unsupported "tokens" (tokens_digest r) []));
  }
