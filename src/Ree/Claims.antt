-- ===== src/Ree/Claims.antt =====
-- Fail-closed checks of the receipt that a response claims (app/ree/claims.py).
pub mod Closed
use signal_count.Base.{
  String, Bool, true, false, ◌&&◌, ◌||◌, not, Option, none, some, List, [], ◌∷◌, ◌++◌, is_mem, ◌==◌,
  string_eq, if◌then◌else◌,
}
use signal_count.Base.Json.{Fields}
use signal_count.Base.Text.{fstring, is_empty, strip, lower}
use signal_count.Base.Outcome.{Outcome, ok, err}
use signal_count.Schemas.{SpecialistResponse}
use signal_count.Ree.Receipts.{ReeReceipt, ReceiptLibrary, parse_ree_receipt}
use signal_count.Ree.Validator.{ReeValidationResult, validate_ree_receipt, failure_reasons}

pub record ReceiptClaimCheck : Type 0 where
  pub status : String
  pub valid : Bool
  pub reasons : List String
  pub declared_hash : String
  pub embedded_hash : String
  pub recomputed_hash : String
  pub receipt_hash_matches : Option Bool
  pub prompt_hash_matches : Option Bool
  pub parameters_hash_matches : Option Bool
  pub tokens_hash_matches : Option Bool

-- An exception of `parse_ree_receipt`.
pub data ClaimError : Type 0 where
  invalid_receipt : ClaimError

-- `value or ""`
abbrev pub or_blank : Option String → String
or_blank none = ""
or_blank (some s) = s

abbrev is_given : Option String → Bool
is_given none = false
is_given (some s) = not (is_empty s)

abbrev pub is_no_reason : List String → Bool
is_no_reason [] = true
is_no_reason (r ∷ rs) = false

-- `_has_receipt_material`: a body that is a dict never equals "".
unfoldable pub has_receipt_material : {F : Type 0} → SpecialistResponse F → Bool
has_receipt_material response =
    is_given response.ree_receipt_hash
    || is_given response.ree_prompt_hash
    || is_given response.ree_tokens_hash
    || is_given response.ree_model_name
    || elim response.ree_receipt_body [ none ↦ false | some body ↦ true ]
    || is_given response.ree_receipt_path

-- A check of a claim whose receipt is not read.
abbrev unread : String → Bool → List String → String → ReceiptClaimCheck
unread status valid reasons declared_hash = record {
  status = status;
  valid = valid;
  reasons = reasons;
  declared_hash = declared_hash;
  embedded_hash = "";
  recomputed_hash = "";
  receipt_hash_matches = none;
  prompt_hash_matches = none;
  parameters_hash_matches = none;
  tokens_hash_matches = none;
}

abbrev binding : String → Bool → Bool → List String
binding name given matches =
    if given
    then if matches then [] else fstring ("receipt_" ∷ name ∷ "_mismatch" ∷ []) ∷ []
    else fstring ("receipt_" ∷ name ∷ "_missing" ∷ []) ∷ []

-- `_check_embedded_metadata_bindings`: hashes by any case, the model's name exactly.
unfoldable pub metadata_reasons : {F : Type 0} → SpecialistResponse F → ReeReceipt → List String
metadata_reasons response receipt =
    binding "prompt_hash" (is_given response.ree_prompt_hash)
      (lower (or_blank response.ree_prompt_hash) == lower receipt.prompt_hash)
    ++ (binding "tokens_hash" (is_given response.ree_tokens_hash)
          (lower (or_blank response.ree_tokens_hash) == lower receipt.tokens_hash)
        ++ binding "model_name" (is_given response.ree_model_name)
            (or_blank response.ree_model_name == receipt.model_name))

abbrev pub requires_recomputation : String → Bool
requires_recomputation status = status == "validated" || status == "verified"

-- What reading the body comes to.
pub data Body : Type 0 where
  missing unparsable : Body
  parsed : ReeReceipt → Body

abbrev pub read_body : ReceiptLibrary → Option Fields → Body
read_body lib none = missing
read_body lib (some body) = elim (parse_ree_receipt lib body) [
  | none ↦ unparsable
  | some receipt ↦ parsed receipt
]

abbrev canonical_body : ReceiptLibrary → Bool → Body → Outcome ClaimError (Option Fields)
canonical_body lib false body = ok none
canonical_body lib true missing = ok none
canonical_body lib true unparsable = err invalid_receipt
canonical_body lib true (parsed receipt) = ok (some (lib.model_dump receipt))

module _ (lib : ReceiptLibrary) {F : Type 0} where
  -- The reasons that a parsed receipt gives.
  unfoldable pub receipt_reasons : SpecialistResponse F → String → ReeReceipt → List String
  unfolding metadata_reasons
  receipt_reasons response status receipt =
      let declared = or_blank response.ree_receipt_hash in
      let differs = not (is_empty declared) && not (lower declared == lower receipt.receipt_hash) in
      (if differs then "receipt_hash_mismatch" ∷ [] else [])
      ++ (metadata_reasons response receipt
          ++ (if requires_recomputation status
              then failure_reasons (validate_ree_receipt lib receipt)
              else []))

  abbrev pub body_reasons : SpecialistResponse F → String → Body → List String
  body_reasons response status missing = "receipt_body_missing" ∷ []
  body_reasons response status unparsable = "receipt_body_invalid" ∷ []
  body_reasons response status (parsed receipt) = receipt_reasons response status receipt

  abbrev pub claim_reasons : SpecialistResponse F → String → List String
  claim_reasons response status =
      (if is_empty (or_blank response.ree_receipt_hash) then "receipt_hash_missing" ∷ [] else [])
      ++ (body_reasons response status (read_body lib response.ree_receipt_body)
          ++ (if status == "verified" then "external_reexecution_evidence_missing" ∷ [] else []))

  -- The check of a claim whose status is one of the three.
  abbrev pub read_check : SpecialistResponse F → String → List String → Body → ReceiptClaimCheck
  read_check response status reasons missing =
      unread status (is_no_reason reasons) reasons (or_blank response.ree_receipt_hash)
  read_check response status reasons unparsable =
      unread status (is_no_reason reasons) reasons (or_blank response.ree_receipt_hash)
  read_check response status reasons (parsed receipt) =
      let v = validate_ree_receipt lib receipt in
      record {
        status = status;
        valid = is_no_reason reasons;
        reasons = reasons;
        declared_hash = or_blank response.ree_receipt_hash;
        embedded_hash = receipt.receipt_hash;
        recomputed_hash = v.expected_receipt_hash;
        receipt_hash_matches = some v.receipt_hash_matches;
        prompt_hash_matches = some v.prompt_hash_matches;
        parameters_hash_matches = some v.parameters_hash_matches;
        tokens_hash_matches = some v.tokens_hash_matches;
      }

  unfoldable pub claimed_status : SpecialistResponse F → String
  claimed_status response = lower (strip (or_blank response.receipt_status))

  -- The rest of `check_receipt_claim`, from the status on.
  unfoldable pub check_status : SpecialistResponse F → String → ReceiptClaimCheck
  unfolding has_receipt_material receipt_reasons
  check_status response status =
      let declared_hash = or_blank response.ree_receipt_hash in
      if is_empty status
      then if has_receipt_material response
        then unread "not_claimed" false ("receipt_status_missing" ∷ []) declared_hash
        else unread "not_claimed" true [] declared_hash
      else if is_mem status ("parsed" ∷ "validated" ∷ "verified" ∷ [])
      then read_check response status (claim_reasons response status)
          (read_body lib response.ree_receipt_body)
      else unread status false ("unsupported_receipt_status" ∷ []) declared_hash

  unfoldable pub check_receipt_claim : SpecialistResponse F → ReceiptClaimCheck
  unfolding claimed_status check_status
  check_receipt_claim response = check_status response (claimed_status response)

  -- `canonical_validated_receipt_body`, given the check.
  unfoldable pub canonical_validated_receipt_body :
      SpecialistResponse F → ReceiptClaimCheck → Outcome ClaimError (Option Fields)
  canonical_validated_receipt_body response check =
      canonical_body lib (check.status == "validated" && check.valid)
        (read_body lib response.ree_receipt_body)
