-- ===== src/Ree/Receipts.antt =====
-- Parsing of a receipt and its hash (app/ree/receipts.py), for a source that is a dict: the only
-- kind that a response carries.
use signal_count.Base.{
  ℕ, String, Bool, true, false, ◌&&◌, ◌||◌, not, Option, none, some, List, [], ◌∷◌, is_mem, ◌==◌,
  nat_beq, string_eq, if◌then◌else◌,
}
use signal_count.Base.Json.{
  Json, Fields, null, bool, nat, num, str, arr, obj, nil, item, end, field, get_field,
}
use signal_count.Base.Text.{fstring, join, is_empty}

pub record ReeReceipt : Type 0 where
  pub model_name : String
  pub commit_hash : String
  pub config_hash : String
  pub prompt : String
  pub prompt_hash : String
  pub parameters : Fields
  pub parameters_hash : String
  pub tokens_hash : String
  pub token_count : ℕ
  pub finish_reason : String
  pub text_output : String
  pub device_type : String
  pub device_name : String
  pub receipt_hash : String
  pub version : String
  pub ree_version : String

-- What pydantic, json, hashlib and eth_utils do; `model_validate` is `none` where it raises.
pub record ReceiptLibrary : Type 0 where
  pub model_validate : Fields → Option ReeReceipt
  pub model_dump : ReeReceipt → Fields
  pub dumps : Json → String
  pub sha256_digits : String → String
  pub keccak_digits : String → String

-- `not value`
abbrev is_falsy : Json → Bool
is_falsy null = true
is_falsy (bool b) = not b
is_falsy (nat n) = nat_beq n 0
is_falsy (num s) = s == "0.0" || s == "-0.0"
is_falsy (str s) = is_empty s
is_falsy (arr nil) = true
is_falsy (arr (item j js)) = false
is_falsy (obj end) = true
is_falsy (obj (field k v fs)) = false

-- `_forbid_unknown_keys` does not raise.
abbrev pub has_only : List String → Fields → Bool
has_only allowed end = true
has_only allowed (field k v fs) = is_mem k allowed && has_only allowed fs

abbrev has_key : String → Fields → Bool
has_key k d = elim (get_field k d) [ none ↦ false | some v ↦ true ]

-- `d.get(key, default)`
abbrev get_or : String → Json → Fields → Json
get_or k default d = elim (get_field k d) [ none ↦ default | some v ↦ v ]

-- A section that is a dict.
abbrev section_of : String → Fields → Option Fields
section_of k d = elim (get_field k d) [
  | some (obj section) ↦ some section
  | some _ ↦ none
  | none ↦ none
]

-- `d.get("parameters") or {}`
abbrev or_empty : Option Json → Json
or_empty none = obj end
or_empty (some v) = if is_falsy v then obj end else v

flatten : (source model input output execution hashes : Fields) → Fields
flatten source model input output execution hashes =
    field "model_name" (get_or "name" (str "") model) (
      field "commit_hash" (get_or "commit_hash" (str "") model) (
        field "config_hash" (get_or "config_hash" (str "") model) (
          field "prompt" (get_or "prompt" (str "") input) (
            field "prompt_hash" (get_or "prompt_hash" (str "") input) (
              field "parameters" (or_empty (get_field "parameters" input)) (
                field "parameters_hash" (get_or "parameters_hash" (str "") input) (
                  field "tokens_hash" (get_or "tokens_hash" (str "") output) (
                    field "token_count" (get_or "token_count" (nat 0) output) (
                      field "finish_reason" (get_or "finish_reason" (str "") output) (
                        field "text_output" (get_or "text_output" (str "") output) (
                          field "device_type" (get_or "device_type" (str "") execution) (
                            field "device_name" (get_or "device_name" (str "") execution) (
                              field "receipt_hash" (get_or "receipt_hash" (str "") hashes) (
                                field "version" (get_or "version" (str "") source) (
                                  field "ree_version" (get_or "ree_version" (str "") source)
                                    end)))))))))))))))

-- The nested form, when all its sections are dicts; `none` is a `ValueError`.
flatten_sections :
    Fields
    → Option Fields
    → Option Fields
    → Option Fields
    → Option Fields
    → Option Fields
    → Option Fields
unfolding flatten
flatten_sections source (some model) (some input) (some output) (some execution) (some hashes) =
    if has_only ("name" ∷ "commit_hash" ∷ "config_hash" ∷ []) model
      && has_only ("prompt" ∷ "prompt_hash" ∷ "parameters" ∷ "parameters_hash" ∷ []) input
      && has_only ("tokens_hash" ∷ "token_count" ∷ "finish_reason" ∷ "text_output" ∷ []) output
      && has_only ("device_type" ∷ "device_name" ∷ []) execution
      && has_only ("receipt_hash" ∷ []) hashes
    then some (flatten source model input output execution hashes)
    else none
flatten_sections source _ _ _ _ _ = some source

unfoldable pub normalize_receipt_data : Fields → Option Fields
unfolding flatten_sections
normalize_receipt_data source =
    let nested =
      flatten_sections source (section_of "model" source) (section_of "input" source)
        (section_of "output" source) (section_of "execution" source) (section_of "hashes" source) in
    if has_key "model_name" source
    then some source
    else if has_only
        ("version" ∷ "ree_version" ∷ "model" ∷ "input" ∷ "output" ∷ "execution" ∷ "hashes" ∷ [])
        source
    then nested
    else none

module _ (lib : ReceiptLibrary) where
  -- `parse_ree_receipt`; `none` is one of the exceptions that its callers catch.
  unfoldable pub parse_ree_receipt : Fields → Option ReeReceipt
  unfolding normalize_receipt_data
  parse_ree_receipt source = elim (normalize_receipt_data source) [
    | none ↦ none
    | some source ↦ lib.model_validate source
  ]

  unfoldable pub compute_receipt_hash : String → String → String → String → String → String
  compute_receipt_hash commit_hash config_hash prompt_hash parameters_hash tokens_hash =
      let components =
        join "|" (commit_hash ∷ config_hash ∷ prompt_hash ∷ parameters_hash ∷ tokens_hash ∷ []) in
      fstring ("sha256:" ∷ lib.sha256_digits components ∷ [])
