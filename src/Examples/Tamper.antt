-- ===== src/Examples/Tamper.antt =====
-- A scheme of two addresses, to test app/tamper/adversarial.py with.
use signal_count.Base.{
  String, ℕ, ◌≡◌, refl, sym, ap, ◌∙◌, subst, inl, inr, true, false, Option, none, some, ◌==◌,
  string_eq, if◌then◌else◌, Bool-cases,
}
use signal_count.Base.Json.{Json, str}
use signal_count.Base.Text.{lower}
use signal_count.Schemas.{SignedAgentExecution}
use signal_count.Identity.Hashing.{Crypto, output_hash, canonical_json_hash}
use signal_count.Tamper.Adversarial.{
  field_tamper_after_sign, signer_swap_in_envelope, agent_wallet_substitution, role_substitution,
  receipt_status_overclaim,
}
use signal_count.Tamper.Adversarial.Detected.{attacks-IsDetected}
use signal_count.Tamper.Adversarial.Naming.{IsDetected}
use signal_count.Examples.Signing.{signed, no_receipts}

abbrev two_checksums : String → Option String
two_checksums a =
    if lower a == "0xa" then some "0xa" else if lower a == "0xb" then some "0xb" else none

two_checksums_lower : (a b : String) → two_checksums a ≡ some b → lower b ≡ lower a
unfolding lower
two_checksums_lower a b h = elim (Bool-cases (lower a == "0xa")) [
  | inl first ↦ of_one "0xa" refl (rw first at h) first
  | inr other ↦ elim (Bool-cases (lower a == "0xb")) [
    | inl second ↦ of_one "0xb" refl (rw (other, second) at h) second
    | inr neither ↦ let bad = rw (other, neither) at h in cc
  ]
]
  where
    some_inj : {x y : String} → some x ≡ some y → x ≡ y
    some_inj e = cc

    of_one :
        (x : String) → lower x ≡ x → some x ≡ some b → (lower a == x) ≡ true → lower b ≡ lower a
    of_one x own is_b same =
        ap lower (sym (some_inj is_b)) ∙ own ∙ sym ((string_eq.beq_iff (lower a) x).0 same)

is_first : {a : String} → some "0xa" ≡ some a → "0xa" ≡ a
is_first e = cc

first_checksum : two_checksums "0xa" ≡ some "0xa"
unfolding lower
first_checksum = refl

abbrev text_of_json : Json → String
text_of_json (str s) = s
text_of_json _ = "json"

-- The hash of a response is its summary.
abbrev scheme : Crypto ℕ
scheme = record {
  dumps = text_of_json;
  dump_response = λ r. str r.summary;
  keccak_digits = λ s. s;
  checksum = two_checksums;
  address_of = λ k. some "0xa";
  sign = λ m k. m;
  recover = λ m s. some "0xa";
  checksum_lower = two_checksums_lower;
  checksum_case = λ a b e.
      ap (λ x. if x == "0xa" then some "0xa" else if x == "0xb" then some "0xb" else none) e;
  address_checksummed = λ k a e. subst (λ x. two_checksums x ≡ some x) (is_first e) first_checksum;
  recover_sign = λ m k a e. e;
}

abbrev honest : SignedAgentExecution ℕ
honest = record signed { signature = record (signed.signature) { output_hash = "0xcalm" } }

addresses :
    ((x : String) × (two_checksums "0xa" ≡ some x))
    × ((x : String) × (two_checksums "0xb" ≡ some x))
unfolding lower
addresses = ((_, refl), (_, refl))

wallets_differ : (lower "0xb" == lower "0xa") ≡ false
unfolding lower
wallets_differ = refl

hashes_differ :
    (lower honest.signature.output_hash
      == lower (output_hash scheme (field_tamper_after_sign honest).response))
    ≡ false
unfolding lower output_hash canonical_json_hash field_tamper_after_sign
hashes_differ = refl

attacks-IsDetected_example :
    IsDetected scheme no_receipts (λ e. "") "identity_role_match" (role_substitution honest)
    × IsDetected scheme no_receipts
        (λ e. "")
        "receipt_consistency"
        (receipt_status_overclaim honest)
    × IsDetected scheme no_receipts
        (λ e. "")
        "signer_equals_identity_wallet"
        (signer_swap_in_envelope honest "0xb")
    × IsDetected scheme no_receipts
        (λ e. "")
        "response_wallet_matches_identity"
        (agent_wallet_substitution honest "0xb")
    × IsDetected scheme no_receipts (λ e. "") "output_hash_match" (field_tamper_after_sign honest)
attacks-IsDetected_example =
    attacks-IsDetected scheme no_receipts (λ e. "") honest "0xb" (addresses.0, addresses.0, tt)
      addresses.1 wallets_differ hashes_differ
