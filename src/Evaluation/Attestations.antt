-- ===== src/Evaluation/Attestations.antt =====
-- Hashing, signing and verification of attestations (app/evaluation/attestations.py, and the signing
-- of app/nodes/verifier/service.py).
pub mod Roundtrip
use signal_count.Base.{
  String, Bool, true, false, not, ◌&&◌, ◌||◌, Option, none, some, [], ◌∷◌, ◌==◌, string_eq,
  if◌then◌else◌,
}
use signal_count.Base.Json.{Json, obj, str, field, end}
use signal_count.Base.Text.{fstring, is_empty, lower}
use signal_count.Base.Outcome.{Outcome, ok, err, ◌>>=◌, or_raise}
use signal_count.Schemas.{VerificationAttestation}
use signal_count.Identity.Hashing.{Crypto, canonical_json_hash}

pub data AttestationError : Type 0 where
  invalid_key : AttestationError

-- An attestation without the four fields of its signature.
abbrev pub unsigned : {F : Type 0} → VerificationAttestation F → VerificationAttestation F
unsigned a = record a {
  verifier = none;
  attestation_hash = none;
  verifier_signature = none;
  signature_algorithm = none;
}

abbrev pub text_of_option : Option String → String
text_of_option none = ""
text_of_option (some s) = s

-- `dump` is `model_dump(mode="json")`; the excluded fields do not reach it.
module _ {F : Type 0} (crypto : Crypto F) (dump : VerificationAttestation F → Json) where
  open crypto use {dumps, address_of, sign, recover}

  unfoldable pub verification_attestation_hash : VerificationAttestation F → String
  verification_attestation_hash a = canonical_json_hash crypto (dump (unsigned a))

  -- `verification_attestation_message`, as the text of the EIP-191 message.
  unfoldable pub verification_attestation_message : String → String
  verification_attestation_message attestation_hash = dumps (
      obj (
        field "domain" (str "signal-count.verifier-attestation")
          (field "attestation_hash" (str attestation_hash) end)))

  -- `_sign_if_configured`
  unfoldable pub sign_if_configured :
      String → VerificationAttestation F → Outcome AttestationError (VerificationAttestation F)
  unfolding verification_attestation_hash verification_attestation_message
  sign_if_configured key a = if is_empty key then ok a else do
    let attestation_hash = verification_attestation_hash a
    signer ← or_raise (address_of key) invalid_key
    ok (record a {
      verifier = some signer;
      attestation_hash = some attestation_hash;
      verifier_signature =
          some (fstring ("0x" ∷ sign (verification_attestation_message attestation_hash) key ∷ []));
      signature_algorithm = some "eip191";
    })

  abbrev recovers : String → Option String → Bool
  recovers verifier none = false
  recovers verifier (some recovered) = lower recovered == lower verifier

  -- `verify_verification_attestation`: an exception of the recovery is `False`.
  unfoldable pub verify_verification_attestation : VerificationAttestation F → Bool
  unfolding verification_attestation_hash verification_attestation_message
  verify_verification_attestation a =
      let given = text_of_option a.attestation_hash in
      let verifier = text_of_option a.verifier in
      let signature = text_of_option a.verifier_signature in
      if not (text_of_option a.signature_algorithm == "eip191")
        || is_empty verifier
        || is_empty given
        || is_empty signature
      then false
      else if not (lower (verification_attestation_hash a) == lower given)
      then false
      else recovers verifier (recover (verification_attestation_message given) signature)
