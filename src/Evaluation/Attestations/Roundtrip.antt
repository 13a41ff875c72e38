-- ===== src/Evaluation/Attestations/Roundtrip.antt =====
-- The verification of what the verifier signs (app/evaluation/attestations.py).
use signal_count.Base.{
  String, ◌≡◌, refl, ap, subst, inl, inr, true, false, some, [], ◌∷◌, string_eq, beq_refl,
  Option-cases,
}
use Prim.Native.String.{◌++◌}
use text.Mathlib.TextLemmas.{cons-append}
use signal_count.Base.Json.{Json}
use signal_count.Base.Text.{fstring, is_empty, lower}
use signal_count.Base.Outcome.{ok, ok_inj}
use signal_count.Schemas.{VerificationAttestation}
use signal_count.Identity.Hashing.{Crypto, canonical_json_hash}
use signal_count.Evaluation.Attestations.{
  verification_attestation_hash, verification_attestation_message, sign_if_configured,
  verify_verification_attestation,
}

prefixed : (s : String) → is_empty (fstring ("0x" ∷ s ∷ [])) ≡ false
prefixed s = ap is_empty (cons-append "0" "x" ("" ++ s))

module _ {F : Type 0} (crypto : Crypto F) (dump : VerificationAttestation F → Json) where
  -- An attestation that a verifier with a key signs verifies, if accounts have addresses that are not
  -- empty.
  pub sign_if_configured-verifies :
      (key : String) (a signed : VerificationAttestation F)
      → is_empty key ≡ false
      → ((signer : String) → crypto.address_of key ≡ some signer → is_empty signer ≡ false)
      → sign_if_configured crypto dump key a ≡ ok signed
      → verify_verification_attestation crypto dump signed ≡ true
  unfolding sign_if_configured verify_verification_attestation canonical_json_hash
  sign_if_configured-verifies key a signed given address h =
      elim (Option-cases (crypto.address_of key)) [
        | inl none_found ↦ let bad = rw (given, none_found) at h in cc
        | inr (signer, found) ↦
            let same = ok_inj (rw (given, found) at h) in
            subst (λ x. verify_verification_attestation crypto dump x ≡ true) same
              (rw
                (
                  address signer found,
                  prefixed _,
                  prefixed _,
                  beq_refl (lower (verification_attestation_hash crypto dump a)),
                  crypto.recover_sign
                      (verification_attestation_message crypto dump
                        (verification_attestation_hash crypto dump a))
                      key signer found,
                  beq_refl (lower signer),
                )
                refl)
      ]
