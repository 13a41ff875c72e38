-- ===== src/Tamper/Adversarial/Detected.antt =====
-- What the detector of app/tamper/detector.py makes of the mutations of app/tamper/adversarial.py.
use signal_count.Base.{
  String, ◌≡◌, refl, ap, ◌∙◌, sym, subst, inl, inr, Bool, true, false, not, some, is_mem, ◌==◌,
  string_eq, if◌then◌else◌, Bool-cases,
}
use signal_count.Base.Text.{lower, strip}
use signal_count.Base.Outcome.{ok, >>=-ok, ok_inj, or_raise-ok}
use signal_count.Schemas.{SignedAgentExecution}
use signal_count.Identity.Hashing.{Crypto, output_hash}
use signal_count.Identity.Signing.{SigningError, to_checksum_address, invalid_address}
use signal_count.Ree.Receipts.{ReceiptLibrary}
use signal_count.Ree.Claims.{check_receipt_claim, claimed_status, check_status}
use signal_count.Tamper.Detector.{
  CheckResult, all_checks, detect_tampering, check_response_wallet_matches_identity,
  check_signature_recovers_signer, check_output_hash, check_identity_role,
  check_signer_matches_identity, check_receipt_consistency,
}
use signal_count.Tamper.Adversarial.{
  field_tamper_after_sign, signer_swap_in_envelope, agent_wallet_substitution, role_substitution,
  receipt_status_overclaim,
}
use signal_count.Tamper.Adversarial.Naming.{
  HasAddresses, IsAddress, IsDetected, IsNamed, IsNamed-IsDetected, IsNamed-Has, result_of-Has,
}

module _ {F : Type 0} (crypto : Crypto F) (lib : ReceiptLibrary)
    (message_of : SigningError → String) where
  role_substitution-IsNamed :
      (honest : SignedAgentExecution F)
      → IsNamed crypto lib message_of "identity_role_match" (role_substitution honest)
  unfolding role_substitution
  role_substitution-IsNamed honest =
      IsNamed-Has crypto lib message_of (role_substitution honest)
        (check_identity_role crypto lib message_of (role_substitution honest))
        (λ w r. inr (inr (inl refl))) (other (honest.identity.role == "narrative") refl)
    where
      other :
          (b : Bool)
          → honest.identity.role == "narrative" ≡ b
          → (honest.identity.role == (if not b then "narrative" else "risk")) ≡ false
      other true is_narrative =
          ap (λ r. r == "risk")
            ((string_eq.beq_iff honest.identity.role "narrative").0 is_narrative)
      other false is_other = is_other

  field_tamper_after_sign-IsNamed :
      (honest : SignedAgentExecution F)
      → (lower honest.signature.output_hash
          == lower (output_hash crypto (field_tamper_after_sign honest).response))
        ≡ false
      → IsNamed crypto lib message_of "output_hash_match" (field_tamper_after_sign honest)
  unfolding field_tamper_after_sign
  field_tamper_after_sign-IsNamed honest differs =
      IsNamed-Has crypto lib message_of (field_tamper_after_sign honest)
        (check_output_hash crypto lib message_of (field_tamper_after_sign honest)) (λ w r. inl refl)
        differs

  signer_swap_in_envelope-IsNamed :
      (honest : SignedAgentExecution F) (attacker : String)
      → (lower attacker == lower honest.identity.wallet) ≡ false
      → IsNamed crypto lib message_of "signer_equals_identity_wallet"
          (signer_swap_in_envelope honest attacker)
  unfolding signer_swap_in_envelope
  signer_swap_in_envelope-IsNamed honest attacker differs =
      IsNamed-Has crypto lib message_of (signer_swap_in_envelope honest attacker)
        (check_signer_matches_identity crypto lib message_of
          (signer_swap_in_envelope honest attacker))
        (λ w r. inr (inr (inr (inr (inl refl))))) differs

  receipt_status_overclaim-IsNamed :
      (honest : SignedAgentExecution F)
      → IsNamed crypto lib message_of "receipt_consistency" (receipt_status_overclaim honest)
  unfolding receipt_status_overclaim check_receipt_claim claimed_status check_status strip lower
  receipt_status_overclaim-IsNamed honest =
      IsNamed-Has crypto lib message_of (receipt_status_overclaim honest)
        (check_receipt_consistency crypto lib message_of (receipt_status_overclaim honest))
        (λ w r. inr (inr (inr (inr (inr (inr (inr (inl refl)))))))) refl

  -- Checksums of addresses that differ in more than case differ.
  checksum_apart :
      (a b x y : String)
      → crypto.checksum a ≡ some x
      → crypto.checksum b ≡ some y
      → (lower a == lower b) ≡ false
      → (x == y) ≡ false
  checksum_apart a b x y of_a of_b differs = elim (Bool-cases (x == y)) [
    | inl same ↦
        let equal : lower a ≡ lower b =
          sym (crypto.checksum_lower a x of_a)
          ∙ ap lower ((string_eq.beq_iff x y).0 same)
          ∙ crypto.checksum_lower b y of_b in
        let back = (string_eq.beq_iff (lower a) (lower b)).1 equal in cc
    | inr apart ↦ apart
  ]

  substituted-fails :
      (honest : SignedAgentExecution F) (attacker : String) (wallet : CheckResult)
      → (lower attacker == lower honest.identity.wallet) ≡ false
      → check_response_wallet_matches_identity crypto lib message_of
          (agent_wallet_substitution honest attacker)
        ≡ ok wallet
      → (wallet.passed ≡ false) × (wallet.name ≡ "response_wallet_matches_identity")
  unfolding check_response_wallet_matches_identity agent_wallet_substitution
  substituted-fails honest attacker wallet differs made =
      let (own, of_own, rest) = >>=-ok (to_checksum_address crypto honest.identity.wallet) _ made in
      let (other, of_other, last) = >>=-ok (to_checksum_address crypto attacker) _ rest in
      let apart =
        checksum_apart attacker honest.identity.wallet other own
          (or_raise-ok _ invalid_address of_other) (or_raise-ok _ invalid_address of_own) differs in
      let same = ok_inj last in (ap (λ c. c.passed) (sym same) ∙ apart, ap (λ c. c.name) (sym same))

  agent_wallet_substitution-IsNamed :
      (honest : SignedAgentExecution F) (attacker : String)
      → (lower attacker == lower honest.identity.wallet) ≡ false
      → IsNamed crypto lib message_of "response_wallet_matches_identity"
          (agent_wallet_substitution honest attacker)
  unfolding IsNamed detect_tampering
  agent_wallet_substitution-IsNamed honest attacker differs r made =
      let e = agent_wallet_substitution honest attacker in
      let (wallet, w, rest) =
        >>=-ok (check_response_wallet_matches_identity crypto lib message_of e) _ made in
      let (recovery, s, last) =
        >>=-ok (check_signature_recovers_signer crypto lib message_of e) _ rest in
      let (failed, named) = substituted-fails honest attacker wallet differs w in
      subst (λ n. (r.status ≡ "tampered") × (is_mem n r.failed_check_names ≡ true)) named
        (subst (λ x. (x.status ≡ "tampered") × (is_mem wallet.name x.failed_check_names ≡ true))
          (ok_inj last)
          (result_of-Has crypto lib message_of wallet
            (all_checks crypto lib message_of e wallet recovery)
            (inr (inr (inr (inr (inr (inl refl)))))) failed))

  -- If the wallets, the signer and the attacker's wallet are addresses, the detector gives a result for
  -- each attack and names the check that the attack is to fail: for the changed role and the overclaimed
  -- receipt always, for the attacker's address if it is not the identity's in another case, and for the
  -- changed summary if its hash is another.
  pub attacks-IsDetected :
      (honest : SignedAgentExecution F) (attacker : String)
      → HasAddresses crypto lib message_of honest
      → IsAddress crypto lib message_of attacker
      → (lower attacker == lower honest.identity.wallet) ≡ false
      → (lower honest.signature.output_hash
          == lower (output_hash crypto (field_tamper_after_sign honest).response))
        ≡ false
      → IsDetected crypto lib message_of "identity_role_match" (role_substitution honest)
        × IsDetected crypto lib message_of "receipt_consistency" (receipt_status_overclaim honest)
        × IsDetected crypto lib message_of "signer_equals_identity_wallet"
            (signer_swap_in_envelope honest attacker)
        × IsDetected crypto lib message_of "response_wallet_matches_identity"
            (agent_wallet_substitution honest attacker)
        × IsDetected crypto lib message_of "output_hash_match" (field_tamper_after_sign honest)
  unfolding role_substitution receipt_status_overclaim signer_swap_in_envelope
      agent_wallet_substitution field_tamper_after_sign
  attacks-IsDetected honest attacker (wallet, signer, agent) other other_wallet other_hash = (
    IsNamed-IsDetected crypto lib message_of _ (role_substitution honest) (wallet, signer, agent)
        (role_substitution-IsNamed honest),
    IsNamed-IsDetected crypto lib message_of _ (receipt_status_overclaim honest)
        (wallet, signer, agent) (receipt_status_overclaim-IsNamed honest),
    IsNamed-IsDetected crypto lib message_of _ (signer_swap_in_envelope honest attacker)
        (wallet, other, agent) (signer_swap_in_envelope-IsNamed honest attacker other_wallet),
    IsNamed-IsDetected crypto lib message_of _ (agent_wallet_substitution honest attacker)
        (wallet, signer, other) (agent_wallet_substitution-IsNamed honest attacker other_wallet),
    IsNamed-IsDetected crypto lib message_of _ (field_tamper_after_sign honest)
        (wallet, signer, agent) (field_tamper_after_sign-IsNamed honest other_hash),
  )
