-- ===== src/Tamper/Adversarial/Naming.antt =====
-- When the detector of app/tamper/detector.py gives a result that names a failed check.
use signal_count.Base.{
  String, ◌≡◌, refl, sym, subst, ◌⊎◌, inl, inr, true, false, Option, none, some, List, [], ◌∷◌,
  is_mem, string_eq, beq_refl, Bool-cases, arith,
}
use signal_count.Base.Outcome.{Outcome, ok, err, >>=-ok, ok_inj, Ends, or_raise-Ends, >>=-Ends}
use signal_count.Schemas.{SignedAgentExecution}
use signal_count.Identity.Hashing.{Crypto}
use signal_count.Identity.Signing.{SigningError, to_checksum_address, recover_execution_signer}
use signal_count.Ree.Receipts.{ReceiptLibrary}
use signal_count.Tamper.Detector.{
  CheckResult, DetectionResult, is_nil, failed_names, result_of, all_checks, detect_tampering,
  check_response_wallet_matches_identity, check_signature_recovers_signer, wallet_check,
  recovery_check,
}

abbrev pub Has : CheckResult → List CheckResult → Type 0
Has c [] = ⊥
Has c (x ∷ xs) = (x ≡ c) ⊎ Has c xs

failed_names-Has :
    (c : CheckResult) (checks : List CheckResult)
    → Has c checks
    → c.passed ≡ false
    → is_mem c.name (failed_names checks) ≡ true
failed_names-Has c [] none_has failed = elim none_has [ ]
failed_names-Has c (x ∷ xs) (inl same) failed =
    subst (λ y. is_mem c.name (failed_names (y ∷ xs)) ≡ true) (sym same)
      (rw (failed, beq_refl c.name) refl)
failed_names-Has c (x ∷ xs) (inr later) failed = elim (Bool-cases x.passed) [
  | inl passed ↦ rw passed (failed_names-Has c xs later failed)
  | inr other ↦ rw other (ground (arith, failed_names-Has c xs later failed))
]

is_nil-is_mem : (n : String) (names : List String) → is_mem n names ≡ true → is_nil names ≡ false
is_nil-is_mem n [] h = cc
is_nil-is_mem n (x ∷ xs) h = refl

module _ {F : Type 0} (crypto : Crypto F) (lib : ReceiptLibrary)
    (message_of : SigningError → String) where
  -- A text that is an address.
  abbrev pub IsAddress : String → Type 0
  IsAddress a = (x : String) × (crypto.checksum a ≡ some x)

  abbrev pub IsAddressIf : Option String → Type 0
  IsAddressIf none = Unit
  IsAddressIf (some a) = IsAddress a

  -- The wallets and the signer of an execution are addresses.
  abbrev pub HasAddresses : SignedAgentExecution F → Type 0
  HasAddresses e =
      IsAddress e.identity.wallet
      × IsAddress e.signature.signer
      × IsAddressIf e.response.agent_wallet

  wallet_check-Ends :
      (e : SignedAgentExecution F) (agent_wallet : Option String) (wallet : String)
      → IsAddressIf agent_wallet
      → Ends (wallet_check crypto lib message_of e agent_wallet wallet)
  wallet_check-Ends e none wallet h = (_, refl)
  wallet_check-Ends e (some a) wallet (x, h) =
      >>=-Ends (to_checksum_address crypto a) _ (λ y of_y. (_, refl))
        (or_raise-Ends (crypto.checksum a) _ h)

  recovery_check-Ends :
      (e : SignedAgentExecution F) (o : Outcome SigningError String)
      → IsAddress e.signature.signer
      → Ends (recovery_check crypto lib message_of e o)
  recovery_check-Ends e (err x) h = (_, refl)
  recovery_check-Ends e (ok recovered) (x, h) =
      >>=-Ends (to_checksum_address crypto e.signature.signer) _ (λ y of_y. (_, refl))
        (or_raise-Ends (crypto.checksum e.signature.signer) _ h)

  detect_tampering-Ends :
      (e : SignedAgentExecution F)
      → HasAddresses e
      → Ends (detect_tampering crypto lib message_of e)
  unfolding detect_tampering check_response_wallet_matches_identity check_signature_recovers_signer
  detect_tampering-Ends e ((wallet, of_wallet), signer, agent) =
      >>=-Ends (check_response_wallet_matches_identity crypto lib message_of e) _
        (λ w of_w.
          >>=-Ends (check_signature_recovers_signer crypto lib message_of e) _ (λ c of_c. (_, refl))
            (recovery_check-Ends e (recover_execution_signer crypto e) signer))
        (>>=-Ends (to_checksum_address crypto e.identity.wallet) _
          (λ own of_own. wallet_check-Ends e e.response.agent_wallet own agent)
          (or_raise-Ends (crypto.checksum e.identity.wallet) _ of_wallet))

  -- The detector gives a result: it calls the execution tampered and names the failed check.
  unfoldable pub IsDetected : String → SignedAgentExecution F → Type 0
  IsDetected name e =
      (r : DetectionResult) × (detect_tampering crypto lib message_of e ≡ ok r)
      × (r.status ≡ "tampered")
      × (is_mem name r.failed_check_names ≡ true)

  unfoldable pub IsNamed : String → SignedAgentExecution F → Type 0
  IsNamed name e =
      (r : DetectionResult)
      → detect_tampering crypto lib message_of e ≡ ok r
      → (r.status ≡ "tampered") × (is_mem name r.failed_check_names ≡ true)

  pub IsNamed-IsDetected :
      (name : String) (e : SignedAgentExecution F)
      → HasAddresses e
      → IsNamed name e
      → IsDetected name e
  unfolding IsDetected IsNamed
  IsNamed-IsDetected name e addresses named =
      let (r, made) = detect_tampering-Ends e addresses in
      let (status, failed) = named r made in (r, made, status, failed)

  pub result_of-Has :
      (c : CheckResult) (checks : List CheckResult)
      → Has c checks
      → c.passed ≡ false
      → ((result_of checks).status ≡ "tampered")
        × (is_mem c.name (result_of checks).failed_check_names ≡ true)
  unfolding result_of
  result_of-Has c checks has failed =
      let named = failed_names-Has c checks has failed in
      (rw (is_nil-is_mem c.name (failed_names checks) named) refl, named)

  -- A check that fails whatever the wallet's and the signature's checks come to.
  pub IsNamed-Has :
      (e : SignedAgentExecution F) (c : CheckResult)
      → ((wallet recovery : CheckResult)
          → Has c (all_checks crypto lib message_of e wallet recovery))
      → c.passed ≡ false
      → IsNamed c.name e
  unfolding IsNamed detect_tampering
  IsNamed-Has e c has failed r made =
      let (wallet, w, rest) =
        >>=-ok (check_response_wallet_matches_identity crypto lib message_of e) _ made in
      let (recovery, s, last) =
        >>=-ok (check_signature_recovers_signer crypto lib message_of e) _ rest in
      subst (λ x. (x.status ≡ "tampered") × (is_mem c.name x.failed_check_names ≡ true))
        (ok_inj last)
        (result_of-Has c (all_checks crypto lib message_of e wallet recovery) (has wallet recovery)
          failed)
