-- ===== src/Tamper/Detector/Agreement.antt =====
-- How the detector of app/tamper/detector.py relates to the verification of app/identity/signing.py.
use signal_count.Base.{
  String, ◌≡◌, refl, sym, ap, ◌∙◌, subst, inl, inr, Bool, true, false, ◌&&◌, Option, none, some, [],
  ◌==◌, string_eq, if◌then◌else◌, Option-cases, arith,
}
use signal_count.Base.Text.{lower}
use signal_count.Base.Outcome.{Outcome, ok, err, ok_inj, >>=-ok}
use signal_count.Schemas.{SignedAgentExecution, AgentIdentity}
use signal_count.Identity.Hashing.{Crypto, task_hash, output_hash}
use signal_count.Identity.Signing.{
  SigningError, normalize_identity, is_bound, is_signed, recovers_to,
  response_wallet_matches_identity, same_wallet, recover_execution_signer, verify_signed_execution,
}
use signal_count.Ree.Receipts.{ReceiptLibrary}
use signal_count.Ree.Claims.{check_receipt_claim}
use signal_count.Tamper.Detector.{
  CheckResult, DetectionResult, result_of, detect_tampering, check_response_wallet_matches_identity,
  check_signature_recovers_signer, failed_names, all_checks, wallet_check, wallet_result,
}

module _ {F : Type 0} (crypto : Crypto F) (lib : ReceiptLibrary)
    (message_of : SigningError → String) (e : SignedAgentExecution F) where
  open crypto use {checksum, checksum_lower, checksum_case}

  abbrev with_wallet : String → AgentIdentity
  with_wallet wallet = record (e.identity) { wallet = wallet }

  is_signed_lem :
      (identity : AgentIdentity)
      → is_signed crypto e identity ≡ ok true
      → (response_wallet_matches_identity crypto e.response identity ≡ ok true)
        × ((e.signature.task_hash == task_hash crypto e.task) ≡ true)
        × ((e.signature.output_hash == output_hash crypto e.response) ≡ true)
        × (recovers_to crypto e.signature.signer (recover_execution_signer crypto e) ≡ true)
  unfolding is_signed
  is_signed_lem identity h =
      let (matches, m, rest) =
        >>=-ok (response_wallet_matches_identity crypto e.response identity) _ h in
      let (a, b, c, d) =
        all_true matches (e.signature.task_hash == task_hash crypto e.task)
          (e.signature.output_hash == output_hash crypto e.response)
          (recovers_to crypto e.signature.signer (recover_execution_signer crypto e))
          (ok_inj rest) in
      (m ∙ ap ok a, b, c, d)
    where
      all_true :
          (a b c d : Bool)
          → (a && b && c && d) ≡ true
          → (a ≡ true) × (b ≡ true) × (c ≡ true) × (d ≡ true)
      all_true a b c d h = ground arith

  recovered_by :
      (signer : String) (o : Outcome SigningError String)
      → recovers_to crypto signer o ≡ true
      → (recovered : String) × (o ≡ ok recovered) × ((lower recovered == lower signer) ≡ true)
  recovered_by signer (ok r) h = (r, refl, h)
  recovered_by signer (err x) h = cc

  normalized :
      (identity : AgentIdentity)
      → normalize_identity crypto e.identity ≡ ok identity
      → (wallet : String) × (checksum e.identity.wallet ≡ some wallet)
        × (with_wallet wallet ≡ identity)
  unfolding normalize_identity
  normalized identity h = elim (Option-cases (checksum e.identity.wallet)) [
    | inl fails ↦ let bad = rw fails at h in cc
    | inr (wallet, w) ↦ (wallet, w, ok_inj (rw w at h))
  ]

  both_true :
      (b : Bool) (o : Outcome SigningError Bool)
      → ◌≡◌ {A = Outcome SigningError Bool} (if b then o else ok false) (ok true)
      → (b ≡ true) × (o ≡ ok true)
  both_true true o h = (refl, h)
  both_true false o h = cc

  verify_lem :
      verify_signed_execution crypto e ≡ ok true
      → (wallet : String) × (checksum e.identity.wallet ≡ some wallet)
        × (is_bound crypto e (with_wallet wallet) ≡ true)
        × (is_signed crypto e (with_wallet wallet) ≡ ok true)
  unfolding verify_signed_execution
  verify_lem h =
      let test : AgentIdentity → Outcome SigningError Bool =
        λ identity. if is_bound crypto e identity then is_signed crypto e identity else ok false in
      let (identity, n, k) = >>=-ok (normalize_identity crypto e.identity) test h in
      let (wallet, w, same) = normalized identity n in
      let (b, c) = both_true (is_bound crypto e identity) (is_signed crypto e identity) k in
      (
        wallet,
        w,
        subst (λ i. is_bound crypto e i ≡ true) (sym same) b,
        subst (λ i. is_signed crypto e i ≡ ok true) (sym same) c,
      )

  bound_lem :
      (wallet : String)
      → is_bound crypto e (with_wallet wallet) ≡ true
      → ((e.signature.algorithm == "eip191") ≡ true)
        × ((e.identity.role == e.response.node_role) ≡ true)
        × ((e.identity.peer_id == e.response.peer_id) ≡ true)
        × ((lower e.signature.signer == lower wallet) ≡ true)
  bound_lem wallet h = ground (
    arith,
    string_eq.beq_iff e.identity.role e.response.node_role,
    string_eq.beq_iff e.response.node_role e.identity.role,
    string_eq.beq_iff e.identity.peer_id e.response.peer_id,
    string_eq.beq_iff e.response.peer_id e.identity.peer_id,
  )

  same_lower : (a b : String) → (a == b) ≡ true → (lower a == lower b) ≡ true
  same_lower a b h =
      (string_eq.beq_iff (lower a) (lower b)).1 (ap lower ((string_eq.beq_iff a b).0 h))

  wallet_cases :
      (declared : Option String) (wallet : String)
      → checksum wallet ≡ some wallet
      → same_wallet crypto declared wallet ≡ ok true
      → (c : CheckResult) × (wallet_check crypto lib message_of e declared wallet ≡ ok c)
        × (c.passed ≡ true)
  wallet_cases none wallet twice h =
      (wallet_result crypto lib message_of e true wallet "not_declared", refl, refl)
  wallet_cases (some w) wallet twice h = elim (Option-cases (checksum w)) [
    | inl fails ↦ let bad = rw fails at h in cc
    | inr (response_wallet, found) ↦ (
      wallet_result crypto lib message_of e (response_wallet == wallet) wallet response_wallet,
      rw found refl,
      ok_inj (rw (found, twice) at h),
    )
  ]

  -- The wallet that is compared with the identity's is checksummed in both.
  wallet_passes :
      (wallet : String)
      → checksum e.identity.wallet ≡ some wallet
      → response_wallet_matches_identity crypto e.response (with_wallet wallet) ≡ ok true
      → (c : CheckResult) × (check_response_wallet_matches_identity crypto lib message_of e ≡ ok c)
        × (c.passed ≡ true)
  unfolding response_wallet_matches_identity check_response_wallet_matches_identity
  wallet_passes wallet w h =
      let twice =
        checksum_case wallet e.identity.wallet (checksum_lower e.identity.wallet wallet w) ∙ w in
      let (c, found, passed) = wallet_cases e.response.agent_wallet wallet twice h in
      (c, rw w found, passed)

  recovery_passes :
      (wallet recovered : String)
      → checksum e.identity.wallet ≡ some wallet
      → (lower e.signature.signer == lower wallet) ≡ true
      → recover_execution_signer crypto e ≡ ok recovered
      → (lower recovered == lower e.signature.signer) ≡ true
      → (c : CheckResult) × (check_signature_recovers_signer crypto lib message_of e ≡ ok c)
        × (c.passed ≡ true)
  unfolding check_signature_recovers_signer
  recovery_passes wallet recovered w signer recovers same =
      let lowered = (string_eq.beq_iff (lower e.signature.signer) (lower wallet)).0 signer in
      let of_signer =
        checksum_case e.signature.signer e.identity.wallet
          (lowered ∙ checksum_lower e.identity.wallet wallet w)
        ∙ w in
      let claimed = (string_eq.beq_iff (lower wallet) (lower recovered)).1 (
        sym lowered
        ∙ sym ((string_eq.beq_iff (lower recovered) (lower e.signature.signer)).0 same)) in
      (
        record {
          name = "signature_recovers_signer";
          passed = lower wallet == lower recovered;
          detail = "EIP-191 recovery must return envelope.signer";
          expected = some wallet;
          observed = some recovered;
        },
        rw (recovers, of_signer) refl,
        claimed,
      )

  all_pass :
      (c d : CheckResult)
      → (lower e.signature.output_hash == lower (output_hash crypto e.response)) ≡ true
      → (lower e.signature.task_hash == lower (task_hash crypto e.task)) ≡ true
      → (e.identity.role == e.response.node_role) ≡ true
      → (e.identity.peer_id == e.response.peer_id) ≡ true
      → (lower e.signature.signer == lower e.identity.wallet) ≡ true
      → c.passed ≡ true
      → d.passed ≡ true
      → (check_receipt_claim lib e.response).valid ≡ true
      → (e.signature.algorithm == "eip191") ≡ true
      → failed_names (all_checks crypto lib message_of e c d) ≡ []
  all_pass c d p1 p2 p3 p4 p5 p6 p7 p8 p9 = rw (p1, p2, p3, p4, p5, p6, p7, p8, p9) refl

  detected :
      (c d : CheckResult)
      → check_response_wallet_matches_identity crypto lib message_of e ≡ ok c
      → check_signature_recovers_signer crypto lib message_of e ≡ ok d
      → detect_tampering crypto lib message_of e
        ≡ ok (result_of (all_checks crypto lib message_of e c d))
  unfolding detect_tampering
  detected c d p q = rw (p, q) refl

  -- What the verification accepts, the detector calls clean, when the receipt's claim is valid.
  pub verified-is_clean :
      verify_signed_execution crypto e ≡ ok true
      → (check_receipt_claim lib e.response).valid ≡ true
      → (r : DetectionResult) × (detect_tampering crypto lib message_of e ≡ ok r)
        × (r.status ≡ "clean")
        × (r.failed_check_names ≡ [])
  unfolding detect_tampering result_of
  verified-is_clean h valid =
      let (wallet, w, b, signed) = verify_lem h in
      let (algorithm, role, peer, signer) = bound_lem wallet b in
      let (matches, t, o, rec) = is_signed_lem (with_wallet wallet) signed in
      let (recovered, recovers, same) =
        recovered_by e.signature.signer (recover_execution_signer crypto e) rec in
      let (c, c_eq, c_passed) = wallet_passes wallet w matches in
      let (d, d_eq, d_passed) = recovery_passes wallet recovered w signer recovers same in
      let task_ok = same_lower e.signature.task_hash (task_hash crypto e.task) t in
      let output_ok = same_lower e.signature.output_hash (output_hash crypto e.response) o in
      let signer_ok = (string_eq.beq_iff (lower e.signature.signer) (lower e.identity.wallet)).1 (
        (string_eq.beq_iff (lower e.signature.signer) (lower wallet)).0 signer
        ∙ checksum_lower e.identity.wallet wallet w) in
      let none_failed =
        all_pass c d output_ok task_ok role peer signer_ok c_passed d_passed valid algorithm in
      (
        result_of (all_checks crypto lib message_of e c d),
        detected c d c_eq d_eq,
        rw none_failed refl,
        none_failed,
      )
