-- ===== src/Identity/Roundtrip.antt =====
-- The verification of what app/identity/signing.py signs.
use signal_count.Base.{
  String, ◌≡◌, refl, sym, ap, ◌∙◌, subst, Bool, true, some, ◌==◌, string_eq, [], ◌∷◌, beq_refl, inl,
  inr, Option-cases,
}
use signal_count.Base.Text.{fstring, lower}
use signal_count.Base.Outcome.{Outcome, ok, ◌>>◌, >>=-ok, ok_inj, >>-eq-ok, guard-eq-ok, guard}
use signal_count.Schemas.{TaskSpec, SpecialistResponse, AgentIdentity, SignedAgentExecution}
use signal_count.Identity.Hashing.{Crypto, task_hash, output_hash}
use signal_count.Identity.Signing.{
  SigningError, wallet_address_from_private_key, normalize_identity,
  response_wallet_matches_identity, signable_message, sign_agent_execution,
  recover_execution_signer, is_signed, verify_signed_execution, key_mismatch, job_id_mismatch,
  role_mismatch, peer_id_mismatch, wallet_mismatch,
}

module _ {F : Type 0} (crypto : Crypto F) where
  open crypto use {
    dumps, checksum, address_of, sign, recover, checksum_lower, checksum_case, address_checksummed,
    recover_sign,
  }

  -- A checksummed address is its own checksum.
  checksum_twice : (a b : String) → checksum a ≡ some b → checksum b ≡ some b
  checksum_twice a b h = checksum_case b a (checksum_lower a b h) ∙ h

  -- What signing comes to when it succeeds.
  record Signed (task : TaskSpec) (response : SpecialistResponse F) (given : AgentIdentity)
      (key : String) (e : SignedAgentExecution F) : Type 0 where
    signer : String
    wallet : String
    message : String
    by_key : address_of key ≡ some signer
    checksummed : checksum given.wallet ≡ some wallet
    same_signer : (lower signer == lower wallet) ≡ true
    same_job : (task.job_id == response.job_id) ≡ true
    same_role : (response.node_role == given.role) ≡ true
    same_peer : (response.peer_id == given.peer_id) ≡ true
    same_wallet :
        response_wallet_matches_identity crypto response (record given { wallet = wallet })
        ≡ ok true
    digested :
        signable_message crypto
          (record given { wallet = wallet })
          signer
          (task_hash crypto task)
          (output_hash crypto response)
        ≡ ok message
    result : e ≡ record {
      task = task;
      identity = record given { wallet = wallet };
      response = response;
      signature = record {
        signer = signer;
        task_hash = task_hash crypto task;
        output_hash = output_hash crypto response;
        signature = fstring ("0x" ∷ sign message key ∷ []);
        algorithm = "eip191";
      };
    }

  guard_passed :
      {A : Type 0} (b : Bool) (x : SigningError) (rest : Outcome SigningError A) {a : A}
      → (guard b x >> rest) ≡ ok a
      → (b ≡ true) × (rest ≡ ok a)
  guard_passed b x rest h =
      let both = (>>-eq-ok (guard b x) rest _).0 h in ((guard-eq-ok b x).0 both.0, both.1)

  sign_agent_execution-Signed :
      (task : TaskSpec) (response : SpecialistResponse F) (given : AgentIdentity) (key : String)
      (e : SignedAgentExecution F)
      → sign_agent_execution crypto task response given key ≡ ok e
      → Signed task response given key e
  unfolding sign_agent_execution normalize_identity wallet_address_from_private_key
  sign_agent_execution-Signed task response given key e h = elim (Option-cases (address_of key)) [
    | inl none_found ↦ let bad = rw none_found at h in cc
    | inr (signer, a) ↦ elim (Option-cases (checksum given.wallet)) [
      | inl none_found ↦ let bad = rw (a, none_found) at h in cc
      | inr (wallet, b) ↦
          let k = rw (a, b) at h in
          let (one, k1) = guard_passed (lower signer == lower wallet) key_mismatch _ k in
          let (two, k2) = guard_passed (task.job_id == response.job_id) job_id_mismatch _ k1 in
          let (three, k3) = guard_passed (response.node_role == given.role) role_mismatch _ k2 in
          let (four, k4) = guard_passed (response.peer_id == given.peer_id) peer_id_mismatch _ k3 in
          let identity : AgentIdentity = record given { wallet = wallet } in
          let (matches, five, k5) =
            >>=-ok (response_wallet_matches_identity crypto response identity) _ k4 in
          let (six, k6) = guard_passed matches wallet_mismatch _ k5 in
          let (message, seven, k7) =
            >>=-ok
              (signable_message crypto identity signer (task_hash crypto task)
                (output_hash crypto response))
              _ k6 in
          record {
            signer = signer;
            wallet = wallet;
            message = message;
            by_key = a;
            checksummed = b;
            same_signer = one;
            same_job = two;
            same_role = three;
            same_peer = four;
            same_wallet = five ∙ ap ok six;
            digested = seven;
            result = sym (ok_inj k7);
          }
    ]
  ]

  module _ (task : TaskSpec) (response : SpecialistResponse F) (given : AgentIdentity)
      (key signer wallet message : String) (by_key : address_of key ≡ some signer)
      (checksummed : checksum given.wallet ≡ some wallet)
      (digested : signable_message crypto
          (record given { wallet = wallet })
          signer
          (task_hash crypto task)
          (output_hash crypto response)
        ≡ ok message) where
    abbrev envelope : SignedAgentExecution F
    envelope = record {
      task = task;
      identity = record given { wallet = wallet };
      response = response;
      signature = record {
        signer = signer;
        task_hash = task_hash crypto task;
        output_hash = output_hash crypto response;
        signature = fstring ("0x" ∷ sign message key ∷ []);
        algorithm = "eip191";
      };
    }

    envelope-recovers : recover_execution_signer crypto envelope ≡ ok signer
    unfolding recover_execution_signer normalize_identity
    envelope-recovers =
        rw
          (
            checksum_twice given.wallet wallet checksummed,
            address_checksummed key signer by_key,
            digested,
            recover_sign message key signer by_key,
            address_checksummed key signer by_key,
          )
          refl

    envelope-verifies :
        (lower signer == lower wallet) ≡ true
        → (task.job_id == response.job_id) ≡ true
        → (response.node_role == given.role) ≡ true
        → (response.peer_id == given.peer_id) ≡ true
        → response_wallet_matches_identity crypto response (record given { wallet = wallet })
          ≡ ok true
        → verify_signed_execution crypto envelope ≡ ok true
    unfolding verify_signed_execution normalize_identity is_signed
    envelope-verifies a b c d matches =
        rw
          (
            checksum_twice given.wallet wallet checksummed,
            a,
            b,
            c,
            d,
            matches,
            beq_refl (task_hash crypto task),
            beq_refl (output_hash crypto response),
            address_checksummed key signer by_key,
            digested,
            recover_sign message key signer by_key,
            address_checksummed key signer by_key,
            beq_refl (lower signer),
          )
          refl

  -- A signed execution passes the verification, and its signature recovers to the key's address.
  pub sign_agent_execution-verifies :
      (task : TaskSpec) (response : SpecialistResponse F) (given : AgentIdentity) (key : String)
      (e : SignedAgentExecution F)
      → sign_agent_execution crypto task response given key ≡ ok e
      → (verify_signed_execution crypto e ≡ ok true)
        × ((signer : String) × (address_of key ≡ some signer)
            × (recover_execution_signer crypto e ≡ ok signer)
            × (lower given.wallet ≡ lower signer))
  sign_agent_execution-verifies task response given key e h =
      let s = sign_agent_execution-Signed task response given key e h in
      let recovers =
        envelope-recovers task response given key s.signer s.wallet s.message s.by_key s.checksummed
          s.digested in
      let verifies =
        envelope-verifies task response given key s.signer s.wallet s.message s.by_key s.checksummed
          s.digested s.same_signer s.same_job s.same_role s.same_peer s.same_wallet in
      let same = (string_eq.beq_iff (lower s.signer) (lower s.wallet)).0 s.same_signer in
      (
        subst (λ x. verify_signed_execution crypto x ≡ ok true) (sym s.result) verifies,
        (
          s.signer,
          s.by_key,
          subst (λ x. recover_execution_signer crypto x ≡ ok s.signer) (sym s.result) recovers,
          sym (checksum_lower given.wallet s.wallet s.checksummed) ∙ sym same,
        ),
      )
