-- ===== src/Ree/Claims/Closed.antt =====
-- What the checks of app/ree/claims.py accept.
use signal_count.Base.{
  String, ◌≡◌, ◌⊎◌, refl, sym, ◌∙◌, inl, inr, Bool, true, false, ◌&&◌, not, Option, none, some,
  List, [], ◌∷◌, ◌++◌, is_mem, ◌==◌, string_eq, if◌then◌else◌, Bool-cases, Option-cases, arith,
}
use signal_count.Base.Json.{Fields}
use signal_count.Base.Text.{is_empty, lower}
use signal_count.Schemas.{SpecialistResponse}
use signal_count.Ree.Receipts.{ReeReceipt, ReceiptLibrary, parse_ree_receipt}
use signal_count.Ree.Validator.{
  ReeValidationResult, validate_ree_receipt, failure_reasons, component_reason, receipt_digest,
  prompt_digest, parameters_digest, tokens_digest, hash_matches,
}
use signal_count.Ree.Claims.{
  or_blank, is_no_reason, metadata_reasons, receipt_reasons, read_body, missing, unparsable, parsed,
  claim_reasons, body_reasons, claimed_status, read_check, check_status, has_receipt_material,
  check_receipt_claim, requires_recomputation, Body,
}

none-append : (xs ys : List String) → (xs ++ ys) ≡ [] → (xs ≡ []) × (ys ≡ [])
none-append [] ys h = (refl, h)
none-append (x ∷ xs) ys h = cc

if_none : (b : Bool) (x : String) → (if b then [] else x ∷ []) ≡ [] → b ≡ true
if_none b x h = ground arith

if_some : (b : Bool) (x : String) → ◌≡◌ {A = List String} (if b then x ∷ [] else []) [] → b ≡ false
if_some b x h = ground arith

component_reason-matches :
    (unsupported : List String) (component : String) (matches : Bool)
    → component_reason unsupported component matches ≡ []
    → matches ≡ true
component_reason-matches unsupported component matches h = ground arith

failure_free :
    (v : ReeValidationResult)
    → failure_reasons v ≡ []
    → (v.receipt_hash_matches ≡ true)
      × (v.prompt_hash_matches ≡ true)
      × (v.parameters_hash_matches ≡ true)
      × (v.tokens_hash_matches ≡ true)
unfolding failure_reasons
failure_free v h =
    let us = v.unsupported_component_hashes in
    let tokens = component_reason us "tokens" v.tokens_hash_matches in
    let parameters = component_reason us "parameters" v.parameters_hash_matches in
    let prompt = component_reason us "prompt" v.prompt_hash_matches in
    let master : List String =
      if v.receipt_hash_matches then [] else "receipt_recomputation_failed" ∷ [] in
    let (a, rest) = none-append master (prompt ++ (parameters ++ tokens)) h in
    let (b, more) = none-append prompt (parameters ++ tokens) rest in
    let (c, d) = none-append parameters tokens more in
    (
      if_none v.receipt_hash_matches "receipt_recomputation_failed" a,
      component_reason-matches us "prompt" v.prompt_hash_matches b,
      component_reason-matches us "parameters" v.parameters_hash_matches c,
      component_reason-matches us "tokens" v.tokens_hash_matches d,
    )

list_of_no_reason : (xs : List String) → is_no_reason xs ≡ true → xs ≡ []
list_of_no_reason [] h = refl
list_of_no_reason (x ∷ xs) h = cc

module _ (lib : ReceiptLibrary) {F : Type 0} (response : SpecialistResponse F) where
  -- A receipt that the response embeds and that its claim is bound to.
  pub record Bound (receipt : ReeReceipt) : Type 0 where
    pub embedded :
        (body : Fields) × (response.ree_receipt_body ≡ some body)
        × (parse_ree_receipt lib body ≡ some receipt)
    pub declared : lower (or_blank response.ree_receipt_hash) ≡ lower receipt.receipt_hash
    pub recomputed : lower receipt.receipt_hash ≡ lower (receipt_digest lib receipt)
    pub prompt_bound : hash_matches receipt.prompt_hash (prompt_digest lib receipt) ≡ true
    pub parameters_bound :
        hash_matches receipt.parameters_hash (parameters_digest lib receipt) ≡ true
    pub tokens_bound : hash_matches receipt.tokens_hash (tokens_digest lib receipt) ≡ true
    pub prompt_named : lower (or_blank response.ree_prompt_hash) ≡ lower receipt.prompt_hash
    pub tokens_named : lower (or_blank response.ree_tokens_hash) ≡ lower receipt.tokens_hash
    pub model_named : or_blank response.ree_model_name ≡ receipt.model_name

  metadata_bound :
      (receipt : ReeReceipt)
      → metadata_reasons response receipt ≡ []
      → ((lower (or_blank response.ree_prompt_hash) == lower receipt.prompt_hash) ≡ true)
        × ((lower (or_blank response.ree_tokens_hash) == lower receipt.tokens_hash) ≡ true)
        × ((or_blank response.ree_model_name == receipt.model_name) ≡ true)
  unfolding metadata_reasons
  metadata_bound receipt h = ground arith

  -- A claim of local recomputation that is valid.
  recomputed :
      (receipt : ReeReceipt) (status : String)
      → requires_recomputation status ≡ true
      → receipt_reasons lib response status receipt ≡ []
      → (metadata_reasons response receipt ≡ [])
        × (failure_reasons (validate_ree_receipt lib receipt) ≡ [])
        × ((is_empty (or_blank response.ree_receipt_hash) ≡ true)
            ⊎ ((lower (or_blank response.ree_receipt_hash) == lower receipt.receipt_hash) ≡ true))
  unfolding receipt_reasons
  recomputed receipt status needs h =
      let declared = or_blank response.ree_receipt_hash in
      let same = lower declared == lower receipt.receipt_hash in
      let differs : List String =
        if not (is_empty declared) && not same then "receipt_hash_mismatch" ∷ [] else [] in
      let (a, rest) =
        none-append differs
          (metadata_reasons response receipt
            ++ (if requires_recomputation status
                then failure_reasons (validate_ree_receipt lib receipt)
                else []))
          h in
      let (b, c) = none-append (metadata_reasons response receipt) _ rest in
      (b, rw needs at c, either (is_empty declared) same a)
    where
      either :
          (x y : Bool)
          → ◌≡◌ {A = List String} (if not x && not y then "receipt_hash_mismatch" ∷ [] else []) []
          → (x ≡ true) ⊎ (y ≡ true)
      either x y e = ground arith

  bound :
      (body : Fields) (receipt : ReeReceipt) (status : String)
      → response.ree_receipt_body ≡ some body
      → parse_ree_receipt lib body ≡ some receipt
      → requires_recomputation status ≡ true
      → is_empty (or_blank response.ree_receipt_hash) ≡ false
      → receipt_reasons lib response status receipt ≡ []
      → Bound receipt
  unfolding validate_ree_receipt
  bound body receipt status has_body parses needs given h =
      let (metadata, validation, hash) = recomputed receipt status needs h in
      let (p, t, m) = metadata_bound receipt metadata in
      let (master, pb, ab, tb) = failure_free (validate_ree_receipt lib receipt) validation in
      record {
        embedded = (body, has_body, parses);
        declared = elim hash [ inl blank ↦ cc | inr same ↦ (string_eq.beq_iff _ _).0 same ];
        recomputed = (string_eq.beq_iff _ _).0 master;
        prompt_bound = pb;
        parameters_bound = ab;
        tokens_bound = tb;
        prompt_named = (string_eq.beq_iff _ _).0 p;
        tokens_named = (string_eq.beq_iff _ _).0 t;
        model_named = (string_eq.beq_iff _ _).0 m;
      }

  body_reason_free :
      (status : String) (o : Option Fields)
      → body_reasons lib response status (read_body lib o) ≡ []
      → (body : Fields) × (receipt : ReeReceipt) × (o ≡ some body)
        × (parse_ree_receipt lib body ≡ some receipt)
        × (receipt_reasons lib response status receipt ≡ [])
  body_reason_free status none h = cc
  body_reason_free status (some body) h = elim (Option-cases (parse_ree_receipt lib body)) [
    | inl fails ↦ let bad = rw (fails, read_body) at h in cc
    | inr (receipt, parses) ↦ (body, receipt, refl, parses, rw (parses, read_body) at h)
  ]

  -- A claim with no reason against it has a hash and a body that parses.
  reason_free :
      (status : String)
      → claim_reasons lib response status ≡ []
      → (is_empty (or_blank response.ree_receipt_hash) ≡ false)
        × ((status == "verified") ≡ false)
        × ((body : Fields) × (receipt : ReeReceipt) × (response.ree_receipt_body ≡ some body)
            × (parse_ree_receipt lib body ≡ some receipt)
            × (receipt_reasons lib response status receipt ≡ []))
  reason_free status h =
      let blank = is_empty (or_blank response.ree_receipt_hash) in
      let external = status == "verified" in
      let first : List String = if blank then "receipt_hash_missing" ∷ [] else [] in
      let last : List String =
        if external then "external_reexecution_evidence_missing" ∷ [] else [] in
      let middle = body_reasons lib response status (read_body lib response.ree_receipt_body) in
      let (a, rest) = none-append first (middle ++ last) h in
      let (b, c) = none-append middle last rest in
      (
        if_some blank "receipt_hash_missing" a,
        if_some external "external_reexecution_evidence_missing" c,
        body_reason_free status response.ree_receipt_body b,
      )

  read_check-status :
      (status : String) (reasons : List String) (b : Body)
      → ((read_check lib response status reasons b).status ≡ status)
        × ((read_check lib response status reasons b).valid ≡ is_no_reason reasons)
  read_check-status status reasons missing = (refl, refl)
  read_check-status status reasons unparsable = (refl, refl)
  read_check-status status reasons (parsed receipt) = (refl, refl)

  -- What a check says: no claim, a claim that is not valid, or the reasons found.
  checked :
      (status : String)
      → let check = check_status lib response status in
        (check.status ≡ "not_claimed")
        ⊎ ((check.valid ≡ false)
            ⊎ ((check.status ≡ status)
                × (check.valid ≡ is_no_reason (claim_reasons lib response status))))
  unfolding check_status
  checked status = elim (Bool-cases (is_empty status)) [
    | inl blank ↦ rw blank (
        inl (elim (Bool-cases (has_receipt_material response)) [
          | inl some_material ↦ rw some_material refl
          | inr none_given ↦ rw none_given refl
        ]))
    | inr given ↦ elim (Bool-cases (is_mem status ("parsed" ∷ "validated" ∷ "verified" ∷ []))) [
      | inl known ↦
          rw (given, known)
            (inr (
              inr (
                read_check-status status (claim_reasons lib response status)
                  (read_body lib response.ree_receipt_body))))
      | inr unknown ↦ rw (given, unknown) (inr (inl refl))
    ]
  ]

  -- A valid check says that nothing is claimed, or gives the claim's status, which is not
  -- `verified`; for a `validated` claim the response embeds a receipt that it is bound to.
  pub check_receipt_claim-closed :
      (check_receipt_claim lib response).valid ≡ true
      → ((check_receipt_claim lib response).status ≡ "not_claimed")
        ⊎ (((check_receipt_claim lib response).status ≡ claimed_status lib response)
            × ((claimed_status lib response == "verified") ≡ false)
            × ((claimed_status lib response == "validated") ≡ true
                → (receipt : ReeReceipt) × Bound receipt))
  unfolding check_receipt_claim
  check_receipt_claim-closed valid =
      let status = claimed_status lib response in
      elim (checked status) [
        | inl no_claim ↦ inl no_claim
        | inr later ↦ elim later [
          | inl invalid ↦ cc
          | inr (same, free) ↦
              let none_left =
                list_of_no_reason (claim_reasons lib response status) (sym free ∙ valid) in
              let (given, external, (body, receipt, has_body, parses, reasons)) =
                reason_free status none_left in
              inr (
                same,
                external,
                λ is_validated. (
                  receipt,
                  bound body receipt status has_body parses (rw is_validated refl) given reasons,
                ),
              )
        ]
      ]
