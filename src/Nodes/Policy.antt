-- ===== src/Nodes/Policy.antt =====
-- The settings of the verifier and its policy for receipts (app/nodes/verifier/service.py).
use signal_count.Base.{
  String, Bool, not, Option, none, some, List, [], ◌∷◌, is_mem, ◌==◌, string_eq, if◌then◌else◌,
}
use signal_count.Base.Json.{Fields, bool, str, field, end}
use signal_count.Base.Text.{strip, lower, replace_char}
use signal_count.Base.Outcome.{Outcome, ok, err, ◌>>=◌}
use signal_count.Identity.Signing.{SigningError}
use signal_count.Ree.Claims.{ClaimError}
use signal_count.Evaluation.Attestations.{AttestationError}

-- What the service raises.
pub data VerifierError : Type 0 where
  unsupported_policy : VerifierError
  signing : SigningError → VerifierError
  claim : ClaimError → VerifierError
  attestation : AttestationError → VerifierError

pub record VerifierService (F : Type 0) : Type 0 where
  pub acceptance_threshold : F
  pub verifier_private_key : String
  pub ree_policy : String
  pub enforce_ree_policy : Bool

-- `_required_ree_roles`
unfoldable pub required_ree_roles : String → Outcome VerifierError (List String)
unfolding strip lower replace_char
required_ree_roles ree_policy =
    let normalized = replace_char b'_' "-" (lower (strip ree_policy)) in
    if normalized == "risk-only-ree"
    then ok ("risk" ∷ [])
    else if normalized == "all-llm-ree"
    then ok ("narrative" ∷ "risk" ∷ [])
    else err unsupported_policy

-- `VerifierService(...)`: a policy that is to be enforced must be a known one.
unfoldable pub make_verifier :
    {F : Type 0} → F → String → String → Bool → Outcome VerifierError (VerifierService F)
unfolding required_ree_roles
make_verifier threshold key policy enforce =
    let service : VerifierService _ = record {
      acceptance_threshold = threshold;
      verifier_private_key = key;
      ree_policy = policy;
      enforce_ree_policy = enforce;
    } in
    if enforce then (required_ree_roles policy >>= λ roles. ok service) else ok service

unfoldable pub run_metadata : {F : Type 0} → VerifierService F → Fields
run_metadata service =
    field "ree_policy" (str service.ree_policy)
      (field "ree_policy_enforced" (bool service.enforce_ree_policy) end)

-- `_required_ree_failure`, for a policy's roles.
abbrev pub role_failure : List String → String → String → Bool → Option String
role_failure roles role receipt_status receipt_valid =
    if not (is_mem role roles)
    then none
    else if not receipt_valid
    then some "required_ree_invalid"
    else if receipt_status == "not_claimed"
    then some "required_ree_missing"
    else if not (receipt_status == "validated")
    then some "required_ree_not_validated"
    else none

unfoldable pub required_ree_failure :
    {F : Type 0}
    → VerifierService F
    → String
    → String
    → Bool
    → Outcome VerifierError (Option String)
unfolding required_ree_roles
required_ree_failure service role receipt_status receipt_valid =
    if not service.enforce_ree_policy
    then ok none
    else (required_ree_roles service.ree_policy >>= λ roles.
        ok (role_failure roles role receipt_status receipt_valid))
