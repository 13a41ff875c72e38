-- ===== src/Examples/Signing.antt =====
-- A scheme of one account to test app/identity/signing.py and app/tamper/detector.py with.
use signal_count.Base.{
  ℕ, String, ◌≡◌, refl, sym, ap, ◌∙◌, subst, true, Option, none, some, [], ◌==◌, string_eq,
  if◌then◌else◌, inl, inr, Bool-cases,
}
use signal_count.Base.Json.{null, end}
use signal_count.Base.Text.{lower, strip}
use signal_count.Base.Outcome.{ok}
use signal_count.Schemas.{TaskSpec, SignedAgentExecution}
use signal_count.Identity.Hashing.{Crypto, task_hash, output_hash}
use signal_count.Identity.Signing.{
  sign_agent_execution, verify_signed_execution, recover_execution_signer,
  wallet_address_from_private_key, normalize_identity, response_wallet_matches_identity,
  signable_message,
}
use signal_count.Identity.Roundtrip.{sign_agent_execution-verifies}
use signal_count.Ree.Receipts.{ReceiptLibrary}
use signal_count.Ree.Claims.{
  check_receipt_claim, claimed_status, check_status, has_receipt_material,
}
use signal_count.Tamper.Detector.{DetectionResult, detect_tampering}
use signal_count.Tamper.Detector.Agreement.{verified-is_clean}
use signal_count.Examples.Dispatch.{sample_response}

-- The one account's address, in either case.
abbrev pub one_checksum : String → Option String
one_checksum a = if lower a == "0xa" then some "0xa" else none

pub one_checksum_lower : (a b : String) → one_checksum a ≡ some b → lower b ≡ lower a
unfolding lower
one_checksum_lower a b h = elim (Bool-cases (lower a == "0xa")) [
  | inr other ↦ let bad = rw other at h in cc
  | inl same ↦
      let is_b : "0xa" ≡ b = some_inj (rw same at h) in
      ap lower (sym is_b) ∙ sym ((string_eq.beq_iff (lower a) "0xa").0 same)
]
  where
    some_inj : {x y : String} → some x ≡ some y → x ≡ y
    some_inj e = cc

pub is_one : {a : String} → some "0xa" ≡ some a → "0xa" ≡ a
is_one e = cc

pub own_checksum : one_checksum "0xa" ≡ some "0xa"
unfolding lower
own_checksum = refl

abbrev pub crypto : Crypto ℕ
crypto = record {
  dumps = λ j. "json";
  dump_response = λ r. null;
  keccak_digits = λ s. s;
  checksum = one_checksum;
  address_of = λ k. some "0xa";
  sign = λ m k. m;
  recover = λ m s. some "0xa";
  checksum_lower = one_checksum_lower;
  checksum_case = λ a b e. ap (λ x. if x == "0xa" then some "0xa" else none) e;
  address_checksummed = λ k a e. subst (λ x. one_checksum x ≡ some x) (is_one e) own_checksum;
  recover_sign = λ m k a e. e;
}

abbrev pub task : TaskSpec
task = record { job_id = "j1"; thesis = "up"; asset = "ETH"; horizon_days = 30 }

abbrev pub signed : SignedAgentExecution ℕ
signed = record {
  task = task;
  identity = record { role = "risk"; peer_id = "b"; wallet = "0xa" };
  response = sample_response;
  signature = record {
    signer = "0xa";
    task_hash = task_hash crypto task;
    output_hash = output_hash crypto sample_response;
    signature = "0xjson";
    algorithm = "eip191";
  };
}

signs :
    sign_agent_execution crypto task sample_response
      (record { role = "risk"; peer_id = "b"; wallet = "0xA" })
      "key"
    ≡ ok signed
unfolding sign_agent_execution wallet_address_from_private_key normalize_identity
    response_wallet_matches_identity signable_message lower
signs = refl

sign_agent_execution-verifies_example :
    (verify_signed_execution crypto signed ≡ ok true)
    × ((signer : String) × (crypto.address_of "key" ≡ some signer)
        × (recover_execution_signer crypto signed ≡ ok signer)
        × (lower "0xA" ≡ lower signer))
sign_agent_execution-verifies_example =
    sign_agent_execution-verifies crypto task sample_response
      (record { role = "risk"; peer_id = "b"; wallet = "0xA" }) "key" signed signs

abbrev pub no_receipts : ReceiptLibrary
no_receipts = record {
  model_validate = λ d. none;
  model_dump = λ r. end;
  dumps = λ j. "json";
  sha256_digits = λ s. s;
  keccak_digits = λ s. s;
}

no_claim : (check_receipt_claim no_receipts sample_response).valid ≡ true
unfolding check_receipt_claim claimed_status check_status has_receipt_material lower strip
no_claim = refl

verified-is_clean_example :
    (r : DetectionResult) × (detect_tampering crypto no_receipts (λ e. "") signed ≡ ok r)
    × (r.status ≡ "clean")
    × (r.failed_check_names ≡ [])
verified-is_clean_example =
    verified-is_clean crypto no_receipts (λ e. "") signed sign_agent_execution-verifies_example.0
      no_claim
