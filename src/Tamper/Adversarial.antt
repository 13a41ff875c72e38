-- ===== src/Tamper/Adversarial.antt =====
-- The mutations of an honest execution that the tamper demo runs (app/tamper/adversarial.py).
pub mod Naming
pub mod Detected
use Prim.Native.String.{◌++◌}
use signal_count.Base.{
  String, Bool, true, false, not, Option, none, some, ◌==◌, string_eq, if◌then◌else◌,
}
use signal_count.Base.Outcome.{Outcome, ok, err, ◌>>=◌}
use signal_count.Schemas.{SpecialistResponse, SignedAgentExecution}
use signal_count.Identity.Hashing.{Crypto}
use signal_count.Identity.Signing.{
  SigningError, wallet_address_from_private_key, sign_agent_execution,
}

module _ {F : Type 0} where
  unfoldable pub field_tamper_after_sign : SignedAgentExecution F → SignedAgentExecution F
  field_tamper_after_sign honest = record honest {
    response = record (honest.response) {
      summary = honest.response.summary ++ " [TAMPERED PAYLOAD]";
    };
  }

  unfoldable pub signer_swap_in_envelope : SignedAgentExecution F → String → SignedAgentExecution F
  signer_swap_in_envelope honest attacker_address = record honest {
    signature = record (honest.signature) { signer = attacker_address };
  }

  -- `Account.from_key(key).address` is the address that signing derives.
  unfoldable pub forged_signature_with_attacker_key :
      Crypto F → SignedAgentExecution F → String → Outcome SigningError (SignedAgentExecution F)
  unfolding wallet_address_from_private_key sign_agent_execution
  forged_signature_with_attacker_key crypto honest attacker_private_key = do
    attacker_address ← wallet_address_from_private_key crypto attacker_private_key
    resigned ←
        sign_agent_execution crypto honest.task
          (record (honest.response) { agent_wallet = some attacker_address })
          (record (honest.identity) { wallet = attacker_address }) attacker_private_key
    ok (record honest {
      signature = record (resigned.signature) {
        signer = honest.identity.wallet;
        output_hash = honest.signature.output_hash;
      };
    })

  unfoldable pub agent_wallet_substitution :
      SignedAgentExecution F → String → SignedAgentExecution F
  agent_wallet_substitution honest attacker_address = record honest {
    response = record (honest.response) { agent_wallet = some attacker_address };
  }

  unfoldable pub role_substitution : SignedAgentExecution F → SignedAgentExecution F
  role_substitution honest =
      let other_role = if not (honest.identity.role == "narrative") then "narrative" else "risk" in
      record honest { response = record (honest.response) { node_role = other_role } }

  unfoldable pub receipt_status_overclaim : SignedAgentExecution F → SignedAgentExecution F
  receipt_status_overclaim honest = record honest {
    response = record (honest.response) {
      receipt_status = some "verified";
      ree_receipt_body = none;
      ree_receipt_hash = none;
      ree_receipt_path = none;
    };
  }
