-- ===== src/Identity/Signing.antt =====
-- Signing and verification of an execution envelope (app/identity/signing.py).
use signal_count.Base.{
  String, Bool, true, false, ◌&&◌, Option, none, some, ◌==◌, string_eq, [], ◌∷◌, if◌then◌else◌,
}
use signal_count.Base.Json.{obj, str, nat, field, end}
use signal_count.Base.Text.{fstring, lower}
use signal_count.Base.Outcome.{Outcome, ok, err, ◌>>=◌, ◌>>◌, or_raise, guard}
use signal_count.Schemas.{TaskSpec, SpecialistResponse, AgentIdentity, SignedAgentExecution}
use signal_count.Identity.Hashing.{Crypto, task_hash, output_hash}

-- What signing or verification raises; `unrecoverable` is any exception of the recovery.
pub data SigningError : Type 0 where
  invalid_key invalid_address unrecoverable : SigningError
  key_mismatch job_id_mismatch role_mismatch peer_id_mismatch wallet_mismatch : SigningError

module _ {F : Type 0} (crypto : Crypto F) where
  open crypto use {dumps, checksum, address_of, sign, recover}

  abbrev pub to_checksum_address : String → Outcome SigningError String
  to_checksum_address a = or_raise (checksum a) invalid_address

  unfoldable pub wallet_address_from_private_key : String → Outcome SigningError String
  wallet_address_from_private_key key = or_raise (address_of key) invalid_key

  unfoldable pub normalize_identity : AgentIdentity → Outcome SigningError AgentIdentity
  normalize_identity identity = do
    wallet ← to_checksum_address identity.wallet
    ok (record identity { wallet = wallet })

  abbrev pub same_wallet : Option String → String → Outcome SigningError Bool
  same_wallet none wallet = ok true
  same_wallet (some agent_wallet) wallet = do
    a ← to_checksum_address agent_wallet
    b ← to_checksum_address wallet
    ok (a == b)

  unfoldable pub response_wallet_matches_identity :
      SpecialistResponse F → AgentIdentity → Outcome SigningError Bool
  response_wallet_matches_identity response identity =
      same_wallet response.agent_wallet identity.wallet

  -- `_signable_message`, as the text that the EIP-191 message is made of.
  unfoldable pub signable_message :
      AgentIdentity → String → String → String → Outcome SigningError String
  signable_message identity signer task_digest output_digest = do
    wallet ← to_checksum_address signer
    ok (
        dumps (
          obj (
            field "domain" (str "signal-count.agent-execution") (
              field "version" (nat 1) (
                field "role" (str identity.role) (
                  field "peer_id" (str identity.peer_id) (
                    field "wallet" (str wallet) (
                      field "task_hash" (str task_digest)
                        (field "output_hash" (str output_digest) end)))))))))

  unfoldable pub sign_agent_execution :
      TaskSpec
      → SpecialistResponse F
      → AgentIdentity
      → String
      → Outcome SigningError (SignedAgentExecution F)
  unfolding wallet_address_from_private_key normalize_identity response_wallet_matches_identity
      signable_message
  sign_agent_execution task response given private_key = do
    signer ← wallet_address_from_private_key private_key
    identity ← normalize_identity given
    guard (lower signer == lower identity.wallet) key_mismatch
    guard (task.job_id == response.job_id) job_id_mismatch
    guard (response.node_role == identity.role) role_mismatch
    guard (response.peer_id == identity.peer_id) peer_id_mismatch
    matches ← response_wallet_matches_identity response identity
    guard matches wallet_mismatch
    let task_digest = task_hash crypto task
    let output_digest = output_hash crypto response
    message ← signable_message identity signer task_digest output_digest
    ok (record {
      task = task;
      identity = identity;
      response = response;
      signature = record {
        signer = signer;
        task_hash = task_digest;
        output_hash = output_digest;
        signature = fstring ("0x" ∷ sign message private_key ∷ []);
        algorithm = "eip191";
      };
    })

  unfoldable pub recover_execution_signer : SignedAgentExecution F → Outcome SigningError String
  unfolding normalize_identity signable_message
  recover_execution_signer e = do
    identity ← normalize_identity e.identity
    signer ← to_checksum_address e.signature.signer
    message ← signable_message identity signer e.signature.task_hash e.signature.output_hash
    recovered ← or_raise (recover message e.signature.signature) unrecoverable
    to_checksum_address recovered

  -- The `try` at the end: an exception is `False`.
  abbrev pub recovers_to : String → Outcome SigningError String → Bool
  recovers_to signer (err e) = false
  recovers_to signer (ok recovered) = lower recovered == lower signer

  -- The tests before the response's wallet is read.
  abbrev pub is_bound : SignedAgentExecution F → AgentIdentity → Bool
  is_bound e identity =
      e.signature.algorithm == "eip191"
      && e.task.job_id == e.response.job_id
      && (e.response.node_role == identity.role && e.response.peer_id == identity.peer_id)
      && lower e.signature.signer == lower identity.wallet

  -- The tests from the response's wallet on.
  unfoldable pub is_signed : SignedAgentExecution F → AgentIdentity → Outcome SigningError Bool
  unfolding response_wallet_matches_identity recover_execution_signer
  is_signed e identity = do
    matches ← response_wallet_matches_identity e.response identity
    ok (
        matches
        && e.signature.task_hash == task_hash crypto e.task
        && e.signature.output_hash == output_hash crypto e.response
        && recovers_to e.signature.signer (recover_execution_signer e))

  -- `verify_signed_execution`: each test that fails returns `False`.
  unfoldable pub verify_signed_execution : SignedAgentExecution F → Outcome SigningError Bool
  unfolding normalize_identity is_signed
  verify_signed_execution e = do
    identity ← normalize_identity e.identity
    if is_bound e identity then is_signed e identity else ok false
