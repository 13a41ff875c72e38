-- ===== src/Chain/Config.antt =====
-- The configuration of contract writes (app/chain/config.py).
use signal_count.Base.{String, Bool, false, not, Option, [], ◌∷◌, if◌then◌else◌}
use signal_count.Base.Int.{ℤ, pos, ltb_ℤ}
use signal_count.Base.Outcome.{Outcome, ok, ◌>>=◌, ◌>>◌, guard, or_raise}
use signal_count.Base.Text.{fstring, is_empty, starts_with}

pub data ConfigError : Type 0 where
  invalid_address wrong_chain_id negative_payout cap_exceeded payout_exceeds_max : ConfigError

-- The fields of the application's settings that the chain's configuration reads.
pub record ChainSettings : Type 0 where
  pub gensyn_rpc_url : String
  pub gensyn_chain_id : ℤ
  pub gensyn_explorer_base_url : String
  pub signal_agent_registry_address : String
  pub signal_task_registry_address : String
  pub signal_receipt_registry_address : String
  pub signal_reputation_vault_address : String
  pub signal_count_native_test_payouts : Bool
  pub native_test_payout_wei : ℤ
  pub native_test_payout_max_wei : ℤ
  pub chain_writer_private_key : String

pub record ChainConfig : Type 0 where
  pub rpc_url : String
  pub chain_id : ℤ
  pub explorer_base_url : String
  pub agent_registry_address : String
  pub task_registry_address : String
  pub receipt_registry_address : String
  pub reputation_vault_address : String
  pub native_test_payouts_enabled : Bool
  pub native_test_payout_wei : ℤ
  pub native_test_payout_max_wei : ℤ
  pub writer_private_key : String

abbrev pub gensyn_testnet_chain_id : ℤ
gensyn_testnet_chain_id = pos 685685

-- `DEFAULT_NATIVE_TEST_PAYOUT_MAX_WEI`
abbrev pub hard_cap : ℤ
hard_cap = pos 1000000000000

unfoldable pub normalize_private_key : String → String
normalize_private_key private_key =
    if is_empty private_key
    then ""
    else if starts_with "0x" private_key
    then private_key
    else fstring ("0x" ∷ private_key ∷ [])

-- `from_settings`, given `to_checksum_address`, which may raise.
unfoldable pub from_settings :
    (String → Option String) → ChainSettings → Outcome ConfigError ChainConfig
unfolding normalize_private_key
from_settings checksum s = do
  agents ← or_raise (checksum s.signal_agent_registry_address) invalid_address
  tasks ← or_raise (checksum s.signal_task_registry_address) invalid_address
  receipts ← or_raise (checksum s.signal_receipt_registry_address) invalid_address
  vault ← or_raise (checksum s.signal_reputation_vault_address) invalid_address
  ok (record {
    rpc_url = s.gensyn_rpc_url;
    chain_id = s.gensyn_chain_id;
    explorer_base_url = s.gensyn_explorer_base_url;
    agent_registry_address = agents;
    task_registry_address = tasks;
    receipt_registry_address = receipts;
    reputation_vault_address = vault;
    native_test_payouts_enabled = s.signal_count_native_test_payouts;
    native_test_payout_wei = s.native_test_payout_wei;
    native_test_payout_max_wei = s.native_test_payout_max_wei;
    writer_private_key = normalize_private_key s.chain_writer_private_key;
  })

-- `a == b` of integers.
abbrev pub same_int : ℤ → ℤ → Bool
same_int a b = if ltb_ℤ a b then false else not (ltb_ℤ b a)

unfoldable pub validate_testnet : ChainConfig → Outcome ConfigError (Unit {0})
validate_testnet c = do
  guard (same_int c.chain_id gensyn_testnet_chain_id) wrong_chain_id
  guard (not (ltb_ℤ c.native_test_payout_wei (pos 0))) negative_payout
  guard (not (ltb_ℤ hard_cap c.native_test_payout_max_wei)) cap_exceeded
  guard (not (ltb_ℤ c.native_test_payout_max_wei c.native_test_payout_wei)) payout_exceeds_max
