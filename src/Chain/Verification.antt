-- ===== src/Chain/Verification.antt =====
-- Reading a transaction's receipt back (app/chain/verification.py).
pub mod Verdict
use signal_count.Base.{ℕ, String, Option, none, some, List, [], ◌∷◌, nat_beq, if◌then◌else◌}
use signal_count.Base.Json.{Json, null, str, bool, nat, num, arr, obj, Fields, get_field}
use signal_count.Base.Text.{starts_with}
use signal_count.Base.Hex.{read_hex}
use signal_count.Base.Outcome.{Outcome, ok, err}
use signal_count.Chain.Rpc.{ChainError, Node, Session, call}

pub record ChainTxVerification : Type 0 where
  pub tx_hash : String
  pub status : String
  pub rpc_status : String
  pub block_number : Option ℕ
  pub transaction_index : Option ℕ
  pub error : String

-- `_hex_to_int`, of which `none` is a `ValueError`.
unfoldable pub hex_value : Option Json → Option ℕ
unfolding starts_with read_hex
hex_value (some (str s)) = if starts_with "0x" s then read_hex s else none
hex_value _ = none

-- A verdict without a receipt.
abbrev pub unread : String → String → String → String → ChainTxVerification
unread tx_hash status rpc_status error = record {
  tx_hash = tx_hash;
  status = status;
  rpc_status = rpc_status;
  block_number = none;
  transaction_index = none;
  error = error;
}

abbrev pub by_status : String → Fields → Option ℕ → ChainTxVerification
by_status tx_hash receipt none =
    unread tx_hash "present" "invalid_response"
      "Gensyn Testnet RPC receipt status was not valid hex"
by_status tx_hash receipt (some n) = record {
  tx_hash = tx_hash;
  status = if nat_beq n 1 then "verified" else "failed";
  rpc_status = if nat_beq n 1 then "confirmed" else "reverted";
  block_number = hex_value (get_field "blockNumber" receipt);
  transaction_index = hex_value (get_field "transactionIndex" receipt);
  error = "";
}

abbrev no_object : String → ChainTxVerification
no_object tx_hash =
    unread tx_hash "present" "invalid_response"
      "Gensyn Testnet RPC receipt response was not an object"

unfoldable pub verdict : String → Outcome ChainError Json → ChainTxVerification
verdict tx_hash (err e) =
    unread tx_hash "present" "rpc_unavailable" "Gensyn Testnet RPC receipt lookup failed"
verdict tx_hash (ok (null)) = unread tx_hash "missing" "not_found" ""
verdict tx_hash (ok (obj receipt)) =
    by_status tx_hash receipt (hex_value (get_field "status" receipt))
verdict tx_hash (ok (bool b)) = no_object tx_hash
verdict tx_hash (ok (nat n)) = no_object tx_hash
verdict tx_hash (ok (num t)) = no_object tx_hash
verdict tx_hash (ok (str s)) = no_object tx_hash
verdict tx_hash (ok (arr items)) = no_object tx_hash

-- `GensynChainTxVerifier.verify_transaction`: no exception leaves it.
unfoldable pub verify_transaction : Node → String → Session → ChainTxVerification × Session
unfolding verdict
verify_transaction node tx_hash s =
    let (reply, s') = call node "eth_getTransactionReceipt" (str tx_hash ∷ []) s in
    (verdict tx_hash reply, s')
