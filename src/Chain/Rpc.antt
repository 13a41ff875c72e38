-- ===== src/Chain/Rpc.antt =====
-- Calls of a chain's node (the transport and the waiting of app/chain/broadcaster.py). The node is
-- any function of the calls made so far; time is counted in milliseconds.
pub mod Waiting
use signal_count.Base.{
  ℕ, zero, suc, ◌+◌, String, Bool, true, false, not, Option, none, some, List, [], ◌∷◌, ◌++◌,
  nat_beq, ltb, if◌then◌else◌,
}
use signal_count.Base.Json.{Json, null, str, nat, bool, num, arr, obj, Fields, get_field}
use signal_count.Base.Text.{starts_with}
use signal_count.Base.Hex.{read_hex}
use signal_count.Base.Outcome.{Outcome, ok, err, or_raise}
use signal_count.Chain.Client.{ClientError}

-- What the recorder raises.
pub data ChainError : Type 0 where
  request_failed not_an_object returned_error invalid_hex invalid_number : ChainError
  transaction_failed timed_out invalid_key missing_key : ChainError
  client : ClientError → ChainError

pub record Call : Type 0 where
  pub method : String
  pub params : List Json

-- The node and the network: the decoded reply to the last call (`none` if the request fails or the
-- reply is no JSON), and the time that the call takes.
pub record Node : Type 0 where
  pub reply : List Call → Option Json
  pub latency : List Call → ℕ

-- The calls made so far, in order, and the clock.
pub record Session : Type 0 where
  pub calls : List Call
  pub clock : ℕ

abbrev pub M : Type 0 → Type 0
M A = Session → Outcome ChainError A × Session

abbrev pub continue :
    {A B : Type 0} → (A → M B) → Outcome ChainError A × Session → Outcome ChainError B × Session
continue next (ok a, s) = next a s
continue next (err e, s) = (err e, s)

infixl 5 ◌>>=◌
abbrev pub ◌>>=◌ : {A B : Type 0} → M A → (A → M B) → M B
◌>>=◌ m next s = continue next (m s)

abbrev pub lift : {A : Type 0} → Outcome ChainError A → M A
lift o s = (o, s)

abbrev pub pure : {A : Type 0} → A → M A
pure a s = (ok a, s)

abbrev pub client_outcome : {A : Type 0} → Outcome ClientError A → Outcome ChainError A
client_outcome (ok a) = ok a
client_outcome (err e) = err (client e)

-- An exception of the client passes through.
abbrev pub from_client : {A : Type 0} → Outcome ClientError A → M A
from_client o = lift (client_outcome o)

-- `payload.get("result")`
abbrev value_or_null : Option Json → Json
value_or_null none = null
value_or_null (some j) = j

abbrev result_field : Option Json → Fields → Outcome ChainError Json
result_field none payload = ok (value_or_null (get_field "result" payload))
result_field (some error) payload = err returned_error

unfoldable pub read_payload : Option Json → Outcome ChainError Json
read_payload none = err request_failed
read_payload (some (obj payload)) = result_field (get_field "error" payload) payload
read_payload (some _) = err not_an_object

-- `_expect_hex_string`
unfoldable pub expect_hex_string : Json → Outcome ChainError String
expect_hex_string (str s) = if starts_with "0x" s then ok s else err invalid_hex
expect_hex_string _ = err invalid_hex

abbrev number_of : Outcome ChainError String → Outcome ChainError ℕ
number_of (ok s) = or_raise (read_hex s) invalid_number
number_of (err e) = err e

-- `_hex_to_int`
unfoldable pub hex_to_int : Json → Outcome ChainError ℕ
unfolding expect_hex_string
hex_to_int value = number_of (expect_hex_string value)

module _ (node : Node) where
  -- `JsonRpcTransport.call`
  unfoldable pub call : String → List Json → M Json
  unfolding read_payload
  call method params s =
      let calls = s.calls ++ record { method = method; params = params } ∷ [] in
      (
        read_payload (node.reply calls),
        record { calls = calls; clock = s.clock + node.latency calls },
      )

  -- `time.sleep(1.0)`
  abbrev pub sleep : Session → Session
  sleep s = record s { clock = s.clock + 1000 }

  abbrev pub received : M Fields → Json → M Fields
  received rest (obj receipt) s = (ok receipt, s)
  received rest (null) s = rest (sleep s)
  received rest (bool b) s = rest (sleep s)
  received rest (nat n) s = rest (sleep s)
  received rest (num t) s = rest (sleep s)
  received rest (str t) s = rest (sleep s)
  received rest (arr items) s = rest (sleep s)

  -- The `while` loop of `_wait_for_receipt`.
  unfoldable pub wait_until : ℕ → ℕ → String → M Fields
  unfolding call
  wait_until zero deadline tx_hash s = (err timed_out, s)
  wait_until (suc fuel) deadline tx_hash s =
      let rest = wait_until fuel deadline tx_hash in
      if ltb s.clock deadline
      then continue (received rest) (call "eth_getTransactionReceipt" (str tx_hash ∷ []) s)
      else (err timed_out, s)

  unfoldable pub wait_for_receipt : ℕ → String → M Fields
  unfolding wait_until
  wait_for_receipt timeout tx_hash s = wait_until (suc timeout) (s.clock + timeout) tx_hash s
