-- ===== src/Indexer/Decoding.antt =====
-- Decoding of contract events and the poller (app/indexer/chain_events.py).
pub mod Ordered
pub mod Headers
use signal_count.Base.{
  ℕ, zero, suc, ◌+◌, ◌-◌, String, Bool, true, false, not, ◌&&◌, Option, none, some, List, [], ◌∷◌,
  ◌++◌, map, nat_beq, ◌==◌, string_eq, if◌then◌else◌,
}
use signal_count.Base.Json.{
  Json, null, bool, nat, num, str, arr, obj, Items, nil, item, Fields, end, field, get_field,
}
use signal_count.Base.Text.{fstring, starts_with, remove_prefix, text_length}
use signal_count.Base.Hex.{read_hex, from_hex, to_hex}
use signal_count.Base.Sorting.{sorted}
use signal_count.Base.Outcome.{Outcome, ok, err, ◌>>=◌, or_raise}
use signal_count.Indexer.Events.{IndexedChainEvent, IndexedChainBlock}
use signal_count.Indexer.Projections.{comes_before}

-- What decoding or polling raises.
pub data PollError : Type 0 where
  transport_failed invalid_header invalid_hash bad_hex missing_field undecodable invalid_address :
      PollError

pub record EventDefinition : Type 0 where
  pub name : String
  pub signature : String
  pub arg_types : List String
  pub arg_names : List String

-- A value that eth_abi decodes: bytes by their hexadecimal digits.
pub data AbiResult : Type 0 where
  uint : ℕ → AbiResult
  text : String → AbiResult
  bytes : String → AbiResult

-- What eth_utils, eth_abi and the transport do; `none` is an exception. `show` is Python's `str`.
pub record ChainLibrary : Type 0 where
  pub keccak_digits : String → String
  pub checksum : String → Option String
  pub decode : List String → List ℕ → Option (List AbiResult)
  pub call : String → List Json → Option Json
  pub show : Json → String

abbrev pub event_definitions : List EventDefinition
event_definitions =
    record {
      name = "TaskCreated";
      signature = "TaskCreated(uint256,bytes32,string)";
      arg_types = "uint256" ∷ "bytes32" ∷ "string" ∷ [];
      arg_names = "task_id" ∷ "task_hash" ∷ "metadata_uri" ∷ [];
    }
    ∷ record {
      name = "TaskFinalized";
      signature = "TaskFinalized(uint256,bytes32)";
      arg_types = "uint256" ∷ "bytes32" ∷ [];
      arg_names = "task_id" ∷ "memo_hash" ∷ [];
    }
    ∷ record {
      name = "ContributionRecorded";
      signature = "ContributionRecorded(uint256,address,string,bytes32,bytes32,string)";
      arg_types = "uint256" ∷ "address" ∷ "string" ∷ "bytes32" ∷ "bytes32" ∷ "string" ∷ [];
      arg_names =
          "task_id" ∷ "agent" ∷ "role" ∷ "output_hash" ∷ "ree_receipt_hash" ∷ "metadata_uri" ∷ [];
    }
    ∷ record {
      name = "VerificationRecorded";
      signature = "VerificationRecorded(uint256,address,bytes32,uint256)";
      arg_types = "uint256" ∷ "address" ∷ "bytes32" ∷ "uint256" ∷ [];
      arg_names = "task_id" ∷ "verifier" ∷ "verdict_hash" ∷ "score" ∷ [];
    }
    ∷ record {
      name = "ReputationRecorded";
      signature = "ReputationRecorded(uint256,address,string,uint256,uint256,uint256,string)";
      arg_types =
          "uint256" ∷ "address" ∷ "string" ∷ "uint256" ∷ "uint256" ∷ "uint256" ∷ "string" ∷ [];
      arg_names =
          "task_id" ∷ "agent" ∷ "role" ∷ "score" ∷ "points" ∷ "native_test_payout_wei"
          ∷ "metadata_uri" ∷ [];
    }
    ∷ []

abbrev pub value_or : Json → Option Json → Json
value_or other none = other
value_or other (some j) = j

-- `_hex_to_int`
unfoldable pub hex_to_int : Json → Outcome PollError ℕ
unfolding starts_with read_hex
hex_to_int (nat n) = ok n
hex_to_int (str s) = if starts_with "0x" s then or_raise (read_hex s) bad_hex else err bad_hex
hex_to_int (bool b) = ok (if b then 1 else 0)
hex_to_int _ = err bad_hex

module _ (lib : ChainLibrary) where
  open lib use {keccak_digits, checksum, decode, call, show}

  -- `EventDefinition.topic`
  abbrev pub topic : EventDefinition → String
  topic d = fstring ("0x" ∷ keccak_digits d.signature ∷ [])

  -- `EVENTS_BY_TOPIC.get`: the last definition with the topic.
  unfoldable pub by_topic : String → List EventDefinition → Option EventDefinition
  by_topic t [] = none
  by_topic t (d ∷ ds) = elim (by_topic t ds) [
    | some later ↦ some later
    | none ↦ if topic d == t then some d else none
  ]

  -- `event_topic`
  unfoldable pub event_topic : String → List EventDefinition → Option String
  event_topic event_name [] = none
  event_topic event_name (d ∷ ds) =
      if d.name == event_name then some (topic d) else event_topic event_name ds

  -- `_normalize_value`
  unfoldable pub normalize_value : AbiResult → Outcome PollError Json
  unfolding starts_with text_length
  normalize_value (bytes digits) = ok (str (fstring ("0x" ∷ digits ∷ [])))
  normalize_value (text s) =
      if starts_with "0x" s && nat_beq (text_length s) 42
      then (or_raise (checksum s) invalid_address >>= λ a. ok (str a))
      else ok (str s)
  normalize_value (uint n) = ok (nat n)

  -- `zip(..., strict=True)`: of different lengths raises.
  unfoldable pub zip_args : List String → List AbiResult → Outcome PollError Fields
  unfolding normalize_value
  zip_args [] [] = ok end
  zip_args (n ∷ ns) (v ∷ vs) = do j ← normalize_value v; rest ← zip_args ns vs; ok (field n j rest)
  zip_args [] (v ∷ vs) = err undecodable
  zip_args (n ∷ ns) [] = err undecodable

  abbrev pub required : String → Fields → Outcome PollError Json
  required key log = or_raise (get_field key log) missing_field

  -- The data and the fields of a log whose event is known.
  unfoldable pub decode_known : EventDefinition → Fields → Outcome PollError IndexedChainEvent
  unfolding hex_to_int zip_args remove_prefix from_hex
  decode_known d log = do
    raw ←
        or_raise (from_hex (remove_prefix "0x" (show (value_or (str "0x") (get_field "data" log)))))
          undecodable
    values ← or_raise (decode d.arg_types raw) undecodable
    args ← zip_args d.arg_names values
    address ← required "address" log
    contract_address ← or_raise (checksum (show address)) invalid_address
    block ← required "blockNumber" log
    block_number ← hex_to_int block
    transaction ← required "transactionHash" log
    index ← required "logIndex" log
    log_index ← hex_to_int index
    ok (record {
      event_name = d.name;
      contract_address = contract_address;
      block_number = block_number;
      block_hash = show (value_or (str "") (get_field "blockHash" log));
      transaction_hash = show transaction;
      log_index = log_index;
      args = args;
    })

  abbrev pub topic_of : Option Json → Option String
  topic_of (some (arr (item j items))) = some (show j)
  topic_of _ = none

  abbrev pub definition_of : Option String → Option EventDefinition
  definition_of none = none
  definition_of (some t) = by_topic t event_definitions

  abbrev pub decode_by :
      Option EventDefinition → Fields → Outcome PollError (Option IndexedChainEvent)
  decode_by none log = ok none
  decode_by (some d) log = decode_known d log >>= λ e. ok (some e)

  unfoldable pub decode_log : Fields → Outcome PollError (Option IndexedChainEvent)
  unfolding decode_known by_topic
  decode_log log = decode_by (definition_of (topic_of (get_field "topics" log))) log

  abbrev pub cons_event : Option IndexedChainEvent → List IndexedChainEvent → List IndexedChainEvent
  cons_event none es = es
  cons_event (some e) es = e ∷ es

  -- The loop of `decode_logs`.
  unfoldable pub decode_each : List Fields → Outcome PollError (List IndexedChainEvent)
  unfolding decode_log
  decode_each [] = ok []
  decode_each (log ∷ logs) = do
    decoded ← decode_log log
    rest ← decode_each logs
    ok (cons_event decoded rest)

  unfoldable pub decode_logs : List Fields → Outcome PollError (List IndexedChainEvent)
  unfolding decode_each
  decode_logs logs = do events ← decode_each logs; ok (sorted comes_before events)

  -- The dicts of a list.
  abbrev dicts : Items → List Fields
  dicts nil = []
  dicts (item (obj log) items) = log ∷ dicts items
  dicts (item _ items) = dicts items

  abbrev logs_of : Json → List Fields
  logs_of (arr items) = dicts items
  logs_of _ = []

  abbrev topics : List EventDefinition → Items
  topics [] = nil
  topics (d ∷ ds) = item (str (topic d)) (topics ds)

  abbrev query : String → String → String → List Json
  query address from_block to_block =
      obj (
        field "address" (str address) (
          field "fromBlock" (str from_block) (
            field "toBlock" (str to_block)
              (field "topics" (arr (item (arr (topics event_definitions)) nil)) end))))
      ∷ []

  abbrev pub poll_error : Option Json → Outcome PollError Json
  poll_error reply = or_raise reply transport_failed

  -- The loop over the contracts' addresses.
  unfoldable pub collect_logs : List String → String → String → Outcome PollError (List Fields)
  collect_logs [] from_block to_block = ok []
  collect_logs (a ∷ addresses) from_block to_block = do
    result ← poll_error (call "eth_getLogs" (query a from_block to_block))
    rest ← collect_logs addresses from_block to_block
    ok (logs_of result ++ rest)

  unfoldable pub poll : List String → ℕ → ℕ → Outcome PollError (List IndexedChainEvent)
  unfolding collect_logs decode_logs to_hex
  poll addresses from_block to_block = do
    logs ← collect_logs addresses (to_hex from_block) (to_hex to_block)
    decode_logs logs

  unfoldable pub latest_block_number : Outcome PollError ℕ
  unfolding hex_to_int
  latest_block_number = do reply ← poll_error (call "eth_blockNumber" []); hex_to_int reply

  abbrev pub hash_of : Option Json → Outcome PollError String
  hash_of (some (str s)) = if starts_with "0x" s then ok s else err invalid_hash
  hash_of _ = err invalid_hash

  abbrev pub header_of : ℕ → Json → Outcome PollError IndexedChainBlock
  header_of block_number (obj header) = do
    block_hash ← hash_of (get_field "hash" header)
    ok (record { block_number = block_number; block_hash = block_hash })
  header_of block_number _ = err invalid_header

  -- `count` headers from a block on.
  unfoldable pub headers_from : ℕ → ℕ → Outcome PollError (List IndexedChainBlock)
  unfolding starts_with to_hex
  headers_from zero from_block = ok []
  headers_from (suc count) from_block = do
    result ← poll_error (call "eth_getBlockByNumber" (str (to_hex from_block) ∷ bool false ∷ []))
    header ← header_of from_block result
    rest ← headers_from count (from_block + 1)
    ok (header ∷ rest)

  unfoldable pub block_headers : ℕ → ℕ → Outcome PollError (List IndexedChainBlock)
  unfolding headers_from
  block_headers from_block to_block = headers_from (to_block + 1 - from_block) from_block
