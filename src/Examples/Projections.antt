-- ===== src/Examples/Projections.antt =====
-- Three events of a task, out of order, and two logs of them, to test app/indexer/projections.py and
-- chain_events.py with.
use signal_count.Base.{
  ℕ, ◌+◌, ◌-◌, String, ◌≡◌, refl, true, false, ◌||◌, Option, none, some, List, [], ◌∷◌, map, length,
  select, All, inr, ◌==◌, string_eq, if◌then◌else◌,
}
use signal_count.Base.Json.{Json, nat, str, arr, obj, item, nil, Fields, end, field}
use signal_count.Base.Sorting.{Reordered, keep, swap, both, IsSorted, any, total}
use signal_count.Base.Hex.{to_hex}
use signal_count.Base.Outcome.{ok}
use signal_count.Indexer.Events.{IndexedChainEvent, IndexedChainBlock}
use signal_count.Indexer.Projections.{
  Readings, State, comes_before, build_chain_events_projection, ReputationProjection,
}
use signal_count.Indexer.Projections.Order.{build_chain_events_projection-Reordered}
use signal_count.Indexer.Projections.Tasks.{
  is_finalized, is_listed, finalizes, creates, build_chain_events_projection-tasks,
}
use signal_count.Indexer.Projections.Leaderboard.{
  AgentReputationEntry, ranks_before, agent_leaderboard,
}
use signal_count.Indexer.Projections.Leaderboard.Sums.{has_more_points, agent_leaderboard-accounts}
use signal_count.Indexer.Decoding.{ChainLibrary, AbiResult, uint, text, decode_logs, block_headers}
use signal_count.Indexer.Decoding.Ordered.{is_known, has_other_name, decode_logs-IsSorted}
use signal_count.Indexer.Decoding.Headers.{IsReplied, numbers_from, block_headers-numbers}
use signal_count.Examples.Floats.{sample_floats}

abbrev shown : Json → String
shown (str s) = s
shown _ = ""

abbrev counted : Json → Option ℕ
counted (nat n) = some n
counted _ = none

abbrev readings : Readings sample_floats
readings = record { to_nat = counted; show = shown; scaled_down = λ n. n }

abbrev event : String → ℕ → ℕ → Fields → IndexedChainEvent
event name block log args = record {
  event_name = name;
  contract_address = "0xc";
  block_number = block;
  block_hash = "0xb";
  transaction_hash = "0xt";
  log_index = log;
  args = args;
}

abbrev creation : IndexedChainEvent
creation =
    event "TaskCreated" 1 0 (
      field "task_id" (nat 5)
        (field "task_hash" (str "0xh") (field "metadata_uri" (str "uri") end)))

abbrev finalization : IndexedChainEvent
finalization =
    event "TaskFinalized" 2 0 (field "task_id" (nat 5) (field "memo_hash" (str "0xm") end))

abbrev reputation : IndexedChainEvent
reputation = event "ReputationRecorded" 2 1 (
    field "task_id" (nat 5) (
      field "agent" (str "0xa") (
        field "role" (str "risk") (
          field "score" (nat 1) (
            field "points" (nat 2)
              (field "native_test_payout_wei" (nat 9) (field "metadata_uri" (str "uri") end)))))))

abbrev late_first : List IndexedChainEvent
late_first = reputation ∷ finalization ∷ creation ∷ []

abbrev in_order : List IndexedChainEvent
in_order = creation ∷ finalization ∷ reputation ∷ []

reversed : Reordered late_first in_order
reversed = both (swap reputation finalization (creation ∷ [])) (
    both (keep finalization (swap reputation creation []))
      (swap finalization creation (reputation ∷ [])))

build_chain_events_projection-Reordered_example :
    build_chain_events_projection sample_floats readings late_first
    ≡ build_chain_events_projection sample_floats readings in_order
build_chain_events_projection-Reordered_example =
    build_chain_events_projection-Reordered sample_floats readings reversed
      ((inr (refl, refl), (inr (refl, refl), tt)), ((inr (refl, refl), tt), (tt, tt)))

abbrev projected : State sample_floats readings
projected = record {
  tasks =
      (
        5,
        record {
          task_id = 5;
          task_hash = "0xh";
          metadata_uri = "uri";
          finalized = true;
          memo_hash = some "0xm";
        },
      )
      ∷ [];
  contributions = [];
  verifications = [];
  reputations =
      record {
        task_id = 5;
        agent = "0xa";
        role = "risk";
        score = 1;
        points = 2;
        native_test_payout_wei = 9;
        metadata_uri = "uri";
        transaction_hash = "0xt";
      }
      ∷ [];
}

projects : build_chain_events_projection sample_floats readings late_first ≡ ok projected
unfolding build_chain_events_projection
projects = refl

build_chain_events_projection-tasks_example :
    (is_finalized 5 projected.tasks ≡ any (finalizes sample_floats readings 5) late_first)
    × (is_listed 5 projected.tasks
        ≡ any
            (λ e. creates sample_floats readings 5 e || finalizes sample_floats readings 5 e)
            late_first)
build_chain_events_projection-tasks_example =
    build_chain_events_projection-tasks sample_floats readings late_first projected projects 5

abbrev plus : ℕ → ℕ → ℕ
plus x y = x + y

agent_leaderboard-accounts_example :
    (total
        (λ (e : AgentReputationEntry ℕ). e.native_test_payout_wei)
        (agent_leaderboard sample_floats plus projected)
      ≡ total (λ (r : ReputationProjection ℕ). r.native_test_payout_wei) projected.reputations)
    × (total
          (λ (e : AgentReputationEntry ℕ). e.recorded_contributions)
          (agent_leaderboard sample_floats plus projected)
        ≡ length projected.reputations)
    × IsSorted (has_more_points sample_floats plus) (agent_leaderboard sample_floats plus projected)
    × IsSorted (ranks_before sample_floats plus) (agent_leaderboard sample_floats plus projected)
agent_leaderboard-accounts_example = agent_leaderboard-accounts sample_floats plus projected

-- The topic of an event is its signature; the data are one byte, the task's number.
abbrev read_byte : List String → List ℕ → Option (List AbiResult)
read_byte types (n ∷ []) = some (uint n ∷ text "0xm" ∷ [])
read_byte types _ = none

-- The hash of a block is its number's text.
abbrev chain_call : String → List Json → Option Json
chain_call method (str number ∷ params) =
    if method == "eth_getBlockByNumber" then some (obj (field "hash" (str number) end)) else none
chain_call method _ = none

abbrev library : ChainLibrary
library = record {
  keccak_digits = λ s. s;
  checksum = λ a. some a;
  decode = read_byte;
  call = chain_call;
  show = shown;
}

abbrev log : String → String → Fields
log topic block = field "topics" (arr (item (str topic) nil)) (
    field "data" (str "0x05") (
      field "address" (str "0xc") (
        field "blockNumber" (str block)
          (field "transactionHash" (str "0xt") (field "logIndex" (str "0x0") end)))))

abbrev logs : List Fields
logs =
    log "0xTaskFinalized(uint256,bytes32)" "0x7"
    ∷ log "0xOther()" "0x1"
    ∷ log "0xTaskFinalized(uint256,bytes32)" "0x2"
    ∷ []

abbrev decoded : ℕ → IndexedChainEvent
decoded block =
    record (event "TaskFinalized" block 0
      (field "task_id" (nat 5) (field "memo_hash" (str "0xm") end))) { block_hash = "" }

decodes : decode_logs library logs ≡ ok (decoded 2 ∷ decoded 7 ∷ [])
unfolding decode_logs
decodes = refl

decode_logs-IsSorted_example :
    IsSorted comes_before (decoded 2 ∷ decoded 7 ∷ [])
    × (length (decoded 2 ∷ decoded 7 ∷ []) ≡ length (select (is_known library) logs))
    × (any (has_other_name library) (decoded 2 ∷ decoded 7 ∷ []) ≡ false)
decode_logs-IsSorted_example =
    decode_logs-IsSorted library logs (decoded 2 ∷ decoded 7 ∷ []) decodes

abbrev header : ℕ → IndexedChainBlock
header n = record { block_number = n; block_hash = to_hex n }

headers_read : block_headers library 4 6 ≡ ok (header 4 ∷ header 5 ∷ header 6 ∷ [])
unfolding block_headers
headers_read = refl

block_headers-numbers_example :
    (map (λ (b : IndexedChainBlock). b.block_number) (header 4 ∷ header 5 ∷ header 6 ∷ [])
      ≡ numbers_from (6 + 1 - 4) 4)
    × All (IsReplied library) (header 4 ∷ header 5 ∷ header 6 ∷ [])
block_headers-numbers_example =
    block_headers-numbers library 4 6 (header 4 ∷ header 5 ∷ header 6 ∷ []) headers_read
