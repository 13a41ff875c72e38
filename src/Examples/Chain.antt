-- ===== src/Examples/Chain.antt =====
-- A node and a signer to test app/chain with.
use signal_count.Base.{
  ℕ, suc, ◌+◌, ◌*◌, ◌∙◌, String, ◌≡◌, refl, ap, sym, Bool, true, false, Option, none, some, List,
  [], ◌∷◌, ◌&&◌, nat_beq, map, length, ◌==◌, string_eq, if◌then◌else◌, arith, inl, inr, ◌≤◌,
  Bool-cases, ◌↔◌, ◌≢◌,
}
use signal_count.Base.Int.{ℤ, pos, negsuc}
use signal_count.Base.Text.{fstring, lower, starts_with}
use signal_count.Base.Hex.{from_hex, read_hex}
use signal_count.Base.Json.{Json, null, bool, nat, str, arr, obj, nil, item, Fields, end, field}
use signal_count.Base.Outcome.{ok}
use signal_count.Schemas.{ThesisRequest}
use signal_count.Identity.Hashing.{Crypto, task_hash, output_hash}
use signal_count.Chain.Config.{ChainConfig, validate_testnet}
use signal_count.Chain.Client.{Transaction, Signer, bytes32}
use signal_count.Chain.Receipts.{JobChainReceipts}
use signal_count.Chain.Rpc.{Call, Node, Session, call, wait_until, wait_for_receipt}
use signal_count.Chain.Rpc.Waiting.{wait_for_receipt-ends}
use signal_count.Chain.Broadcaster.{get_nonce, record_job_receipts}
use signal_count.Chain.Broadcaster.Amounts.{Conversions}
use signal_count.Chain.Broadcaster.Sent.{sent, Numbered, Counted}
use signal_count.Chain.Broadcaster.Recorded.{IsCapped}
use signal_count.Chain.Broadcaster.Job.{record_job_receipts-numbers}
use signal_count.Chain.Verification.{verify_transaction}
use signal_count.Chain.Verification.Verdict.{HasStatus, verify_transaction-verdicts}
use signal_count.Examples.Floats.{sample_floats}
use signal_count.Examples.Dispatch.{sample_response}
use signal_count.Examples.Signing.{crypto}

abbrev same_int : ℤ → ℤ → Bool
same_int (pos a) (pos b) = nat_beq a b
same_int _ _ = false

same_int_sound : (a b : ℤ) → same_int a b ≡ true → a ≡ b
same_int_sound (pos a) (pos b) h = ground arith
same_int_sound (pos a) (negsuc b) h = cc
same_int_sound (negsuc a) b h = cc

-- The transactions that the sample signer can sign, by nonce.
abbrev sample_transaction : ℕ → String → ℕ → ℕ → Transaction
sample_transaction nonce call_data gas value = record {
  to = "0xa";
  value = pos value;
  call_data = call_data;
  nonce = nonce;
  chain_id = pos 685685;
  gas = gas;
  gas_price_wei = 2;
}

abbrev same : Transaction → Transaction → Bool
same t u =
    t.to == u.to
    && same_int t.value u.value
    && t.call_data == u.call_data
    && nat_beq t.nonce u.nonce
    && same_int t.chain_id u.chain_id
    && nat_beq t.gas u.gas
    && nat_beq t.gas_price_wei u.gas_price_wei

same_sound : (t u : Transaction) → same t u ≡ true → u ≡ t
same_sound t u h = ground (
  arith,
  string_eq.beq_iff t.to u.to,
  string_eq.beq_iff t.call_data u.call_data,
  same_int_sound t.value u.value,
  same_int_sound t.chain_id u.chain_id,
)

abbrev create_task : Transaction
create_task = sample_transaction 7 "0x00000000" 250000 0

abbrev contribution : Transaction
contribution = sample_transaction 8 "0x00000000" 350000 0

abbrev payout : Transaction
payout = sample_transaction 9 "0x00000000" 300000 5

abbrev sign_sample : Transaction → String → Option (String × String)
sign_sample t key =
    if same t create_task
    then some ("7", "h")
    else if same t contribution
    then some ("8", "h")
    else if same t payout
    then some ("9", "h")
    else none

abbrev decode_sample : String → Option Transaction
decode_sample raw =
    if raw == "0x7"
    then some create_task
    else if raw == "0x8"
    then some contribution
    else if raw == "0x9"
    then some payout
    else none

decode_signed :
    (t : Transaction) (key raw hash : String)
    → sign_sample t key ≡ some (raw, hash)
    → decode_sample (fstring ("0x" ∷ raw ∷ [])) ≡ some t
decode_signed t key raw hash h = elim (Bool-cases (same t create_task)) [
  | inl e7 ↦ of_raw "7" (rw e7 at h) ∙ ap some (same_sound t create_task e7)
  | inr n7 ↦ elim (Bool-cases (same t contribution)) [
    | inl e8 ↦ of_raw "8" (rw (n7, e8) at h) ∙ ap some (same_sound t contribution e8)
    | inr n8 ↦ elim (Bool-cases (same t payout)) [
      | inl e9 ↦ of_raw "9" (rw (n7, n8, e9) at h) ∙ ap some (same_sound t payout e9)
      | inr n9 ↦ let bad = rw (n7, n8, n9) at h in cc
    ]
  ]
]
  where
    of_raw :
        (r : String)
        → ◌≡◌ {A = Option (String × String)} (some (r, "h")) (some (raw, hash))
        → decode_sample (fstring ("0x" ∷ raw ∷ [])) ≡ decode_sample (fstring ("0x" ∷ r ∷ []))
    of_raw r e = ap (λ x. decode_sample (fstring ("0x" ∷ x ∷ []))) (sym (first e))
      where
        first : ◌≡◌ {A = Option (String × String)} (some (r, "h")) (some (raw, hash)) → r ≡ raw
        first e' = cc

abbrev sample_signer : Signer
sample_signer = record {
  encode = λ types values. some "";
  sign_transaction = sign_sample;
  decode = decode_sample;
  decode_sign = decode_signed;
}

abbrev chain_crypto : Crypto ℕ
chain_crypto = record crypto {
  keccak_digits = λ s. "0000000000000000000000000000000000000000000000000000000000000000";
}

abbrev result : Json → Option Json
result j = some (obj (field "result" j end))

abbrev answer : String → Option Json
answer method =
    if method == "eth_getTransactionCount"
    then result (str "0x7")
    else if method == "eth_gasPrice"
    then result (str "0x2")
    else if method == "eth_sendRawTransaction"
    then result (str "0xaa")
    else if method == "eth_getTransactionReceipt"
    then result (obj (field "status" (str "0x1") end))
    else result (str "0x5")

abbrev reply_last : List Call → Option Json
reply_last [] = none
reply_last (c ∷ []) = answer c.method
reply_last (c ∷ d ∷ ds) = reply_last (d ∷ ds)

abbrev sample_node : Node
sample_node = record { reply = reply_last; latency = λ calls. 3 }

abbrev idle : Session
idle = record { calls = []; clock = 0 }

abbrev nat_of : Json → Option ℕ
nat_of (nat n) = some n
nat_of _ = none

abbrev show_text : Json → String
show_text (str s) = s
show_text _ = ""

abbrev conversions : Conversions sample_floats
conversions = record {
  to_float = nat_of;
  to_int = λ j. elim (nat_of j) [ none ↦ none | some n ↦ some (pos n) ];
  show = show_text;
  scaled = λ x. some (pos (1000000 * x));
}

abbrev sample_config : ChainConfig
sample_config = record {
  rpc_url = "https://rpc";
  chain_id = pos 685685;
  explorer_base_url = "https://explorer/";
  agent_registry_address = "0xa";
  task_registry_address = "0xa";
  receipt_registry_address = "0xa";
  reputation_vault_address = "0xa";
  native_test_payouts_enabled = false;
  native_test_payout_wei = pos 1;
  native_test_payout_max_wei = pos 9;
  writer_private_key = "0x1";
}

abbrev request : ThesisRequest
request = record { thesis = "up"; asset = "ETH"; horizon_days = 30 }

abbrev metadata : Fields
metadata =
    field "reputation_updates"
      (arr (
        item
          (obj (
            field "verifier_status" (str "accepted") (
              field "credit_eligible" (bool true) (
                field "agent_wallet" (str "0xA") (
                  field "node_role" (str "risk") (
                    field "verifier_score" (nat 1) (
                      field "reputation_points" (nat 100)
                        (field "native_test_payout_wei" (nat 5) end))))))))
          nil))
      end

sample_config-valid : validate_testnet sample_config ≡ ok tt
unfolding validate_testnet
sample_config-valid = refl

nonce_reported :
    (get_nonce sample_floats conversions chain_crypto sample_signer sample_config sample_node 60
      idle).0
    ≡ ok 7
unfolding get_nonce starts_with read_hex
nonce_reported = refl

record_job_receipts-numbers_example :
    (txs : List Transaction) × (map decode_sample (
        sent
          (record_job_receipts sample_floats conversions chain_crypto sample_signer sample_config
            sample_node 60 "j1" request
            (sample_response ∷ [])
            metadata
            idle).1.calls)
      ≡ map some txs)
    × Numbered IsCapped 7 txs
    × Counted
        (λ (r : JobChainReceipts ℕ) c. (c ≡ length r.receipts) × (2 ≤ c))
        (record_job_receipts sample_floats conversions chain_crypto sample_signer sample_config
          sample_node 60 "j1" request
          (sample_response ∷ [])
          metadata
          idle).0
        (length txs)
record_job_receipts-numbers_example =
    record_job_receipts-numbers sample_floats conversions chain_crypto sample_signer sample_config
      sample_node 60 sample_config-valid "j1" request (sample_response ∷ []) metadata idle 7
      nonce_reported

-- The update's own payout is sent, though payouts are not enabled in the configuration.
pays_update :
    sent
      (record_job_receipts sample_floats conversions chain_crypto sample_signer sample_config
        sample_node 60 "j1" request
        (sample_response ∷ [])
        metadata
        idle).1.calls
    ≡ "0x7" ∷ "0x8" ∷ "0x9" ∷ []
unfolding record_job_receipts task_hash output_hash lower bytes32 from_hex read_hex
pays_update = refl

wait_for_receipt-ends_example :
    wait_until sample_node (suc 60 + 5) (0 + 60) "0xaa" idle
    ≡ wait_for_receipt sample_node 60 "0xaa" idle
wait_for_receipt-ends_example = wait_for_receipt-ends sample_node 60 5 "0xaa" idle

verify_transaction-verdicts_example :
    let reply = (call sample_node "eth_getTransactionReceipt" (str "0xaa" ∷ []) idle).0 in
    let status = (verify_transaction sample_node "0xaa" idle).0.status in
    ((status ≡ "verified") ↔ HasStatus reply 1)
    × ((status ≡ "failed") ↔ ((n : ℕ) × HasStatus reply n × (n ≢ 1)))
    × ((status ≡ "missing") ↔ (reply ≡ ok (null)))
verify_transaction-verdicts_example = verify_transaction-verdicts sample_node "0xaa" idle
