-- ===== src/Chain/Receipts.antt =====
-- The receipts kept of a job's transactions (app/chain/receipts.py and explorer.py).
use Prim.Native.Char.{code}
use signal_count.Base.{String, ◌&&◌, Option, none, some, List, [], ◌∷◌, nat_beq, if◌then◌else◌}
use signal_count.Base.Text.{fstring, is_empty}
use signal_count.Base.Int.{ℤ}
use signal_count.Base.Json.{Json, str, arr, obj, Items, nil, item, Fields, end, field}

-- `s.rstrip("/")`
unfoldable pub rstrip_slash : String → String
rstrip_slash String.[] = ""
rstrip_slash (String.◌∷◌ c s) =
    let rest = rstrip_slash s in
    if nat_beq (code c) b'/' && is_empty rest then "" else String.◌∷◌ c rest

unfoldable pub explorer_tx_url : String → String → String
unfolding rstrip_slash
explorer_tx_url tx_hash base_url = fstring (rstrip_slash base_url ∷ "/tx/" ∷ tx_hash ∷ [])

unfoldable pub explorer_address_url : String → String → String
unfolding rstrip_slash
explorer_address_url address base_url = fstring (rstrip_slash base_url ∷ "/address/" ∷ address ∷ [])

pub record ChainReceipt (F : Type 0) : Type 0 where
  pub kind : String
  pub status : String
  pub tx_hash : Option String
  pub explorer_url : Option String
  pub error : Option String
  pub role : Option String
  pub agent : Option String
  pub ree_receipt_hash : Option String
  pub ree_status : Option String
  pub verifier_score : Option F
  pub reputation_points : Option F
  pub native_test_payout_wei : Option ℤ

-- `ChainReceipt.confirmed`, of which the keyword arguments that are left out are `None`.
unfoldable pub confirmed : {F : Type 0} → String → String → String → ChainReceipt F
unfolding explorer_tx_url
confirmed kind tx_hash explorer_base_url = record {
  kind = kind;
  status = "confirmed";
  tx_hash = some tx_hash;
  explorer_url = some (explorer_tx_url tx_hash explorer_base_url);
  error = none;
  role = none;
  agent = none;
  ree_receipt_hash = none;
  ree_status = none;
  verifier_score = none;
  reputation_points = none;
  native_test_payout_wei = none;
}

unfoldable pub failed : {F : Type 0} → String → String → Option String → ChainReceipt F
failed kind error role = record {
  kind = kind;
  status = "failed";
  tx_hash = none;
  explorer_url = none;
  error = some error;
  role = role;
  agent = none;
  ree_receipt_hash = none;
  ree_status = none;
  verifier_score = none;
  reputation_points = none;
  native_test_payout_wei = none;
}

pub record JobChainReceipts (F : Type 0) : Type 0 where
  pub receipt_status : String
  pub receipts : List (ChainReceipt F)

abbrev entry : String → Option Json → Fields → Fields
entry key none rest = rest
entry key (some value) rest = field key value rest

abbrev text_value : Option String → Option Json
text_value none = none
text_value (some s) = some (str s)

abbrev value_by : {A : Type 0} → (A → Json) → Option A → Option Json
value_by dump none = none
value_by dump (some x) = some (dump x)

-- `ChainReceipt.to_dict`: a field that is `None` is left out. The numbers are given as JSON.
unfoldable pub receipt_fields : {F : Type 0} → (F → Json) → (ℤ → Json) → ChainReceipt F → Fields
receipt_fields dump_float dump_int r = field "kind" (str r.kind) (
    field "status" (str r.status) (
      entry "tx_hash" (text_value r.tx_hash) (
        entry "explorer_url" (text_value r.explorer_url) (
          entry "error" (text_value r.error) (
            entry "role" (text_value r.role) (
              entry "agent" (text_value r.agent) (
                entry "ree_receipt_hash" (text_value r.ree_receipt_hash) (
                  entry "ree_status" (text_value r.ree_status) (
                    entry "verifier_score" (value_by dump_float r.verifier_score) (
                      entry "reputation_points" (value_by dump_float r.reputation_points) (
                        entry "native_test_payout_wei" (value_by dump_int r.native_test_payout_wei)
                          end)))))))))))

receipt_items : {F : Type 0} → (F → Json) → (ℤ → Json) → List (ChainReceipt F) → Items
unfolding receipt_fields
receipt_items dump_float dump_int [] = nil
receipt_items dump_float dump_int (r ∷ rs) =
    item (obj (receipt_fields dump_float dump_int r)) (receipt_items dump_float dump_int rs)

unfoldable pub to_metadata : {F : Type 0} → (F → Json) → (ℤ → Json) → JobChainReceipts F → Fields
unfolding receipt_items
to_metadata dump_float dump_int r =
    field "receipt_status" (str r.receipt_status)
      (field "chain_receipts" (arr (receipt_items dump_float dump_int r.receipts)) end)
