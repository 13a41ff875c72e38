-- ===== src/Chain/Updates.antt =====
-- The updates of a run's metadata that the recorder sends (app/chain/broadcaster.py).
use signal_count.Base.{
  String, Bool, true, false, not, ◌&&◌, Option, none, some, List, [], ◌∷◌, nat_beq, ◌==◌, string_eq,
  if◌then◌else◌,
}
use signal_count.Base.Json.{
  Json, null, str, nat, bool, num, arr, obj, Items, nil, item, end, Fields, field, get_field,
}
use signal_count.Base.Int.{ℤ}
use signal_count.Base.Floats.{Floats}
use signal_count.Base.Text.{is_empty}
use signal_count.Base.Outcome.{Outcome, ok, err, or_raise}
use signal_count.Chain.Rpc.{ChainError, missing_key, invalid_number}
use signal_count.Chain.Broadcaster.Amounts.{Conversions}

-- `bool(value)`; a number's text is as Python prints it.
abbrev is_truthy : Option Json → Bool
is_truthy none = false
is_truthy (some (null)) = false
is_truthy (some (bool b)) = b
is_truthy (some (nat n)) = not (nat_beq n 0)
is_truthy (some (num t)) = not (if t == "0.0" then true else t == "-0.0")
is_truthy (some (str s)) = not (is_empty s)
is_truthy (some (arr nil)) = false
is_truthy (some (arr (item j items))) = true
is_truthy (some (obj end)) = false
is_truthy (some (obj (field k j fs))) = true

abbrev is_text : String → Option Json → Bool
is_text expected (some (str s)) = s == expected
is_text expected _ = false

abbrev is_true : Option Json → Bool
is_true (some (bool b)) = b
is_true _ = false

module _ (fl : Floats) (conv : Conversions fl) where
  open fl use {Float, zero as zero_float, lt}
  open conv use {to_float, scaled, show}

  -- `float(update.get(key, 0.0)) > 0.0`
  abbrev is_positive : String → Fields → Outcome ChainError Bool
  is_positive key update = elim (get_field key update) [
    | none ↦ ok false
    | some value ↦ elim (to_float value) [
      | none ↦ err invalid_number
      | some x ↦ ok (lt zero_float x)
    ]
  ]

  abbrev and_then : Outcome ChainError Bool → Outcome ChainError Bool → Outcome ChainError Bool
  and_then (ok true) other = other
  and_then (ok false) other = ok false
  and_then (err e) other = err e

  -- The condition of `_accepted_reputation_updates`.
  unfoldable pub is_accepted_update : Fields → Outcome ChainError Bool
  is_accepted_update update =
      and_then
        (ok (
          is_text "accepted" (get_field "verifier_status" update)
          && is_true (get_field "credit_eligible" update)
          && is_truthy (get_field "agent_wallet" update)))
        (and_then (is_positive "verifier_score" update) (is_positive "reputation_points" update))

  abbrev keep_update :
      Fields
      → Outcome ChainError Bool
      → Outcome ChainError (List Fields)
      → Outcome ChainError (List Fields)
  keep_update update (err e) rest = err e
  keep_update update (ok true) (ok updates) = ok (update ∷ updates)
  keep_update update (ok false) rest = rest
  keep_update update (ok true) (err e) = err e

  unfoldable pub accepted_items : Items → Outcome ChainError (List Fields)
  unfolding is_accepted_update
  accepted_items nil = ok []
  accepted_items (item (obj update) items) =
      keep_update update (is_accepted_update update) (accepted_items items)
  accepted_items (item (null) items) = accepted_items items
  accepted_items (item (bool b) items) = accepted_items items
  accepted_items (item (nat n) items) = accepted_items items
  accepted_items (item (num t) items) = accepted_items items
  accepted_items (item (str s) items) = accepted_items items
  accepted_items (item (arr js) items) = accepted_items items

  -- `_accepted_reputation_updates`
  unfoldable pub accepted_reputation_updates : Fields → Outcome ChainError (List Fields)
  unfolding accepted_items
  accepted_reputation_updates run_metadata = elim (get_field "reputation_updates" run_metadata) [
    | some (arr items) ↦ accepted_items items
    | _ ↦ ok []
  ]

  -- `_scaled_int(update[key])`
  abbrev pub scaled_int : String → Fields → Outcome ChainError ℤ
  scaled_int key update = elim (get_field key update) [
    | none ↦ err missing_key
    | some value ↦ elim (to_float value) [
      | none ↦ err invalid_number
      | some x ↦ or_raise (scaled x) invalid_number
    ]
  ]

  abbrev pub float_of : String → Fields → Outcome ChainError Float
  float_of key update = elim (get_field key update) [
    | none ↦ err missing_key
    | some value ↦ or_raise (to_float value) invalid_number
  ]

  -- `str(update[key])`
  abbrev pub text_at : String → Fields → Outcome ChainError String
  text_at key update = elim (get_field key update) [
    | none ↦ err missing_key
    | some value ↦ ok (show value)
  ]
