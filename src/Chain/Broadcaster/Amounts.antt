-- ===== src/Chain/Broadcaster/Amounts.antt =====
-- The amounts of app/chain/broadcaster.py: what an update is paid, within the configured maximum.
pub mod Bounds
use signal_count.Base.{
  ℕ, String, Bool, true, false, not, Option, none, some, nat_beq, if◌then◌else◌,
}
use signal_count.Base.Json.{Json, null, Fields, get_field}
use signal_count.Base.Int.{ℤ, pos, negsuc, ltb_ℤ}
use signal_count.Base.Floats.{Floats}
use signal_count.Chain.Config.{ChainConfig}

-- Python's conversions of a JSON value, of which `none` is an exception: `float(v)`, `int(v)`, and
-- `str(v)`; and `round(x * 1_000_000)`.
pub record Conversions (fl : Floats) : Type 0 where
  pub to_float : Json → Option fl.Float
  pub to_int : Json → Option ℤ
  pub show : Json → String
  pub scaled : fl.Float → Option ℤ

-- `bool(n)`
abbrev pub is_nonzero : ℤ → Bool
is_nonzero (pos n) = not (nat_beq n 0)
is_nonzero (negsuc n) = true

abbrev min_ℤ : ℤ → ℤ → ℤ
min_ℤ a b = if ltb_ℤ b a then b else a

abbrev max_ℤ : ℤ → ℤ → ℤ
max_ℤ a b = if ltb_ℤ a b then b else a

-- `_native_test_payout_wei`
unfoldable pub native_test_payout_wei : ChainConfig → ℤ
native_test_payout_wei config =
    if config.native_test_payouts_enabled
    then min_ℤ config.native_test_payout_wei config.native_test_payout_max_wei
    else pos 0

abbrev clamped : ℤ → Option ℤ → Option ℤ
clamped max_wei none = none
clamped max_wei (some raw) = some (min_ℤ (max_ℤ raw (pos 0)) max_wei)

-- A value that is not `None`.
abbrev pub given : Option Json → Option Json
given none = none
given (some (null)) = none
given (some j) = some j

module _ (fl : Floats) (conv : Conversions fl) where
  abbrev pub amount : ℤ → ℤ → Option Json → Option ℤ
  amount fallback max_wei none = some fallback
  amount fallback max_wei (some raw) = clamped max_wei (conv.to_int raw)

  -- `_update_payout_wei`
  unfoldable pub update_payout_wei : Fields → ℤ → ℤ → Option ℤ
  update_payout_wei update fallback max_wei =
      amount fallback max_wei (given (get_field "native_test_payout_wei" update))
