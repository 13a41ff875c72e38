-- ===== src/Chain/Broadcaster/Amounts/Bounds.antt =====
-- The bounds of the payouts of app/chain/broadcaster.py.
use signal_count.Base.{ℕ, ◌≤◌, ◌≡◌, refl, sym, ap, subst, ◌∙◌, true, not, Option, none, some, arith}
use signal_count.Base.Json.{Json, Fields, get_field}
use signal_count.Base.Int.{ℤ, pos, negsuc, ltb_ℤ, pos_part, neg_part}
use signal_count.Base.Outcome.{ok, guard, >>-eq-ok, guard-eq-ok}
use signal_count.Base.Floats.{Floats}
use signal_count.Chain.Config.{
  ChainConfig, validate_testnet, same_int, hard_cap, gensyn_testnet_chain_id, wrong_chain_id,
  negative_payout, cap_exceeded, payout_exceeds_max,
}
use signal_count.Chain.Broadcaster.Amounts.{
  Conversions, clamped, amount, given, native_test_payout_wei, update_payout_wei,
}

-- A value between 0 and the cap.
abbrev pub WithinCap : ℤ → Type 0
WithinCap value = (neg_part value ≡ 0) × (pos_part value ≤ 1000000000000)

-- What the validation of a configuration says of its amounts.
pub record Validated (config : ChainConfig) : Type 0 where
  wei : ℕ
  max_wei : ℕ
  wei_given : config.native_test_payout_wei ≡ pos wei
  max_given : config.native_test_payout_max_wei ≡ pos max_wei
  ordered : wei ≤ max_wei
  capped : max_wei ≤ 1000000000000

bounds :
    (config : ChainConfig) (wei max_wei : ℤ)
    → config.native_test_payout_wei ≡ wei
    → config.native_test_payout_max_wei ≡ max_wei
    → not (ltb_ℤ wei (pos 0)) ≡ true
    → not (ltb_ℤ hard_cap max_wei) ≡ true
    → not (ltb_ℤ max_wei wei) ≡ true
    → Validated config
bounds config (pos w) (pos m) ew em a b c = record {
  wei = w;
  max_wei = m;
  wei_given = ew;
  max_given = em;
  ordered = ground arith;
  capped = ground arith;
}
bounds config (pos w) (negsuc m) ew em a b c = ground arith
bounds config (negsuc w) m ew em a b c = ground arith

pub validate_testnet-Validated :
    (config : ChainConfig) → validate_testnet config ≡ ok tt → Validated config
unfolding validate_testnet
validate_testnet-Validated config h =
    let (_, h1) =
      (>>-eq-ok (guard (same_int config.chain_id gensyn_testnet_chain_id) wrong_chain_id) _ tt).0
        h in
    let (a, h2) =
      (>>-eq-ok (guard (not (ltb_ℤ config.native_test_payout_wei (pos 0))) negative_payout) _ tt).0
        h1 in
    let (b, c) =
      (>>-eq-ok (guard (not (ltb_ℤ hard_cap config.native_test_payout_max_wei)) cap_exceeded) _
          tt).0
        h2 in
    bounds config config.native_test_payout_wei config.native_test_payout_max_wei refl refl
      ((guard-eq-ok _ negative_payout).0 a) ((guard-eq-ok _ cap_exceeded).0 b)
      ((guard-eq-ok _ payout_exceeds_max).0 c)

native-WithinCap :
    (config : ChainConfig) → Validated config → WithinCap (native_test_payout_wei config)
unfolding native_test_payout_wei
native-WithinCap config v = rw (v.wei_given, v.max_given) (ground arith)

some_inj : {a b : ℤ} → ◌≡◌ {A = Option ℤ} (some a) (some b) → a ≡ b
some_inj h = cc

clamped-WithinCap :
    (m : ℕ)
    → m ≤ 1000000000000
    → (o : Option ℤ) (payout : ℤ) → clamped (pos m) o ≡ some payout
    → WithinCap payout
clamped-WithinCap m h none payout e = cc
clamped-WithinCap m h (some (pos n)) payout e = ground arith
clamped-WithinCap m h (some (negsuc n)) payout e = ground arith

module _ (fl : Floats) (conv : Conversions fl) (config : ChainConfig)
    (valid : Validated config) where
  amount-WithinCap :
      (o : Option Json) (payout : ℤ)
      → amount fl conv (native_test_payout_wei config) config.native_test_payout_max_wei o
        ≡ some payout
      → WithinCap payout
  amount-WithinCap none payout e = subst WithinCap (some_inj e) (native-WithinCap config valid)
  amount-WithinCap (some raw) payout e =
      clamped-WithinCap valid.max_wei valid.capped (conv.to_int raw) payout
        (ap (λ m. clamped m (conv.to_int raw)) (sym valid.max_given) ∙ e)

  pub update_payout_wei-WithinCap :
      (update : Fields) (payout : ℤ)
      → update_payout_wei fl conv update
          (native_test_payout_wei config)
          config.native_test_payout_max_wei
        ≡ some payout
      → WithinCap payout
  unfolding update_payout_wei
  update_payout_wei-WithinCap update payout e =
      amount-WithinCap (given (get_field "native_test_payout_wei" update)) payout e
