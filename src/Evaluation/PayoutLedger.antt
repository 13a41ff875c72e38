-- ===== src/Evaluation/PayoutLedger.antt =====
-- The ledger of a payout simulation and what pydantic checks of it (app/evaluation/payouts/schemas.py).
use Prim.Native.Char.{Char, code}
use Prim.Native.String.{String as Text}
use signal_count.Base.{
  ℕ, zero, suc, String, Bool, true, false, not, ◌&&◌, ◌||◌, List, leb, nat_beq, ◌≡◌, inl, inr,
  Bool-cases, if◌then◌else◌,
}
use signal_count.Base.Dict.{Dict}
use signal_count.Base.Int.{ℤ, pos, ltb_ℤ}
use signal_count.Base.Text.{is_empty}
use signal_count.Base.Outcome.{Outcome, ok, err, ok_inj}
use signal_count.Base.Floats.{Floats}

-- The `ValueError` of a base below 0, the `OverflowError` of a product that is no finite float or of a
-- base that is too large for one, and the `ValidationError` of a schema.
pub data PayoutError : Type 0 where
  negative_base overflow : PayoutError
  invalid_entry invalid_round invalid_simulation : PayoutError

pub record PeerRoundEntry (F : Type 0) : Type 0 where
  pub peer_id : String
  pub role : String
  pub wallet : String
  pub reputation_before : F
  pub verifier_score : F
  pub reputation_after : F
  pub multiplier : F
  pub base_wei : ℤ
  pub payout_wei : ℕ
  pub slashed : Bool

pub record RoundLedger (F : Type 0) : Type 0 where
  pub round_index : ℤ
  pub job_id : String
  pub peers : List (PeerRoundEntry F)
  pub total_payout_wei : ℕ

pub record SimulationLedger (F : Type 0) : Type 0 where
  pub base_wei : ℤ
  pub rounds : List (RoundLedger F)
  pub final_reputation : Dict String F
  pub cumulative_payout_wei : Dict String ℕ

abbrev is_hex_char : Char → Bool
is_hex_char c =
    let n = code c in leb 48 n && leb n 57 || leb 65 n && leb n 70 || leb 97 n && leb n 102

-- A text of `n` hexadecimal digits.
abbrev are_hex_chars : ℕ → String → Bool
are_hex_chars zero Text.[] = true
are_hex_chars zero (Text.◌∷◌ c s) = false
are_hex_chars (suc n) Text.[] = false
are_hex_chars (suc n) (Text.◌∷◌ c s) = is_hex_char c && are_hex_chars n s

-- The pattern `^0x[a-fA-F0-9]{40}$`, by codes of characters.
unfoldable pub is_wallet : String → Bool
is_wallet (Text.◌∷◌ a (Text.◌∷◌ b s)) =
    nat_beq (code a) 48 && nat_beq (code b) 120 && are_hex_chars 40 s
is_wallet _ = false

module _ (fl : Floats) (one : fl.Float) where
  open fl use {Float, lt}

  -- `Field(ge=0.0)`, and with `le=1.0`
  abbrev pub is_nonneg : Float → Bool
  is_nonneg x = not (lt x fl.zero)

  abbrev pub in_unit : Float → Bool
  in_unit x = is_nonneg x && not (lt one x)

  -- The constraints of a `PeerRoundEntry`; its payout is a natural number.
  abbrev pub is_entry : PeerRoundEntry Float → Bool
  is_entry e =
      not (is_empty e.peer_id)
      && not (is_empty e.role)
      && is_wallet e.wallet
      && (in_unit e.reputation_before && in_unit e.verifier_score && in_unit e.reputation_after)
      && (is_nonneg e.multiplier && not (ltb_ℤ e.base_wei (pos 0)))

  -- `PeerRoundEntry(...)`
  unfoldable pub make_entry : PeerRoundEntry Float → Outcome PayoutError (PeerRoundEntry Float)
  unfolding is_wallet
  make_entry e = if is_entry e then ok e else err invalid_entry

  -- `RoundLedger(...)`
  unfoldable pub make_round : RoundLedger Float → Outcome PayoutError (RoundLedger Float)
  make_round l =
      if not (ltb_ℤ l.round_index (pos 0)) && not (is_empty l.job_id)
      then ok l
      else err invalid_round

  -- `SimulationLedger(...)`
  unfoldable pub make_simulation :
      SimulationLedger Float → Outcome PayoutError (SimulationLedger Float)
  make_simulation l = if ltb_ℤ l.base_wei (pos 0) then err invalid_simulation else ok l

  -- A constructor gives what it is given, or raises.
  checked :
      {A : Type 0} (b : Bool) (a c : A) (e : PayoutError)
      → (if b then ok a else err e) ≡ ok c
      → a ≡ c
  checked true a c e h = ok_inj h
  checked false a c e h = cc

  pub make_round-same : (l m : RoundLedger Float) → make_round l ≡ ok m → l ≡ m
  unfolding make_round
  make_round-same l m made = checked _ l m invalid_round made

  pub make_simulation-same : (l m : SimulationLedger Float) → make_simulation l ≡ ok m → l ≡ m
  unfolding make_simulation
  make_simulation-same l m made = elim (Bool-cases (ltb_ℤ l.base_wei (pos 0))) [
    | inl below ↦ let bad = rw below at made in cc
    | inr fine ↦ ok_inj (rw fine at made)
  ]
