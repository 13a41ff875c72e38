-- ===== src/Base/Floats.antt =====
-- Python's floats as the program uses them: an ordered type. IEEE comparison without NaN is a
-- strict weak order, which is all that is assumed; no arithmetic law is.
use Prim.Native.String.{String}
use mathlib.Core.Path.{◌≡◌}
use mathlib.Core.Logic.{◌⊎◌}
use mathlib.Core.Bool.{Bool, true, false}

pub record Floats : Type 1 where
  pub Float : Type 0
  pub zero : Float
  pub lt : Float → Float → Bool
  pub fixed2 : Float → String
  pub lt_irrefl : (x : Float) → lt x x ≡ false
  pub lt_trans : (x y z : Float) → lt x y ≡ true → lt y z ≡ true → lt x z ≡ true
  pub lt_compare : (x y z : Float) → lt x z ≡ true → (lt x y ≡ true) ⊎ (lt y z ≡ true)
