-- ===== src/Examples/Floats.antt =====
-- An ordered type to test with in place of Python's floats (it models no code of the program).
use signal_count.Base.{ℕ, ltb, arith}
use signal_count.Base.Floats.{Floats}

abbrev pub sample_floats : Floats
sample_floats = record {
  Float = ℕ;
  zero = 0;
  lt = ltb;
  fixed2 = λ x. "0.00";
  lt_irrefl = λ x. ground arith;
  lt_trans = λ x y z p q. ground arith;
  lt_compare = λ x y z p. ground arith;
}
