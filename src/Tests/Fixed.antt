-- ===== src/Tests/Fixed.antt =====
-- Numbers with nine decimals, in place of float64, on which the validation and the triage run.
use ruleraven.Common.{ℕ, ◌*◌, ◌-◌, ◌/◌, ◌^◌, false, arith, if◌then◌else◌}
use ruleraven.Common.Int.{ℤ, pos, ◌+ℤ◌, ◌-ℤ◌, ltb_ℤ, leb_ℤ, pos_part}
use ruleraven.Provider.Float.{Float64, IsOrdered}

abbrev one : ℕ
one = 10 ^ 9

abbrev pub fixed : Float64
fixed = record {
  F = ℤ;
  lt = ltb_ℤ;
  le = leb_ℤ;
  add = λ a b. a +ℤ b;
  sub = λ a b. a -ℤ b;
  mul = λ a b. if ltb_ℤ a (pos 0) then pos 0 else pos (pos_part a * pos_part b / one);
  abs = λ a. if ltb_ℤ a (pos 0) then pos 0 -ℤ a else a;
  is_nan = λ a. false;
  is_inf = λ a. false;
  decimal = λ m e. pos (m * 10 ^ (9 - e));
}

pub fixed-IsOrdered : IsOrdered fixed
fixed-IsOrdered = record {
  le_trans = λ x y z h k. ground arith;
  le-lt_trans = λ x y z h k. ground arith;
}
