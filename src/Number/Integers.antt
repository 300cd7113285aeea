-- ===== src/Number/Integers.antt =====
-- The integers as numbers: a reading of `Number` at which the laws hold and the code runs.
use opiumo.Base.{◌+◌, ◌/◌, Bool, arith, ltb, leb, if◌then◌else◌}
use opiumo.Int.{ℤ, pos, pos_part, neg_part, sub_ℕ, ◌+ℤ◌, ◌-ℤ◌, ◌*ℤ◌}
use opiumo.Number.{Number, IsOrdered}

abbrev leb_ℤ : ℤ → ℤ → Bool
leb_ℤ a b = leb (pos_part a + neg_part b) (pos_part b + neg_part a)

abbrev lt_ℤ : ℤ → ℤ → Bool
lt_ℤ a b = ltb (pos_part a + neg_part b) (pos_part b + neg_part a)

-- Division rounds towards zero.
abbrev pub div_ℤ : ℤ → ℤ → ℤ
div_ℤ a b =
    sub_ℕ (pos_part a / pos_part b + neg_part a / neg_part b)
      (pos_part a / neg_part b + neg_part a / pos_part b)

instance abbrev pub ℤ_number : Number ℤ
ℤ_number = record {
  of_nat = pos;
  add = ◌+ℤ◌;
  sub = ◌-ℤ◌;
  neg = λ a. sub_ℕ (neg_part a) (pos_part a);
  mul = ◌*ℤ◌;
  div = div_ℤ;
  le = leb_ℤ;
  lt = lt_ℤ;
  max = λ a b. if leb_ℤ a b then b else a;
  min = λ a b. if leb_ℤ a b then a else b;
  abs = λ a. pos (pos_part a + neg_part a);
  to_fixed = λ a. a;
}

pub ℤ-IsOrdered : IsOrdered ℤ
ℤ-IsOrdered = record {
  numeric_of_le = λ x y h. ground arith;
  le_trans = λ x y z h k. ground arith;
  le_total = λ x y h k. ground arith;
  lt-eq-not-le = λ x y h k. ground arith;
  le-max_left = λ x y h k. ground arith;
  le-max_right = λ x y h k. ground arith;
  min-le_left = λ x y h. ground arith;
  min-le_right = λ x y h. ground arith;
  min_either = λ x y. ground arith;
}
