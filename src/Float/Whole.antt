-- ===== src/Float/Whole.antt =====
-- A concrete instance of the `float64` interface, for the tests and the witnesses: the whole
-- numbers, with exact operations.
use yaasa_go.Prelude.{
  ℕ, zero, suc, ◌+◌, ◌-◌, ◌*◌, ◌/◌, ◌%◌, ◌^◌, ◌≡◌, refl, not, leb, arith, if◌then◌else◌,
}
use yaasa_go.Prelude.Int.{ℤ, pos, negsuc, pos_part, neg_part, ltb_ℤ}
use yaasa_go.Float.{FloatOps, IsFloat64}

abbrev sub_ℕ : ℕ → ℕ → ℤ
sub_ℕ a b = if leb b a then pos (a - b) else negsuc (b - a - 1)

abbrev neg_ℤ : ℤ → ℤ
neg_ℤ a = sub_ℕ (neg_part a) (pos_part a)

abbrev sub_ℤ : ℤ → ℤ → ℤ
sub_ℤ a b = sub_ℕ (pos_part a + neg_part b) (neg_part a + pos_part b)

abbrev mul_ℤ : ℤ → ℤ → ℤ
mul_ℤ a b =
    sub_ℕ (pos_part a * pos_part b + neg_part a * neg_part b)
      (pos_part a * neg_part b + neg_part a * pos_part b)

abbrev div_ℤ : ℤ → ℤ → ℤ
div_ℤ a b = sub_ℕ (pos_part a / pos_part b) (neg_part a / pos_part b)

instance abbrev pub whole : FloatOps ℤ
whole = record {
  of_nat = λ n. pos n;
  inch = pos 25;
  neg = neg_ℤ;
  sub = sub_ℤ;
  mul = mul_ℤ;
  div = div_ℤ;
  lt = ltb_ℤ;
  le = λ a b. not (ltb_ℤ b a);
  round = λ a. a;
  to_uint16 = λ a. pos_part a % 2 ^ 16;
  to_nat = pos_part;
  format1 = λ a. "";
}

pub whole-IsFloat64 : IsFloat64 whole
whole-IsFloat64 = record {
  sub_nat = λ a b h k. ground arith;
  sub_below = λ a b h k. ground arith;
  neg_neg = λ x. neg_neg x;
  lt_zero = λ n. ground arith;
  neg_lt_zero = λ n h. ground arith;
  le_nat = λ a b h k. ground arith;
  mul_nat = λ a b h. ground arith;
  round_nat = λ n h. refl;
  to_uint16_nat = λ n h. omega arith;
}
  where
    neg_neg : (x : ℤ) → neg_ℤ (neg_ℤ x) ≡ x
    neg_neg (pos zero) = refl
    neg_neg (pos (suc n)) = ground arith
    neg_neg (negsuc n) = ground arith
