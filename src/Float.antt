-- ===== src/Float.antt =====
-- What the program uses of Go's `float64`: its operations as an interface, and the facts of IEEE
-- 754 arithmetic that the theorems need, all about whole numbers below 2 ^ 53.
pub mod Whole
use yaasa_go.Prelude.{ℕ, ◌-◌, ◌*◌, ◌^◌, ◌≤◌, ◌<◌, ◌≡◌, Bool, true, false, leb, String}

pub record FloatOps (F : Type 0) : Type 0 where
  -- `float64(n)`, and a literal such as 10.0
  pub of_nat : ℕ → F
  -- the literal 25.4
  pub inch : F
  pub neg : F → F
  pub sub : F → F → F
  pub mul : F → F → F
  pub div : F → F → F
  pub lt : F → F → Bool
  pub le : F → F → Bool
  -- `math.Round`
  pub round : F → F
  -- `uint16(x)`
  pub to_uint16 : F → ℕ
  -- `int64(x)` of a value that is not negative
  pub to_nat : F → ℕ
  -- `fmt.Sprintf("%.1f", x)`
  pub format1 : F → String

abbrev pub exact : ℕ
exact = 2 ^ 53

-- IEEE 754: on whole numbers below 2 ^ 53 these operations are exact.
pub record IsFloat64 {F : Type 0} (o : FloatOps F) : Type 0 where
  pub sub_nat : (a b : ℕ) → a < exact → b ≤ a → o.sub (o.of_nat a) (o.of_nat b) ≡ o.of_nat (a - b)
  pub sub_below :
      (a b : ℕ) → b < exact → a < b → o.sub (o.of_nat a) (o.of_nat b) ≡ o.neg (o.of_nat (b - a))
  pub neg_neg : (x : F) → o.neg (o.neg x) ≡ x
  pub lt_zero : (n : ℕ) → o.lt (o.of_nat n) (o.of_nat 0) ≡ false
  pub neg_lt_zero : (n : ℕ) → 0 < n → o.lt (o.neg (o.of_nat n)) (o.of_nat 0) ≡ true
  pub le_nat : (a b : ℕ) → a < exact → b < exact → o.le (o.of_nat a) (o.of_nat b) ≡ leb a b
  pub mul_nat : (a b : ℕ) → a * b < exact → o.mul (o.of_nat a) (o.of_nat b) ≡ o.of_nat (a * b)
  pub round_nat : (n : ℕ) → n < exact → o.round (o.of_nat n) ≡ o.of_nat n
  pub to_uint16_nat : (n : ℕ) → n < 2 ^ 16 → o.to_uint16 (o.of_nat n) ≡ n
