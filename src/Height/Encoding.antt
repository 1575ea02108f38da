-- ===== src/Height/Encoding.antt =====
-- desk/height.go on whole millimetres.
use yaasa_go.Prelude.{
  ℕ, ◌+◌, ◌-◌, ◌*◌, ◌^◌, ◌<◌, ◌≡◌, inl, inr, ap, ◌∙◌, IsBytes, leb, arith, Bool-cases,
}
use yaasa_go.Float.{FloatOps, IsFloat64}
use yaasa_go.Height.{put_uint16, uint16, millimetre_bytes, raw_bytes, near}

pub uint16-put_uint16 : (v : ℕ) → v < 2 ^ 16 → uint16 (put_uint16 v) ≡ v
unfolding uint16 put_uint16
uint16-put_uint16 v h = omega arith

pub put_uint16-IsBytes : (v : ℕ) → IsBytes (put_uint16 v)
unfolding put_uint16
put_uint16-IsBytes v = omega arith

abbrev pub distance : ℕ → ℕ → ℕ
distance a b = (a - b) + (b - a)

module _ {F : Type 0} ⦃o : FloatOps F⦄ (laws : IsFloat64 o) where
  -- A whole height below 2 ^ 16 mm is sent as itself, most significant byte first.
  pub millimetre_bytes-of_nat : (n : ℕ) → n < 2 ^ 16 → millimetre_bytes (o.of_nat n) ≡ put_uint16 n
  unfolding millimetre_bytes
  millimetre_bytes-of_nat n h =
      ap put_uint16 (ap o.to_uint16 (laws.round_nat n (omega arith)) ∙ laws.to_uint16_nat n h)

  -- In the encoding of the uplift-ble tools it is sent in tenths.
  pub raw_bytes-of_nat : (n : ℕ) → n * 10 < 2 ^ 16 → raw_bytes (o.of_nat n) ≡ put_uint16 (n * 10)
  unfolding raw_bytes
  raw_bytes-of_nat n h = ap put_uint16 (
      ap o.to_uint16
        (ap o.round (laws.mul_nat n 10 (omega arith)) ∙ laws.round_nat (n * 10) (omega arith))
      ∙ laws.to_uint16_nat (n * 10) h)

  -- The arrival test on whole millimetres is that of the distance.
  pub near-distance :
      (h target tolerance : ℕ)
      → h < 2 ^ 16
      → target < 2 ^ 16
      → tolerance < 2 ^ 16
      → near (o.of_nat h) (o.of_nat target) (o.of_nat tolerance) ≡ leb (distance h target) tolerance
  unfolding near
  near-distance h target tolerance hh ht hl = elim (Bool-cases (leb target h)) [
    | inl above ↦
        rw (near, laws.sub_nat h target (omega arith) (ground arith), laws.lt_zero (h - target))
          (laws.le_nat (h - target) tolerance (omega arith) (omega arith)
            ∙ ap (λ d. leb d tolerance) (ground arith))
    | inr below ↦
        rw
          (
            near,
            laws.sub_below h target (omega arith) (ground arith),
            laws.neg_lt_zero (target - h) (ground arith),
            laws.neg_neg (o.of_nat (target - h)),
          )
          (laws.le_nat (target - h) tolerance (omega arith) (omega arith)
            ∙ ap (λ d. leb d tolerance) (ground arith))
  ]
