-- ===== src/Height.antt =====
-- desk/height.go: a height in millimetres, its two wire encodings and the arrival test.
pub mod Encoding
use yaasa_go.Prelude.{
  ℕ, ◌+◌, ◌*◌, ◌/◌, ◌%◌, Bool, List, [], ◌∷◌, Bytes, get_or, if◌then◌else◌, String,
}
use yaasa_go.Float.{FloatOps}

-- `binary.BigEndian.PutUint16` and `Uint16`.
unfoldable pub put_uint16 : ℕ → Bytes
put_uint16 v = v / 256 % 256 ∷ v % 256 ∷ []

unfoldable pub uint16 : Bytes → ℕ
uint16 b = get_or b 0 0 * 256 + get_or b 1 0

module _ {F : Type 0} ⦃o : FloatOps F⦄ where
  unfoldable pub height_from_raw : ℕ → F
  height_from_raw raw = o.div (o.of_nat raw) (o.of_nat 10)

  pub height_from_raw_bytes : Bytes → F
  height_from_raw_bytes b = height_from_raw (uint16 b)

  abbrev pub height_from_mm : F → F
  height_from_mm mm = mm

  unfoldable pub height_from_inches : F → F
  height_from_inches inches = o.mul inches o.inch

  unfoldable pub raw : F → ℕ
  raw h = o.to_uint16 (o.round (o.mul h (o.of_nat 10)))

  unfoldable pub raw_bytes : F → Bytes
  unfolding raw put_uint16
  raw_bytes h = put_uint16 (raw h)

  unfoldable pub millimetre_bytes : F → Bytes
  unfolding put_uint16
  millimetre_bytes h = put_uint16 (o.to_uint16 (o.round h))

  abbrev pub mm : F → F
  mm h = h

  pub inches : F → F
  inches h = o.div h o.inch

  -- `|h - other| <= tolerance`
  unfoldable pub near : F → F → F → Bool
  near h other tolerance =
      let diff = o.sub h other in
      o.le (if o.lt diff (o.of_nat 0) then o.neg diff else diff) tolerance
