-- ===== src/Prelude/Int.antt =====
-- Signed integers over the native numbers: Go's `int` and `int64`, with the wrap-around of `int64`.
use Prim.Native.Nat.{ℕ, suc, ◌+◌, ◌-◌, ◌*◌, ◌%◌, ◌^◌, ◌<◌}
use mathlib.Core.Path.{◌≡◌}
use mathlib.Core.Bool.{Bool, true, false}
use native.Mathlib.Omega.{arith}
use yaasa_go.Prelude.Tests.{ltb, leb, if◌then◌else◌}

-- `negsuc n` is -(n + 1).
pub data ℤ : Type 0 where
  pos : ℕ → ℤ
  negsuc : ℕ → ℤ

-- `x <= 0`
abbrev pub is_nonpos : ℤ → Bool
is_nonpos (pos n) = leb n 0
is_nonpos (negsuc n) = true

abbrev pub pos_part : ℤ → ℕ
pos_part (pos n) = n
pos_part (negsuc n) = 0

abbrev pub neg_part : ℤ → ℕ
neg_part (pos n) = 0
neg_part (negsuc n) = suc n

-- `x < y`
abbrev pub ltb_ℤ : ℤ → ℤ → Bool
ltb_ℤ a b = ltb (pos_part a + neg_part b) (pos_part b + neg_part a)

-- `x == y`
abbrev pub eqb_ℤ : ℤ → ℤ → Bool
eqb_ℤ a b = if ltb_ℤ a b then false else if ltb_ℤ b a then false else true

abbrev int64_mod : ℕ
int64_mod = 2 ^ 64

-- The `int64` that a bit pattern below 2 ^ 64 stands for.
abbrev signed64 : ℕ → ℤ
signed64 w = if ltb w (2 ^ 63) then pos w else negsuc (int64_mod - w - 1)

-- Any integer reduced to `int64` by wrap-around.
pub wrap64 : ℤ → ℤ
wrap64 (pos n) = signed64 (n % int64_mod)
wrap64 (negsuc n) = signed64 (int64_mod - 1 - n % int64_mod)

-- The product of an `int64` by a positive constant, with wrap-around.
unfoldable pub scale64 : ℕ → ℤ → ℤ
unfolding wrap64
scale64 k (pos n) = wrap64 (pos (n * k))
scale64 k (negsuc n) = wrap64 (negsuc (suc n * k - 1))

-- The sum of an `int64` and a positive constant below 2 ^ 63, with wrap-around.
unfoldable pub add64 : ℤ → ℕ → ℤ
unfolding wrap64
add64 (pos n) k = wrap64 (pos (n + k))
add64 (negsuc n) k = if leb (suc n) k then pos (k - suc n) else negsuc (n - k)

pub add64-pos : (n k : ℕ) → n + k < 2 ^ 63 → add64 (pos n) k ≡ pos (n + k)
unfolding add64
add64-pos n k h = ground arith

-- No wrap-around where the true product fits.
pub scale64-pos : (k n : ℕ) → n * k < 2 ^ 63 → scale64 k (pos n) ≡ pos (n * k)
unfolding scale64
scale64-pos k n h = ground arith
