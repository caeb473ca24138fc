-- ===== src/Base/Int.antt =====
-- Go's signed integers over the native numbers, with the 64-bit wrap-around of `int`.
use Prim.Native.Nat.{ℕ, suc, ◌+◌, ◌-◌, ◌*◌, ◌%◌, ◌^◌, ◌≤◌, ◌<◌}
use mathlib.Core.Path.{◌≡◌, refl}
use mathlib.Core.Bool.{Bool}
use native.Mathlib.Omega.{arith}
use tbore.Base.Tests.{ltb, leb, if◌then◌else◌}

-- `negsuc n` is -(n + 1).
pub data ℤ : Type 0 where
  pos : ℕ → ℤ
  negsuc : ℕ → ℤ

abbrev pub pos_part : ℤ → ℕ
pos_part (pos n) = n
pos_part (negsuc n) = 0

abbrev pub neg_part : ℤ → ℕ
neg_part (pos n) = 0
neg_part (negsuc n) = suc n

infix 50 ◌≤ℤ◌ ◌<ℤ◌
abbrev pub ◌≤ℤ◌ : ℤ → ℤ → Type 0
a ≤ℤ b = pos_part a + neg_part b ≤ pos_part b + neg_part a

abbrev pub ◌<ℤ◌ : ℤ → ℤ → Type 0
a <ℤ b = pos_part a + neg_part b < pos_part b + neg_part a

abbrev pub ltb_ℤ : ℤ → ℤ → Bool
ltb_ℤ a b = ltb (pos_part a + neg_part b) (pos_part b + neg_part a)

abbrev pub leb_ℤ : ℤ → ℤ → Bool
leb_ℤ a b = leb (pos_part a + neg_part b) (pos_part b + neg_part a)

-- The residue of an integer modulo 2 ^ 64, and the value that the residue has as an `int64`.
abbrev pub residue64 : ℤ → ℕ
residue64 (pos n) = n % 2 ^ 64
residue64 (negsuc n) = 2 ^ 64 - 1 - n % 2 ^ 64

abbrev pub of_residue64 : ℕ → ℤ
of_residue64 n = if ltb n (2 ^ 63) then pos n else negsuc (2 ^ 64 - 1 - n)

-- What a 64-bit register holds of an integer.
unfoldable pub wrap64 : ℤ → ℤ
wrap64 a = of_residue64 (residue64 a)

-- `n++` on an `int`.
abbrev pub succ_ℤ : ℤ → ℤ
succ_ℤ (pos n) = pos (suc n)
succ_ℤ (negsuc n) = if ltb 0 n then negsuc (n - 1) else pos 0

unfoldable pub increment : ℤ → ℤ
unfolding wrap64
increment n = wrap64 (succ_ℤ n)

-- `n * k` for a constant `k` that is positive.
abbrev pub scale_ℤ : ℕ → ℤ → ℤ
scale_ℤ k (pos n) = pos (k * n)
scale_ℤ k (negsuc n) = negsuc (k * suc n - 1)

-- The integers that an `int64` holds.
abbrev pub InRange64 : ℤ → Type 0
InRange64 (pos n) = n < 2 ^ 63
InRange64 (negsuc n) = n < 2 ^ 63

of_residue64-InRange64 : (n : ℕ) → n < 2 ^ 64 → InRange64 (of_residue64 n)
of_residue64-InRange64 n h = ground arith

pub wrap64-InRange64 : (a : ℤ) → InRange64 (wrap64 a)
unfolding wrap64
wrap64-InRange64 (pos n) = of_residue64-InRange64 _ (omega arith)
wrap64-InRange64 (negsuc n) = of_residue64-InRange64 _ (omega arith)

pub wrap64_pos : (n : ℕ) → n < 2 ^ 63 → wrap64 (pos n) ≡ pos n
unfolding wrap64
wrap64_pos n h = ground arith

pub increment_pos : (n : ℕ) → suc n < 2 ^ 63 → increment (pos n) ≡ pos (suc n)
unfolding increment
increment_pos n h = wrap64_pos (suc n) h

increment_wraps : increment (pos (2 ^ 63 - 1)) ≡ negsuc (2 ^ 63 - 1)
unfolding increment
increment_wraps = refl

-- The same at 32 bits, for `n++` and `n--` on an `int32`.
abbrev pub residue32 : ℤ → ℕ
residue32 (pos n) = n % 2 ^ 32
residue32 (negsuc n) = 2 ^ 32 - 1 - n % 2 ^ 32

abbrev pub wrap32 : ℤ → ℤ
wrap32 a =
    if ltb (residue32 a) (2 ^ 31) then pos (residue32 a) else negsuc (2 ^ 32 - 1 - residue32 a)

abbrev pub increment32 : ℤ → ℤ
increment32 n = wrap32 (succ_ℤ n)

abbrev pub pred_ℤ : ℤ → ℤ
pred_ℤ (pos n) = if ltb 0 n then pos (n - 1) else negsuc 0
pred_ℤ (negsuc n) = negsuc (suc n)

abbrev pub decrement32 : ℤ → ℤ
decrement32 n = wrap32 (pred_ℤ n)
