-- ===== src/Prelude/Int.antt =====
-- Go's `int`, `int64` and `time.Duration`: integers over the native numbers, with 64-bit wrap-around.
use Prim.Native.Nat.{ℕ, suc, ◌+◌, ◌-◌, ◌%◌, ◌≤◌, ◌<◌}
use mathlib.Core.Path.{◌≡◌}
use mathlib.Core.Bool.{Bool}
use native.Mathlib.Omega.{arith}
use xutils.Prelude.Tests.{ltb, leb, ◌==◌, if◌then◌else◌}

-- `negsuc n` is -(n + 1).
pub data ℤ : Type 0 where
  pos : ℕ → ℤ
  negsuc : ℕ → ℤ

abbrev pub pos_part : ℤ → ℕ
pos_part (pos n) = n
pos_part (negsuc n) = 0

abbrev pub neg_part : ℤ → ℕ
neg_part (pos n) = 0
neg_part (negsuc n) = suc n

-- a - b, as an integer.
abbrev pub sub_ℕ : ℕ → ℕ → ℤ
sub_ℕ a b = if leb b a then pos (a - b) else negsuc (b - a - 1)

infixl 65 ◌+ℤ◌ ◌-ℤ◌
infix 50 ◌≤ℤ◌ ◌<ℤ◌
unfoldable pub ◌+ℤ◌ : ℤ → ℤ → ℤ
a +ℤ b = sub_ℕ (pos_part a + pos_part b) (neg_part a + neg_part b)

unfoldable pub ◌-ℤ◌ : ℤ → ℤ → ℤ
a -ℤ b = sub_ℕ (pos_part a + neg_part b) (neg_part a + pos_part b)

abbrev pub ◌≤ℤ◌ : ℤ → ℤ → Type 0
a ≤ℤ b = pos_part a + neg_part b ≤ pos_part b + neg_part a

abbrev pub ◌<ℤ◌ : ℤ → ℤ → Type 0
a <ℤ b = pos_part a + neg_part b < pos_part b + neg_part a

abbrev pub ltb_ℤ : ℤ → ℤ → Bool
ltb_ℤ a b = ltb (pos_part a + neg_part b) (pos_part b + neg_part a)

abbrev pub leb_ℤ : ℤ → ℤ → Bool
leb_ℤ a b = leb (pos_part a + neg_part b) (pos_part b + neg_part a)

abbrev pub eq_ℤ : ℤ → ℤ → Bool
eq_ℤ a b = (pos_part a + neg_part b) == (pos_part b + neg_part a)

-- The largest int64, 2 ^ 63 - 1.
abbrev pub max_int64 : ℕ
max_int64 = 9223372036854775807

-- The value that two's complement leaves in 64 bits.
unfoldable pub wrap64 : ℤ → ℤ
wrap64 (pos n) =
    let m = n % 18446744073709551616 in
    if leb m max_int64 then pos m else negsuc (18446744073709551615 - m)
wrap64 (negsuc n) =
    let m = n % 18446744073709551616 in
    if leb m max_int64 then negsuc m else pos (18446744073709551615 - m)

-- `Time.Sub` returns the nearest representable Duration.
unfoldable pub saturate : ℤ → ℤ
saturate (pos n) = if leb n max_int64 then pos n else pos max_int64
saturate (negsuc n) = if leb n max_int64 then negsuc n else negsuc max_int64

abbrev pub InRange64 : ℤ → Type 0
InRange64 z = (pos_part z ≤ max_int64) × (neg_part z ≤ suc max_int64)

pub wrap64_id : (z : ℤ) → InRange64 z → wrap64 z ≡ z
unfolding wrap64
wrap64_id (pos n) h = ground arith
wrap64_id (negsuc n) h = ground arith

pub wrap64-InRange64 : (z : ℤ) → InRange64 (wrap64 z)
unfolding wrap64
wrap64-InRange64 (pos n) = ground arith
wrap64-InRange64 (negsuc n) = ground arith
