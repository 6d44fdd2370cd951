-- ===== src/Randutil/Numbers.antt =====
-- randutil/number.go and randutil/key.go: GenerateRandomNumber and GenerateKeyBytes. crypto/rand.Int and
-- crypto/rand.Read are parameters; `none` is their error.
use native.Mathlib.Nat.{pow-le-pow_right, pow-suc, one-le-pow}
use xutils.Prelude.{
  ℕ, zero, suc, ◌+◌, ◌-◌, ◌*◌, ◌^◌, ◌≤◌, ◌<◌, ℤ, pos, Option, none, some, ltb, max_int64, ltb_ℤ,
  if◌then◌else◌, ◌≡◌, refl, arith, ap, false,
}
use xutils.Bytes.{Bytes}

pub data NumberResult : Type 0 where
  number : ℕ → NumberResult
  no_digits : NumberResult
  too_many_digits : NumberResult
  no_random : NumberResult

-- The largest number of `length` digits that is an int64.
unfoldable pub upper : ℕ → ℕ
upper length = if ltb max_int64 (10 ^ length - 1) then max_int64 else 10 ^ length - 1

-- How many numbers there are to choose from.
unfoldable pub span_of : ℕ → ℕ
unfolding upper
span_of length = upper length - 10 ^ (length - 1) + 1

-- GenerateRandomNumber
unfoldable pub generate_random_number : (ℕ → Option ℕ) → ℕ → NumberResult
unfolding span_of
generate_random_number rand zero = no_digits
generate_random_number rand (suc n) =
    if ltb 19 (suc n)
    then too_many_digits
    else elim (rand (span_of (suc n))) [ none ↦ no_random | some v ↦ number (v + 10 ^ n) ]

pub data KeyResult : Type 0 where
  key : Bytes → KeyResult
  too_short : ℤ → KeyResult
  no_key : KeyResult

-- GenerateKeyBytes; MinKeySize is 16.
unfoldable pub generate_key_bytes : (ℤ → Option Bytes) → ℤ → KeyResult
generate_key_bytes read n_bytes =
    if ltb_ℤ n_bytes (pos 16)
    then too_short n_bytes
    else elim (read n_bytes) [ none ↦ no_key | some b ↦ key b ]

-- A number with `length` digits, the first of them not 0, that an int64 holds.
pub record HasDigits (length v : ℕ) : Type 0 where
  pub low : 10 ^ (length - 1) ≤ v
  pub high : v < 10 ^ length
  pub fits : v ≤ max_int64

power-small : (n : ℕ) → n ≤ 18 → 10 ^ n ≤ 1000000000000000000
power-small n h = pow-le-pow_right (omega arith) h

-- The bounds between which the number is chosen.
record Range (n : ℕ) : Type 0 where
  pub not_empty : 10 ^ n ≤ upper (suc n)
  pub below : upper (suc n) < 10 ^ suc n
  pub fits : upper (suc n) ≤ max_int64

upper-Range : (n : ℕ) → n ≤ 18 → Range n
unfolding upper
upper-Range n h = record { not_empty = by_power.0; below = by_power.1; fits = by_power.2 }
  where
    bound : ℕ → ℕ
    bound q = if ltb max_int64 (q - 1) then max_int64 else q - 1

    abstracted :
        (p q : ℕ)
        → q ≡ p * 10
        → 1 ≤ p
        → p ≤ 1000000000000000000
        → (p ≤ bound q) × (bound q < q) × (bound q ≤ max_int64)
    abstracted p q e low high = ground (arith, e, low, high)

    by_power :
        (10 ^ n ≤ bound (10 ^ suc n))
        × (bound (10 ^ suc n) < 10 ^ suc n)
        × (bound (10 ^ suc n) ≤ max_int64)
    by_power =
        abstracted (10 ^ n) (10 ^ suc n) (pow-suc 10 n) (one-le-pow n 10 (omega arith))
          (power-small n h)

-- rand.Int: it gives a number below the bound that it is given, which is not 0.
pub record DrawsBelow (rand : ℕ → Option ℕ) : Type 0 where
  pub chosen : ℕ → ℕ
  pub gives : (span : ℕ) → 0 < span → rand span ≡ some (chosen span)
  pub bounded : (span : ℕ) → 0 < span → chosen span < span

-- For a length from 1 to 19 the number has exactly so many decimal digits, the first of them not 0, and
-- is an int64, also where the largest number of 19 digits is none. rand.Int gives a number below the
-- bound it is given.
pub generate_random_number-HasDigits :
    (rand : ℕ → Option ℕ) (n : ℕ)
    → DrawsBelow rand
    → n ≤ 18
    → (v : ℕ) × (generate_random_number rand (suc n) ≡ number v) × HasDigits (suc n) v
unfolding generate_random_number span_of
generate_random_number-HasDigits rand n draws h =
    let span = span_of (suc n) in
    let some_span : 0 < span = omega arith in
    let few : ltb 19 (suc n) ≡ false = ground (arith, h) in
    let power : 10 ^ (suc n - 1) ≡ 10 ^ n = ap (λ k. 10 ^ k) (omega arith) in
    let range = upper-Range n h in
    let bounded = draws.bounded span some_span in
    (
      draws.chosen span + 10 ^ n,
      rw (few, draws.gives span some_span) refl,
      record {
        low = omega (arith, power);
        high = omega (arith, power, bounded, range.below, range.not_empty);
        fits = omega (arith, power, bounded, range.fits, range.not_empty);
      },
    )
