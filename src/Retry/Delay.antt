-- ===== src/Retry/Delay.antt =====
-- retry/retry.go: backoffDelay.
use xutils.Prelude.{
  ℕ, zero, suc, ap, ◌∙◌, wrap64_id, ◌-◌, ◌*◌, ◌^◌, ◌≤◌, ◌<◌, ℤ, pos, negsuc, ◌&&◌, ◌≡◌, arith,
  ltb_ℤ, leb_ℤ, leb, if◌then◌else◌, wrap64, ◌≤ℤ◌, ◌<ℤ◌, max_int64,
}

-- `x << n` of an int64
unfoldable pub shift_left : ℤ → ℕ → ℤ
shift_left (pos a) n = wrap64 (pos (a * 2 ^ n))
shift_left (negsuc a) n = wrap64 (negsuc (suc a * 2 ^ n - 1))

-- min(attempt - 1, 62), for the attempts from 1 on that the loop counts
unfoldable pub shift_of : ℕ → ℕ
shift_of attempt = if leb (attempt - 1) 62 then attempt - 1 else 62

-- backoffDelay, from `delay := r.delay << shift` on
unfoldable pub guard_delay : ℤ → ℤ → ℤ → ℤ
guard_delay delay max_delay shifted =
    if leb_ℤ shifted (pos 0)
    then (if ltb_ℤ (pos 0) max_delay then max_delay else delay)
    else (if ltb_ℤ (pos 0) max_delay && ltb_ℤ max_delay shifted then max_delay else shifted)

-- backoffDelay
unfoldable pub backoff_delay : ℤ → ℤ → ℕ → ℤ
unfolding shift_left shift_of guard_delay
backoff_delay delay max_delay attempt =
    guard_delay delay max_delay (shift_left delay (shift_of attempt))

guard_delay-capped :
    (delay max_delay shifted : ℤ)
    → pos 0 <ℤ max_delay
    → (pos 0 <ℤ guard_delay delay max_delay shifted)
      × (guard_delay delay max_delay shifted ≤ℤ max_delay)
unfolding guard_delay
guard_delay-capped delay max_delay shifted h = ground arith

guard_delay-positive :
    (delay max_delay shifted : ℤ) → pos 0 <ℤ delay → pos 0 <ℤ guard_delay delay max_delay shifted
unfolding guard_delay
guard_delay-positive delay max_delay shifted h = ground arith

-- With a positive cap the delay is positive and within the cap, on every attempt and for every
-- base delay, though the shift wraps around.
pub backoff_delay-capped :
    (delay max_delay : ℤ) (attempt : ℕ)
    → pos 0 <ℤ max_delay
    → (pos 0 <ℤ backoff_delay delay max_delay attempt)
      × (backoff_delay delay max_delay attempt ≤ℤ max_delay)
unfolding backoff_delay
backoff_delay-capped delay max_delay attempt h =
    guard_delay-capped delay max_delay (shift_left delay (shift_of attempt)) h

-- A positive base delay never becomes a delay of zero or less, with or without a cap.
backoff_delay-positive :
    (delay max_delay : ℤ) (attempt : ℕ)
    → pos 0 <ℤ delay
    → pos 0 <ℤ backoff_delay delay max_delay attempt
unfolding backoff_delay
backoff_delay-positive delay max_delay attempt h =
    guard_delay-positive delay max_delay (shift_left delay (shift_of attempt)) h

mul-positive : (a b : ℕ) → 0 < a → 0 < b → 0 < a * b
mul-positive zero b h hb = omega (arith, h)
mul-positive (suc a) b h hb = omega (arith, hb)

pow-positive : (n : ℕ) → 0 < 2 ^ n
pow-positive zero = omega arith
pow-positive (suc n) = omega (arith, pow-positive n)

shift_of-suc : (attempt : ℕ) → attempt ≤ 62 → shift_of (suc attempt) ≡ attempt
unfolding shift_of
shift_of-suc attempt h = ground arith

guard_delay-kept : (base n : ℕ) → 0 < n → guard_delay (pos base) (pos 0) (pos n) ≡ pos n
unfolding guard_delay
guard_delay-kept base n h = ground arith

shift_left-exact :
    (base n : ℕ) → base * 2 ^ n ≤ max_int64 → shift_left (pos base) n ≡ pos (base * 2 ^ n)
unfolding shift_left
shift_left-exact base n h = wrap64_id (pos (base * 2 ^ n)) (h, omega arith)

-- As long as delay * 2^(attempt-1) is an int64, on the attempts up to 63, the delay without a cap is
-- exactly that product.
pub backoff_delay-exact :
    (base attempt : ℕ)
    → 0 < base
    → attempt ≤ 62
    → base * 2 ^ attempt ≤ max_int64
    → backoff_delay (pos base) (pos 0) (suc attempt) ≡ pos (base * 2 ^ attempt)
unfolding backoff_delay
backoff_delay-exact base attempt h ha hb =
    ap (λ n. guard_delay (pos base) (pos 0) (shift_left (pos base) n)) (shift_of-suc attempt ha)
    ∙ ap (guard_delay (pos base) (pos 0)) (shift_left-exact base attempt hb)
    ∙ guard_delay-kept base (base * 2 ^ attempt)
        (mul-positive base (2 ^ attempt) h (pow-positive attempt))
