-- ===== src/Retry/Loop.antt =====
-- retry/retry.go: Do with its loops, as functions of the world.
use xutils.Prelude.{
  ℕ, zero, suc, ℤ, pos, Bool, true, false, ◌&&◌, not, Option, none, some, ltb_ℤ, if◌then◌else◌,
  is_some,
}
use xutils.Retry.Policy.{
  Policy, linear, backoff, infinite, unsupported, Failure, plain, exhausted, nil_function,
  bad_attempts, bad_policy, no_context, Retry,
}
use xutils.Retry.Delay.{backoff_delay}

-- The result of a loop: nil, an error, or none of the two yet (the fuel of the infinite loop is used up).
pub data Result (E : Type 0) : Type 0 where
  success : Result E
  failure : Failure E → Result E
  unfinished : Result E

abbrev pub apply_callback : {W : Type 0} → Option (W → W) → W → W
apply_callback none w = w
apply_callback (some f) w = f w

module _ {W E : Type 0} (r : Retry W E) where
  -- An action on the world with a result.
  abbrev pub Run : Type 0
  Run = W → Result E × W

  -- ctxErr
  unfoldable pub context_error : Option (W → Option E × W) → W → Option E × W
  context_error none w = (none, w)
  context_error (some c) w = c w

  -- `if err := ...; err != nil { return err }`
  unfoldable pub stop_or : Option E → Run → Run
  stop_or none rest w = rest w
  stop_or (some err) rest w = (failure (plain err), w)

  -- After a failed attempt: the callback, the exit, and what comes next.
  unfoldable pub after_failure : E → Run → Run
  after_failure err next w =
      if r.is_exit err
      then (failure (plain err), apply_callback r.on_failed w)
      else next (apply_callback r.on_failed w)

  unfoldable pub after_call : Option E → (E → Run) → Run
  unfolding after_failure
  after_call none next w = (success, w)
  after_call (some err) next w = after_failure err (next err) w

  -- One attempt: the context is checked and the function called.
  unfoldable pub attempt : (W → Option E × W) → (E → Run) → Run
  unfolding context_error stop_or after_call
  attempt fn next w =
      let c = context_error r.context w in
      stop_or c.0 (λ w1. let out = fn w1 in after_call out.0 next out.1) c.1

  unfoldable pub wait_then : ℤ → Run → Run
  unfolding stop_or
  wait_then delay rest w = let s = r.sleep delay w in stop_or s.0 rest s.1

  -- linearRetry and backoffRetry from attempt `n` on, with `left` more attempts after it; `delay_of` is
  -- the delay after an attempt.
  unfoldable pub counted_from : Policy → (ℕ → ℤ) → (W → Option E × W) → ℕ → ℕ → Run
  unfolding attempt wait_then
  counted_from policy delay_of fn n zero =
      attempt fn (λ err w. (failure (exhausted policy r.max_attempts (some err)), w))
  counted_from policy delay_of fn n (suc left) =
      let again = counted_from policy delay_of fn (suc n) left in
      attempt fn (λ err. wait_then (delay_of n) again)

  -- infiniteRetry, for at most `fuel` attempts
  unfoldable pub endless : (W → Option E × W) → ℕ → Run
  unfolding attempt wait_then
  endless fn zero w = (unfinished, w)
  endless fn (suc fuel) w =
      let again = endless fn fuel in attempt fn (λ err. wait_then r.delay again) w

  unfoldable pub infinite_retry : (W → Option E × W) → ℕ → Run
  unfolding endless
  infinite_retry fn fuel w =
      if is_some r.context then endless fn fuel w else (failure no_context, w)

  -- the switch of Do
  unfoldable pub by_policy : Policy → (W → Option E × W) → ℕ → ℕ → Run
  unfolding counted_from infinite_retry backoff_delay
  by_policy linear fn left fuel w = counted_from linear (λ n. r.delay) fn 1 left w
  by_policy backoff fn left fuel w =
      counted_from backoff (backoff_delay r.delay r.max_delay) fn 1 left w
  by_policy infinite fn left fuel w = infinite_retry fn fuel w
  by_policy (unsupported n) fn left fuel w = (failure bad_policy, w)

  unfoldable pub after_do : Result E × W → Result E × W
  after_do (success, w) = (success, apply_callback r.on_success w)
  after_do (failure err, w) = (failure err, w)
  after_do (unfinished, w) = (unfinished, w)

  abbrev pub is_infinite : Policy → Bool
  is_infinite infinite = true
  is_infinite _ = false

  -- the attempts after the first: max_attempts - 1, where it is positive
  abbrev pub attempts_left : ℤ → ℕ
  attempts_left (pos (suc n)) = n
  attempts_left _ = 0

  -- Do
  unfoldable pub run_retry : Option (W → Option E × W) → ℕ → Run
  unfolding by_policy after_do
  run_retry none fuel w = (failure nil_function, w)
  run_retry (some fn) fuel w =
      if not (is_infinite r.policy) && ltb_ℤ r.max_attempts (pos 1)
      then (failure (bad_attempts r.max_attempts), w)
      else after_do (by_policy r.policy fn (attempts_left r.max_attempts) fuel w)
