-- ===== src/Pipeline/Engine/Retry.antt =====
-- pipeline/executor.go: runWithRetry and nextBackoffDelay.
use xutils.Prelude.{
  ℕ, zero, suc, ◌-◌, ℤ, pos, negsuc, ltb_ℤ, ◌+ℤ◌, wrap64, max_int64, Bool, false, Option, none,
  some, if◌then◌else◌,
}
use xutils.Pipeline.Errors.{Err, is_deferred, normalize_duration}
use xutils.Pipeline.Definition.{Executor, RetryConfig}
use xutils.Pipeline.Machine.{M, when◌then◌else◌, ◌>>=◌, return, or_return, on_result, sleep}

-- nextBackoffDelay; maxDuration / 2 is 2 ^ 62 - 1
unfoldable pub next_backoff_delay : ℤ → ℤ
unfolding normalize_duration
next_backoff_delay delay =
    if ltb_ℤ (pos 4611686018427387903) delay
    then pos max_int64
    else normalize_duration (wrap64 (delay +ℤ delay))

-- The attempts after the first: `max_attempts - 1`, and none where it is not positive.
unfoldable pub retries_of : Option RetryConfig → ℕ
retries_of none = 0
retries_of (some c) = elim c.max_attempts [ pos n ↦ n - 1 | negsuc n ↦ 0 ]

-- the first delay, one second unless a positive one is given
unfoldable pub first_delay : Option RetryConfig → ℤ
first_delay none = pos 1000000000
first_delay (some c) = if ltb_ℤ (pos 0) c.initial_delay then c.initial_delay else pos 1000000000

abbrev pub uses_backoff : Option RetryConfig → Bool
uses_backoff none = false
uses_backoff (some c) = c.backoff

module _ {W V : Type 0} (e : Executor W V) where
  -- A failed attempt that is not the last: a deferral ends the retries, and so does a cancelled wait.
  unfoldable pub wait_and_retry : Err → ℤ → M W V (Option Err) → M W V (Option Err)
  wait_and_retry err delay again =
      when is_deferred err
      then return (some err)
      else (do interrupted ← sleep e delay; or_return interrupted again)

  -- The loop of runWithRetry, with the number of attempts that are left after this one.
  -- After the last attempt its result is returned, whatever it is.
  unfoldable pub attempts : ℕ → ℤ → Bool → M W V (Option Err) → M W V (Option Err)
  unfolding wait_and_retry
  attempts zero delay backoff fn = fn
  attempts (suc left) delay backoff fn =
      let again = attempts left (if backoff then next_backoff_delay delay else delay) backoff fn in
      do failure ← fn; on_result failure (λ err. wait_and_retry err delay again) (return none)

  unfoldable pub run_with_retry : Option RetryConfig → M W V (Option Err) → M W V (Option Err)
  unfolding attempts
  run_with_retry retry fn = attempts (retries_of retry) (first_delay retry) (uses_backoff retry) fn
