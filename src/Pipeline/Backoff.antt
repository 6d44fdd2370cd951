-- ===== src/Pipeline/Backoff.antt =====
-- The delays and the attempts of runWithRetry (pipeline/executor.go).
use xutils.Prelude.{
  ℕ, zero, suc, ◌+◌, ◌-◌, leb, refl, ◌≤◌, ℤ, pos, negsuc, List, [], ◌∷◌, Option, none, some, ◌≡◌,
  Bool, arith, ◌+ℤ◌, ◌≤ℤ◌, wrap64, InRange64, leb_ℤ, max_int64, if◌then◌else◌,
}
use xutils.Bytes.{StepPath}
use xutils.Pipeline.Errors.{Err, normalize_duration}
use xutils.Pipeline.Definition.{Executor, ActionFunc, RetryConfig}
use xutils.Pipeline.Machine.{
  Machine, Call, called, saved, migrated, action, call_action, now, sleep,
}
use xutils.Pipeline.Engine.Journal.{record_attempt, record_error}
use xutils.Pipeline.Engine.Retry.{
  next_backoff_delay, retries_of, first_delay, uses_backoff, wait_and_retry, attempts,
  run_with_retry,
}
use xutils.Pipeline.Engine.Handlers.{attempt_action}
use xutils.Pipeline.Protocol.Rules.{on_result-elim, or_return-elim, when-elim}

-- For a delay that is not negative, nextBackoffDelay is twice the delay, held at the largest
-- int64: the doubling never overflows.
next_backoff_delay-doubles :
    (n : ℕ)
    → n ≤ max_int64
    → next_backoff_delay (pos n)
      ≡ (if leb_ℤ (pos (n + n)) (pos max_int64) then pos (n + n) else pos max_int64)
unfolding next_backoff_delay normalize_duration wrap64 ◌+ℤ◌
next_backoff_delay-doubles n h = ground arith

-- For every int64 delay, negative ones included, the next delay is an int64 that is not negative
-- and not shorter.
next_backoff_delay-bounds :
    (d : ℤ)
    → InRange64 d
    → (pos 0 ≤ℤ next_backoff_delay d)
      × (d ≤ℤ next_backoff_delay d)
      × InRange64 (next_backoff_delay d)
unfolding next_backoff_delay normalize_duration wrap64 ◌+ℤ◌
next_backoff_delay-bounds (pos n) h = ground arith
next_backoff_delay-bounds (negsuc n) h = ground arith

-- The calls of action functions.
abbrev pub action_calls : List Call → ℕ
action_calls [] = 0
action_calls (called action p r ∷ calls) = suc (action_calls calls)
action_calls (called _ p r ∷ calls) = action_calls calls
action_calls (saved op s r ∷ calls) = action_calls calls
action_calls (migrated v s r ∷ calls) = action_calls calls

-- MaxAttempts, and 1 where it is not positive or there is no retry configuration.
abbrev pub allowed : Option RetryConfig → ℕ
allowed none = 1
allowed (some c) = elim c.max_attempts [ pos n ↦ if leb n 0 then 1 else n | negsuc n ↦ 1 ]

allowed-retries : (retry : Option RetryConfig) → suc (retries_of retry) ≡ allowed retry
unfolding retries_of
allowed-retries none = refl
allowed-retries (some c) = by_limit c.max_attempts
  where
    by_limit :
        (limit : ℤ)
        → suc (elim limit [ pos n ↦ n - 1 | negsuc n ↦ 0 ])
          ≡ (elim limit [ pos n ↦ if leb n 0 then 1 else n | negsuc n ↦ 1 ])
    by_limit (pos n) = ground arith
    by_limit (negsuc n) = refl

module _ {W V : Type 0} (e : Executor W V) where
  -- At most `n` more calls of actions, and no fewer than before.
  abbrev Within : ℕ → Machine W V → Option Err × Machine W V → Type 0
  Within n m out =
      (action_calls m.calls ≤ action_calls out.1.calls)
      × (action_calls out.1.calls ≤ n + action_calls m.calls)

  attempt_action-Within :
      (path : StepPath) (f : Option (ActionFunc W V)) (m : Machine W V)
      → Within 1 m (attempt_action e path f m)
  unfolding attempt_action record_attempt record_error now call_action
  attempt_action-Within path none m = omega arith
  attempt_action-Within path (some f) m =
      let m1 : Machine W V = (record_attempt e path m).1 in
      on_result-elim (Within 1 m) _ _ _ (call_action action path f m1).1 (λ err. omega arith)
        (omega arith)

  attempts-Within :
      (left : ℕ) (delay : ℤ) (backoff : Bool) (path : StepPath) (f : Option (ActionFunc W V))
      (m : Machine W V)
      → Within (suc left) m (attempts e left delay backoff (attempt_action e path f) m)
  unfolding attempts wait_and_retry sleep
  attempts-Within zero delay backoff path f m = attempt_action-Within path f m
  attempts-Within (suc left) delay backoff path f m =
      let first = attempt_action-Within path f m in
      let m1 : Machine W V = (attempt_action e path f m).1 in
      on_result-elim (Within (suc (suc left)) m) _ _ _ m1
        (λ err.
          when-elim (Within (suc (suc left)) m) _ _ _ m1 (λ _. omega (arith, first))
            (λ _.
              let m2 : Machine W V = record m1 { world = (e.sleep delay m1.world).1 } in
              or_return-elim (Within (suc (suc left)) m) _ _ m2 (λ stop. omega (arith, first))
                (omega (arith, first, attempts-Within left _ backoff path f m2))))
        (omega (arith, first))

  -- The function of an action step is called at most MaxAttempts times, and at most once where
  -- MaxAttempts is not positive or there is no retry configuration.
  pub run_with_retry-bound :
      (retry : Option RetryConfig) (path : StepPath) (f : Option (ActionFunc W V)) (m : Machine W V)
      → action_calls (run_with_retry e retry (attempt_action e path f) m).1.calls
        ≤ allowed retry + action_calls m.calls
  unfolding run_with_retry
  run_with_retry-bound retry path f m = omega (
    arith,
    allowed-retries retry,
    (attempts-Within (retries_of retry) (first_delay retry) (uses_backoff retry) path f m).1,
  )
