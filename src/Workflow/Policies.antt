-- ===== src/Workflow/Policies.antt =====
-- workflow/step_retry_policies.go: a step's function called again after a failure. Log lines are left out.
use xutils.Prelude.{
  ℕ, zero, suc, ℤ, pos, negsuc, Option, none, some, if◌then◌else◌, wrap64, ◌+ℤ◌, leb_ℤ,
}
use xutils.Workflow.Errors.{Err, is_control_flow_error}
use xutils.Workflow.Model.{
  Live, Action, RetryPolicy, run_with_linear, run_with_backoff, custom, ReadyStep, Workflow,
}

-- nil, an error, or none of the two yet: the fuel of a retry without an end is used up.
pub data Outcome : Type 0 where
  ok : Outcome
  err : Err → Outcome
  unfinished : Outcome

abbrev pub outcome : Option Err → Outcome
outcome none = ok
outcome (some e) = err e

module _ {W : Type 0} (m : Workflow W) where
  abbrev pub Run : Type 0
  Run = Live W → Outcome × Live W

  -- The result of sc.Step.Func: nil and control flow end the loop.
  unfoldable pub after_attempt : Option Err × Live W → (Err → Run) → Outcome × Live W
  after_attempt (none, s) again = (ok, s)
  after_attempt (some e, s) again = if is_control_flow_error e then (err e, s) else again e s

  unfoldable pub after_sleep : Option Err → Run → Run
  after_sleep none next s = next s
  after_sleep (some e) next s = (err e, s)

  unfoldable pub sleep_then : ℤ → Run → Run
  unfolding after_sleep
  sleep_then d next s =
      let r = m.sleep_with_context d s.world in after_sleep r.0 next (record s { world = r.1 })

  -- The loop for a MaxRetries above 0, with `left` more attempts after this one.
  unfoldable pub bounded : (ℤ → ℤ) → Action W → ℕ → ℤ → Run
  unfolding after_attempt sleep_then
  bounded grow fn zero delay s = after_attempt (fn s) (λ e t. (err e, t))
  bounded grow fn (suc left) delay s =
      let again = bounded grow fn left (grow delay) in
      after_attempt (fn s) (λ e. sleep_then delay again)

  -- The loop for a MaxRetries below 0, for at most `fuel` attempts.
  unfoldable pub unbounded : (ℤ → ℤ) → Action W → ℕ → ℤ → Run
  unfolding after_attempt sleep_then
  unbounded grow fn zero delay s = (unfinished, s)
  unbounded grow fn (suc fuel) delay s =
      let again = unbounded grow fn fuel (grow delay) in
      after_attempt (fn s) (λ e. sleep_then delay again)

  unfoldable pub retry : (ℤ → ℤ) → Action W → ℤ → ℕ → ℤ → Run
  unfolding bounded unbounded
  retry grow fn (pos zero) fuel delay s = (ok, s)
  retry grow fn (pos (suc left)) fuel delay s = bounded grow fn left delay s
  retry grow fn (negsuc n) fuel delay s = unbounded grow fn fuel delay s

  -- backoff *= 2, on 64 bits
  unfoldable pub double : ℤ → ℤ
  double d = wrap64 (d +ℤ d)

  unfoldable pub first_backoff : ℤ → ℤ
  first_backoff timeout = if leb_ℤ timeout (pos 0) then pos 1000000000 else timeout

  -- step.RetryPolicy(sc)
  unfoldable pub apply_policy : ℕ → ReadyStep W → RetryPolicy W → Run
  unfolding retry double first_backoff
  apply_policy fuel step run_with_linear s =
      retry (λ d. d) step.func step.max_retries fuel step.timeout s
  apply_policy fuel step run_with_backoff s =
      retry double step.func step.max_retries fuel (first_backoff step.timeout) s
  apply_policy fuel step (custom policy) s = let r = policy s in (outcome r.0, r.1)
