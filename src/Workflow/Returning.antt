-- ===== src/Workflow/Returning.antt =====
-- When a run of a workflow returns (workflow/workflow.go, step_retry_policies.go).
pub mod Stages
pub mod Declared
use xutils.Prelude.{
  ℕ, zero, suc, ℤ, pos, negsuc, List, [], ◌∷◌, Bool, true, false, Option, none, some, if◌then◌else◌,
  ◌≡◌, refl, arith, ◌≤ℤ◌, Bool-cases, inl, inr,
}
use xutils.Bytes.{Bytes, same}
use xutils.Workflow.Errors.{
  Err, sentinel, is, is_control_flow_error, skip_stage, skip_step, break_stages, exit_workflow,
}
use xutils.Workflow.State.{
  StepStatus, pending, processing, completed, failed, suspended, skipped, other,
}
use xutils.Workflow.Model.{
  Live, Action, RetryPolicy, run_with_linear, run_with_backoff, custom, Step, Stage, ReadyStep,
  ReadyStage, Workflow, call, check_status, set_default_values, cell,
}
use xutils.Workflow.Policies.{
  Outcome, ok, err, unfinished, outcome, after_attempt, after_sleep, sleep_then, bounded, retry,
  apply_policy,
}
use xutils.Workflow.Steps.{
  Run, then_run, hook, step_outcome, after_hooks, after_policy, work, close_step, run_step,
  take_next_step, skip_or_run, by_step_status, handle_step, unless_stopped, look, after_step,
  handle_steps, enter_stage, skip_or_enter, handle_stage,
}
use xutils.Workflow.Runs.{close_stages, after_stage, run_stages, execute_ready}

abbrev pub finished : Outcome → Bool
finished unfinished = false
finished _ = true

-- A run that has returned.
pub record Returns {W : Type 0} (r : Outcome × Live W) : Type 0 where
  pub returns : finished r.0 ≡ true

pub outcome-Returns : {W : Type 0} (o : Option Err) (s : Live W) → Returns (outcome o, s)
outcome-Returns none s = record { returns = refl }
outcome-Returns (some e) s = record { returns = refl }

pub if-Returns :
    {W : Type 0} {x y : Outcome × Live W} (b : Bool)
    → Returns x
    → Returns y
    → Returns (if b then x else y)
if-Returns true hx hy = hx
if-Returns false hx hy = hy

module _ {W : Type 0} (m : Workflow W) (all : List ℕ) (fuel : ℕ) where
  after_attempt-Returns :
      (r : Option Err × Live W) (again : Err → Run m all fuel)
      → ((e : Err) (s : Live W) → Returns (again e s))
      → Returns (after_attempt m r again)
  unfolding after_attempt
  after_attempt-Returns (none, s) again h = record { returns = refl }
  after_attempt-Returns (some e, s) again h =
      if-Returns (is_control_flow_error e) (record { returns = refl }) (h e s)

  after_sleep-Returns :
      (o : Option Err) (next : Run m all fuel) (s : Live W)
      → ((t : Live W) → Returns (next t))
      → Returns (after_sleep m o next s)
  unfolding after_sleep
  after_sleep-Returns none next s h = h s
  after_sleep-Returns (some e) next s h = record { returns = refl }

  bounded-Returns :
      (grow : ℤ → ℤ) (fn : Action W) (left : ℕ) (delay : ℤ) (s : Live W)
      → Returns (bounded m grow fn left delay s)
  unfolding bounded sleep_then
  bounded-Returns grow fn zero delay s =
      after_attempt-Returns (fn s) _ (λ e t. record { returns = refl })
  bounded-Returns grow fn (suc left) delay s =
      after_attempt-Returns (fn s) _
        (λ e t. after_sleep-Returns _ _ _ (bounded-Returns grow fn left (grow delay)))

  retry-Returns :
      (grow : ℤ → ℤ) (fn : Action W) (n delay : ℤ) (s : Live W)
      → pos 0 ≤ℤ n
      → Returns (retry m grow fn n fuel delay s)
  unfolding retry
  retry-Returns grow fn (pos zero) delay s h = record { returns = refl }
  retry-Returns grow fn (pos (suc left)) delay s h = bounded-Returns grow fn left delay s
  retry-Returns grow fn (negsuc n) delay s h = elim (the_absurd n h) [ ]
    where
      the_absurd : (n : ℕ) → pos 0 ≤ℤ negsuc n → ⊥
      the_absurd n h = omega (arith, h)

  apply_policy-Returns :
      (step : ReadyStep W) (p : RetryPolicy W) (s : Live W)
      → pos 0 ≤ℤ step.max_retries
      → Returns (apply_policy m fuel step p s)
  unfolding apply_policy
  apply_policy-Returns step run_with_linear s h = retry-Returns _ _ _ _ s h
  apply_policy-Returns step run_with_backoff s h = retry-Returns _ _ _ _ s h
  apply_policy-Returns step (custom policy) s h = outcome-Returns _ _

  pub then_run-Returns :
      (r : Option Err × Live W) (next : Run m all fuel)
      → ((t : Live W) → Returns (next t))
      → Returns (then_run m all fuel r next)
  unfolding then_run
  then_run-Returns (none, s) next h = h s
  then_run-Returns (some e, s) next h = record { returns = refl }

  step_outcome-Returns :
      (stage : Bytes) (step : ReadyStep W) (o : Outcome) (s : Live W)
      → finished o ≡ true
      → Returns (step_outcome m all fuel stage step o, s)
  unfolding step_outcome
  step_outcome-Returns stage step ok s h = record { returns = refl }
  step_outcome-Returns stage step (err e) s h = record { returns = refl }
  step_outcome-Returns stage step unfinished s h = cc

  after_hooks-Returns :
      (stage : Bytes) (step : ReadyStep W) (o : Outcome) (s : Live W)
      → finished o ≡ true
      → Returns (after_hooks m all fuel stage step o s)
  unfolding after_hooks
  after_hooks-Returns stage step o s h = then_run-Returns (call step.after_fn s) _ (λ t.
      then_run-Returns (hook m all fuel m.after_all_steps_fn stage step t) _
        (λ u. step_outcome-Returns stage step o u h))

  after_policy-Returns :
      (stage : Bytes) (step : ReadyStep W) (o : Outcome) (s : Live W)
      → finished o ≡ true
      → Returns (after_policy m all fuel stage step o s)
  unfolding after_policy
  after_policy-Returns stage step unfinished s h = cc
  after_policy-Returns stage step ok s h = after_hooks-Returns stage step ok s h
  after_policy-Returns stage step (err e) s h = after_hooks-Returns stage step (err e) s h

  work-Returns :
      (stage : Bytes) (step : ReadyStep W) (s : Live W)
      → pos 0 ≤ℤ step.max_retries
      → Returns (work m all fuel stage step s)
  unfolding work
  work-Returns stage step s h =
      then_run-Returns (hook m all fuel m.before_all_steps_fn stage step s) _ (λ t.
        then_run-Returns (call step.before_fn t) _ (λ u.
          after_policy-Returns stage step _ (apply_policy m fuel step step.retry_policy u).1
            (apply_policy-Returns step step.retry_policy u h).returns))

  close_step-Returns :
      (step : ReadyStep W) (r : Outcome × Live W)
      → Returns r
      → Returns (close_step m all fuel step r)
  unfolding close_step
  close_step-Returns step (ok, s) h = record { returns = flag step.finish_workflow }
    where
      flag : (b : Bool) → finished (if b then err (sentinel break_stages) else ok) ≡ true
      flag true = refl
      flag false = refl
  close_step-Returns step (err e, s) h = record { returns = refl }
  close_step-Returns step (unfinished, s) h = record { returns = h.returns }

  skip_or_run-Returns :
      (stage : Bytes) (step : ReadyStep W) (next : Bytes) (s : Live W)
      → pos 0 ≤ℤ step.max_retries
      → Returns (skip_or_run m all fuel stage step next s)
  unfolding skip_or_run run_step
  skip_or_run-Returns stage step [] s h = close_step-Returns step _ (work-Returns stage step _ h)
  skip_or_run-Returns stage step (c ∷ next) s h =
      if-Returns (same (c ∷ next) step.name)
        (close_step-Returns step _ (work-Returns stage step _ h)) (record { returns = refl })

  by_step_status-Returns :
      (stage : Bytes) (step : ReadyStep W) (next : Bytes) (x : StepStatus) (s : Live W)
      → pos 0 ≤ℤ step.max_retries
      → Returns (by_step_status m all fuel stage step next x s)
  unfolding by_step_status
  by_step_status-Returns stage step next completed s h = record { returns = refl }
  by_step_status-Returns stage step next skipped s h = record { returns = refl }
  by_step_status-Returns stage step next suspended s h = record { returns = refl }
  by_step_status-Returns stage step next pending s h = skip_or_run-Returns stage step next s h
  by_step_status-Returns stage step next processing s h = skip_or_run-Returns stage step next s h
  by_step_status-Returns stage step next failed s h = skip_or_run-Returns stage step next s h
  by_step_status-Returns stage step next (other x) s h = skip_or_run-Returns stage step next s h

  pub handle_step-Returns :
      (stage : Bytes) (step : ReadyStep W) (s : Live W)
      → pos 0 ≤ℤ step.max_retries
      → Returns (handle_step m all fuel stage step s)
  unfolding handle_step
  handle_step-Returns stage step s h =
      let t = take_next_step m all fuel step.name s in
      if-Returns (check_status t) (record { returns = refl })
        (by_step_status-Returns stage step s.state.next_step (cell step.pointer t).status t h)
