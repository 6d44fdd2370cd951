-- ===== src/Pipeline/Helpers.antt =====
-- pipeline/helpers.go: the constructors of steps and their options.
pub mod Accepted
use xutils.Prelude.{
  ℤ, pos, List, [], ◌∷◌, ◌++◌, Bool, true, false, Option, none, some, ◌≡◌, refl, ltb_ℤ, is_some,
  ◌≤ℤ◌, arith, ap,
}
use xutils.Bytes.{Bytes, StepPath}
use xutils.Pipeline.Errors.{Err, or_else}
use xutils.Pipeline.Definition.{
  ActionFunc, PollFunc, BranchFunc, RepeatFunc, RepeatHistory, full, compact, ActionStep, PollStep,
  RetryConfig, StepParts, RepeatParts, Step, step, BranchField, no_branch, branch, RepeatField,
  no_repeat, repeat, Steps, end, Paths,
}
use xutils.Pipeline.Validate.{
  iteration_name, find_compensator, is_invalid, check_action, check_poll, check_retry, check_repeat,
  check_compact, validate_step, validate_steps, validate_branch, validate_repeat, kinds, fail_if,
}

-- The options of the package, WithCompensate and its kin; a nil function is `none`.
pub data StepOption (W V : Type 0) : Type 0 where
  compensate : Option (ActionFunc W V) → StepOption W V
  on_enter : Option (ActionFunc W V) → StepOption W V
  retry : ℤ → ℤ → Bool → StepOption W V
  max_poll_duration : ℤ → StepOption W V
  max_iterations : ℤ → StepOption W V
  max_repeat_duration : ℤ → StepOption W V
  repeat_history : RepeatHistory → StepOption W V

-- The update of a field that may be nil.
abbrev pub on_some {ℓ} : {A : Type ℓ} → (A → A) → Option A → Option A
on_some f none = none
on_some f (some a) = some (f a)

module _ {W V : Type 0} where
  abbrev pub on_repeat : (RepeatParts W V → RepeatParts W V) → RepeatField W V → RepeatField W V
  on_repeat f no_repeat = no_repeat
  on_repeat f (repeat r steps) = repeat (f r) steps

  -- What an option does to the step.
  unfoldable pub apply : StepOption W V → Step W V → Step W V
  apply (compensate f) (step p b r) =
      step (record p { action = on_some (λ a. record a { compensate = f }) p.action }) b r
  apply (on_enter f) (step p b r) = step (record p { on_enter = f }) b r
  apply (retry attempts delay backoff) (step p b r) =
      let config : RetryConfig = record {
        max_attempts = attempts;
        initial_delay = delay;
        backoff = backoff;
      } in
      step (record p { retry = some config }) b r
  apply (max_poll_duration d) (step p b r) =
      step (record p { poll = on_some (λ q. record q { max_duration = d }) p.poll }) b r
  apply (max_iterations n) (step p b r) =
      step p b (on_repeat (λ t. record t { max_iterations = n }) r)
  apply (max_repeat_duration d) (step p b r) =
      step p b (on_repeat (λ t. record t { max_duration = d }) r)
  apply (repeat_history h) (step p b r) = step p b (on_repeat (λ t. record t { history = h }) r)

  -- The loop over the options.
  unfoldable pub apply_all : List (StepOption W V) → Step W V → Step W V
  unfolding apply
  apply_all [] s = s
  apply_all (o ∷ opts) s = apply_all opts (apply o s)

  -- A step of a name that has nothing else yet.
  abbrev pub blank : Bytes → StepParts W V
  blank n = record { name = n; action = none; poll = none; on_enter = none; retry = none }

  -- Action
  unfoldable pub new_action : Bytes → Option (ActionFunc W V) → List (StepOption W V) → Step W V
  unfolding apply_all
  new_action n f opts = apply_all opts (
      step (record (blank n) { action = some (record { action = f; compensate = none }) }) no_branch
        no_repeat)

  -- Poll
  unfoldable pub new_poll : Bytes → Option (PollFunc W V) → List (StepOption W V) → Step W V
  unfolding apply_all
  new_poll n f opts = apply_all opts (
      step (record (blank n) { poll = some (record { check = f; max_duration = pos 0 }) }) no_branch
        no_repeat)

  -- Branch
  unfoldable pub new_branch :
      Bytes → Option (BranchFunc W V) → Paths W V → List (StepOption W V) → Step W V
  unfolding apply_all
  new_branch n f paths opts = apply_all opts (step (blank n) (branch f paths) no_repeat)

  -- Repeat
  unfoldable pub new_repeat :
      Bytes → Steps W V → Option (RepeatFunc W V) → List (StepOption W V) → Step W V
  unfolding apply_all
  new_repeat n steps f opts = apply_all opts (
      step (blank n) no_branch (
        repeat (record { until = f; max_iterations = pos 0; max_duration = pos 0; history = full })
          steps))
