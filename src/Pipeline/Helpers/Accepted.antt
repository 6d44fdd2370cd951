-- ===== src/Pipeline/Helpers/Accepted.antt =====
-- What the constructors of pipeline/helpers.go make, and validate.
use xutils.Prelude.{
  pos, List, [], ◌∷◌, ◌++◌, true, false, not, none, some, ◌≡◌, ltb_ℤ, is_some, ◌≤ℤ◌, ◌≢◌, ◌==◌,
}
use xutils.Bytes.{Bytes, StepPath}
use xutils.Pipeline.Definition.{
  ActionFunc, PollFunc, BranchFunc, RepeatFunc, full, compact, invalid, StepParts, RepeatParts,
  Step, step, BranchField, RepeatField, no_repeat, repeat, Steps, end, Paths, no_paths,
}
use xutils.Pipeline.Validate.{
  iteration_name, find_compensator, is_invalid, check_action, check_poll, check_retry,
  validate_steps, validate_branch, validate_paths, validate_repeat, kinds,
}
use xutils.Pipeline.Helpers.{
  StepOption, compensate, on_enter, retry, max_poll_duration, max_iterations, max_repeat_duration,
  repeat_history, new_action, new_poll, new_branch, new_repeat,
}

-- The steps below a repeat.
abbrev below : {W V : Type 0} → RepeatField W V → Steps W V
below no_repeat = end
below (repeat r steps) = steps

-- Values that validate accepts: none is negative, and the history of a repeat over `children` is a
-- known mode, the compact one only if no step below the repeat has a compensator.
unfoldable pub Fine : {W V : Type 0} → Steps W V → StepOption W V → Type 0
Fine children (compensate f) = Unit {0}
Fine children (on_enter f) = Unit {0}
Fine children (retry attempts delay backoff) = pos 0 ≤ℤ delay
Fine children (max_poll_duration d) = pos 0 ≤ℤ d
Fine children (max_iterations n) = pos 0 ≤ℤ n
Fine children (max_repeat_duration d) = pos 0 ≤ℤ d
Fine children (repeat_history full) = Unit {0}
Fine children (repeat_history compact) = find_compensator children [] ≡ none
Fine children (repeat_history (invalid n)) = ⊥

module _ {W V : Type 0} where
  -- What validate_step looks at.
  record StepChecked (p : StepParts W V) (b : BranchField W V) (r : RepeatField W V) (at : StepPath)
      : Type 0 where
    pub one_kind : not (kinds (step p b r) == 1) ≡ false
    pub action_passes : check_action p.name p.action ≡ none
    pub poll_passes : check_poll p.name p.poll ≡ none
    pub retry_passes : check_retry p.name p.retry ≡ none
    pub branch_passes : validate_branch b p.name (at ++ p.name ∷ []) ≡ none
    pub repeat_passes : validate_repeat r p.name (at ++ p.name ∷ []) ≡ none

  -- What check_repeat looks at.
  record RepeatChecked (t : RepeatParts W V) : Type 0 where
    pub present : is_some t.until ≡ true
    pub iterations : ltb_ℤ t.max_iterations (pos 0) ≡ false
    pub duration : ltb_ℤ t.max_duration (pos 0) ≡ false
    pub mode : is_invalid t.history ≡ false

  -- What an option leaves of the steps below a repeat: all of them.
  abbrev children_of : Step W V → Steps W V
  children_of (step p b r) = below r

  abbrev pub AllFine : Steps W V → List (StepOption W V) → Type 0
  AllFine children [] = Unit {0}
  AllFine children (o ∷ opts) = Fine children o × AllFine children opts

-- A constructor of the package with what it is given beside the name and the options.
pub data Blueprint (W V : Type 0) : Type 0 where
  of_action : ActionFunc W V → Blueprint W V
  of_poll : PollFunc W V → Blueprint W V
  of_branch : BranchFunc W V → Paths W V → Blueprint W V
  of_repeat : Steps W V → RepeatFunc W V → Blueprint W V

module _ {W V : Type 0} where
  abbrev pub build : Blueprint W V → Bytes → List (StepOption W V) → Step W V
  build (of_action f) n opts = new_action n (some f) opts
  build (of_poll f) n opts = new_poll n (some f) opts
  build (of_branch f paths) n opts = new_branch n (some f) paths opts
  build (of_repeat steps f) n opts = new_repeat n steps (some f) opts

  abbrev pub inner : Blueprint W V → Steps W V
  inner (of_repeat steps f) = steps
  inner _ = end

  -- What is below the step is accepted where it will stand.
  unfoldable pub InnerValid : Blueprint W V → StepPath → Type 0
  InnerValid (of_action f) at = Unit {0}
  InnerValid (of_poll f) at = Unit {0}
  InnerValid (of_branch f paths) at = (paths ≢ no_paths) × (validate_paths paths at ≡ none)
  InnerValid (of_repeat steps f) at = validate_steps steps [] 0 (at ++ iteration_name ∷ []) ≡ none
