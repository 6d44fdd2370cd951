-- ===== src/Pipeline/Validate.antt =====
-- pipeline/pipeline.go: validate, validateSteps and findCompensatorPath.
pub mod Runnable
pub mod Sound
use xutils.Prelude.{
  ℕ, ◌+◌, ℤ, pos, List, [], ◌∷◌, ◌++◌, Bool, true, false, ◌||◌, not, Option, none, some,
  if◌then◌else◌, ltb_ℤ, is_some, ◌==◌,
}
use xutils.Bytes.{Bytes, StepPath, codes, same}
use xutils.Bytes.Decimal.{itoa}
use xutils.Pipeline.Errors.{Err, text, compact_compensation, or_else}
use xutils.Pipeline.Compact.{is_empty}
use xutils.Pipeline.Definition.{
  Pipeline, Step, step, BranchField, no_branch, branch, RepeatField, no_repeat, repeat, RepeatParts,
  RepeatHistory, compact, invalid, Steps, end, then_step, Paths, no_paths, path, parts, ActionStep,
  PollStep, RetryConfig,
}

abbrev pub iteration_name : Bytes
iteration_name = codes "<iteration>"

abbrev pub contains_name : List Bytes → Bytes → Bool
contains_name [] n = false
contains_name (x ∷ xs) n = same x n || contains_name xs n

abbrev pub has_compensator : {W V : Type 0} → Option (ActionStep W V) → Bool
has_compensator none = false
has_compensator (some a) = is_some a.compensate

abbrev pub fail_if : Bool → Err → Option Err
fail_if true err = some err
fail_if false err = none

unfoldable mutual
  -- findCompensatorPath
  pub find_compensator : {W V : Type 0} → Steps W V → StepPath → Option StepPath
  find_compensator end at = none
  find_compensator (then_step s rest) at =
      or_else (compensator_in s (at ++ (parts s).name ∷ [])) (find_compensator rest at)

  pub compensator_in : {W V : Type 0} → Step W V → StepPath → Option StepPath
  compensator_in (step p b r) at =
      if has_compensator p.action
      then some at
      else or_else (compensator_in_branch b at) (compensator_in_repeat r at)

  pub compensator_in_branch : {W V : Type 0} → BranchField W V → StepPath → Option StepPath
  compensator_in_branch no_branch at = none
  compensator_in_branch (branch f paths) at = compensator_in_paths paths at

  pub compensator_in_repeat : {W V : Type 0} → RepeatField W V → StepPath → Option StepPath
  compensator_in_repeat no_repeat at = none
  compensator_in_repeat (repeat r steps) at = find_compensator steps (at ++ iteration_name ∷ [])

  pub compensator_in_paths : {W V : Type 0} → Paths W V → StepPath → Option StepPath
  compensator_in_paths no_paths at = none
  compensator_in_paths (path k steps rest) at =
      or_else (find_compensator steps (at ++ k ∷ [])) (compensator_in_paths rest at)

abbrev pub branch_count : {W V : Type 0} → BranchField W V → ℕ
branch_count no_branch = 0
branch_count (branch _ _) = 1

abbrev pub repeat_count : {W V : Type 0} → RepeatField W V → ℕ
repeat_count no_repeat = 0
repeat_count (repeat _ _) = 1

abbrev pub count_some {ℓ} : {A : Type ℓ} → Option A → ℕ
count_some none = 0
count_some (some _) = 1

abbrev pub kinds : {W V : Type 0} → Step W V → ℕ
kinds (step p b r) = count_some p.action + count_some p.poll + branch_count b + repeat_count r

abbrev pub check_action : {W V : Type 0} → Bytes → Option (ActionStep W V) → Option Err
check_action n none = none
check_action n (some a) =
    fail_if (not (is_some a.action)) (text "pipeline: action step %q has nil Do function" (n ∷ []))

abbrev pub check_poll : {W V : Type 0} → Bytes → Option (PollStep W V) → Option Err
check_poll n none = none
check_poll n (some p) =
    or_else
      (fail_if (not (is_some p.check))
        (text "pipeline: poll step %q has nil Check function" (n ∷ [])))
      (fail_if (ltb_ℤ p.max_duration (pos 0))
        (text "pipeline: poll step %q max duration must be >= 0" (n ∷ [])))

abbrev pub check_retry : Bytes → Option RetryConfig → Option Err
check_retry n none = none
check_retry n (some c) =
    fail_if (ltb_ℤ c.initial_delay (pos 0))
      (text "pipeline: step %q retry delay must be >= 0" (n ∷ []))

abbrev pub is_invalid : RepeatHistory → Bool
is_invalid (invalid _) = true
is_invalid _ = false

-- A compact history admits no compensator below the repeat.
abbrev pub check_compact : Bytes → StepPath → RepeatHistory → Option StepPath → Option Err
check_compact n at compact (some found) =
    some (compact_compensation n (at ++ iteration_name ∷ [] ++ found))
check_compact n at _ _ = none

abbrev pub check_repeat : {W V : Type 0} → Bytes → RepeatParts W V → Option Err
check_repeat n r =
    or_else
      (fail_if (not (is_some r.until))
        (text "pipeline: repeat step %q has nil Until function" (n ∷ [])))
      (or_else
        (fail_if (ltb_ℤ r.max_iterations (pos 0))
          (text "pipeline: repeat step %q max iterations must be >= 0" (n ∷ [])))
        (or_else
          (fail_if (ltb_ℤ r.max_duration (pos 0))
            (text "pipeline: repeat step %q max duration must be >= 0" (n ∷ [])))
          (fail_if (is_invalid r.history)
            (text "pipeline: repeat step %q has invalid history mode %d" (n ∷ [])))))

unfoldable mutual
  -- validateSteps, with the names that the scope has used
  pub validate_steps : {W V : Type 0} → Steps W V → List Bytes → ℕ → StepPath → Option Err
  validate_steps end names i at = none
  validate_steps (then_step s rest) names i at =
      or_else
        (fail_if (is_empty (parts s).name)
          (text "pipeline: step at index %d (path %v) has no name" (itoa (pos i) ∷ at)))
        (or_else
          (fail_if (contains_name names (parts s).name)
            (text "pipeline: duplicate step name %q (path %v)" ((parts s).name ∷ at)))
          (or_else (validate_step s at) (validate_steps rest ((parts s).name ∷ names) (i + 1) at)))

  -- what the loop of validateSteps checks of a step beside its name
  pub validate_step : {W V : Type 0} → Step W V → StepPath → Option Err
  validate_step (step p b r) at =
      or_else
        (fail_if (not (kinds (step p b r) == 1)) (
          text "pipeline: step %q must have exactly one of Action, Poll, Branch, or Repeat (got %d)"
            (p.name ∷ [])))
        (or_else (check_action p.name p.action) (
          or_else (check_poll p.name p.poll) (
            or_else (check_retry p.name p.retry) (
              or_else (validate_branch b p.name (at ++ p.name ∷ []))
                (validate_repeat r p.name (at ++ p.name ∷ []))))))

  pub validate_branch : {W V : Type 0} → BranchField W V → Bytes → StepPath → Option Err
  validate_branch no_branch n at = none
  validate_branch (branch none paths) n at =
      some (text "pipeline: branch step %q has nil Decide function" (n ∷ []))
  validate_branch (branch (some f) no_paths) n at =
      some (text "pipeline: branch step %q has no paths" (n ∷ []))
  validate_branch (branch (some f) (path k steps rest)) n at =
      or_else (validate_steps steps [] 0 (at ++ k ∷ [])) (validate_paths rest at)

  pub validate_paths : {W V : Type 0} → Paths W V → StepPath → Option Err
  validate_paths no_paths at = none
  validate_paths (path k steps rest) at =
      or_else (validate_steps steps [] 0 (at ++ k ∷ [])) (validate_paths rest at)

  pub validate_repeat : {W V : Type 0} → RepeatField W V → Bytes → StepPath → Option Err
  validate_repeat no_repeat n at = none
  validate_repeat (repeat r steps) n at = or_else (check_repeat n r) (
      or_else (check_compact n at r.history (find_compensator steps []))
        (validate_steps steps [] 0 (at ++ iteration_name ∷ [])))

abbrev pub has_no_steps : {W V : Type 0} → Steps W V → Bool
has_no_steps end = true
has_no_steps (then_step _ _) = false

-- effectiveMinResumeVersion
abbrev pub min_resume_version_of : {W V : Type 0} → Pipeline W V → ℤ
min_resume_version_of p = elim p.min_resume_version [ none ↦ p.version | some v ↦ v ]

check_min_version : {W V : Type 0} → Pipeline W V → Option Err
check_min_version p = elim p.min_resume_version [
  | none ↦ none
  | some v ↦
      or_else
        (fail_if (ltb_ℤ v (pos 0))
          (text "pipeline %q: min resume version must be >= 0" (p.name ∷ [])))
        (fail_if (ltb_ℤ p.version v)
          (text "pipeline %q: min resume version (%d) cannot exceed version (%d)" (p.name ∷ [])))
]

-- validate
unfoldable pub validate : {W V : Type 0} → Pipeline W V → Option Err
unfolding check_min_version
validate p = or_else (fail_if (is_empty p.name) (text "pipeline: name is required" [])) (
    or_else
      (fail_if (ltb_ℤ p.version (pos 0)) (text "pipeline %q: version must be >= 0" (p.name ∷ [])))
      (or_else (check_min_version p) (
        or_else
          (fail_if (has_no_steps p.steps) (text "pipeline %q: no steps defined" (p.name ∷ [])))
          (validate_steps p.steps [] 0 []))))
