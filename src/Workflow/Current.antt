-- ===== src/Workflow/Current.antt =====
-- workflow/workflow_methods.go: CurrentStage and CurrentStep.
pub mod Latest
use xutils.Prelude.{
  ℕ, List, [], ◌∷◌, ◌++◌, Bool, true, false, Option, none, some, if◌then◌else◌, ◌≡◌, refl, ap, ◌⊎◌,
  inl, inr,
}
use xutils.Workflow.State.{StepState, valid}
use xutils.Workflow.Model.{Live, Step, Stage}

-- A pointer that is returned, nil, or a panic on the way.
pub data Search {ℓ} (A : Type ℓ) : Type ℓ where
  panics : Search A
  missing : Search A
  found : A → Search A

-- The one that is looked at later, where the first gives nothing.
unfoldable pub or_search {ℓ} : {A : Type ℓ} → Search A → Search A → Search A
or_search missing b = b
or_search panics b = panics
or_search (found x) b = found x

-- The first of a list, which may be a nil pointer.
abbrev pub first {ℓ} : {A : Type ℓ} → List (Option A) → Search A
first [] = missing
first (none ∷ xs) = missing
first (some x ∷ xs) = found x

module _ {W : Type 0} (s : Live W) where
  abbrev pub by_step_state : Step W → Option StepState → Search (Step W)
  by_step_state step none = panics
  by_step_state step (some c) = if valid c.status then found step else missing

  abbrev pub check_step : Option (Step W) → Search (Step W)
  check_step none = panics
  check_step (some step) = by_step_state step (s.cells step.pointer)

  -- The loop over slices.Backward(stage.Steps): the steps behind the first one come before it.
  unfoldable pub last_valid : List (Option (Step W)) → Search (Step W)
  unfolding or_search
  last_valid [] = missing
  last_valid (x ∷ xs) = or_search (last_valid xs) (check_step x)

  abbrev pub in_stage : Stage W → Search (Step W) → Search (Stage W)
  in_stage stage panics = panics
  in_stage stage missing = missing
  in_stage stage (found step) = found stage

  abbrev pub check_stage : Option (Stage W) → Search (Stage W)
  check_stage none = panics
  check_stage (some stage) = in_stage stage (last_valid stage.steps)

  -- The loop over slices.Backward(w.Stages)
  unfoldable pub last_stage : List (Option (Stage W)) → Search (Stage W)
  unfolding or_search last_valid
  last_stage [] = missing
  last_stage (x ∷ xs) = or_search (last_stage xs) (check_stage x)

  -- CurrentStage
  unfoldable pub current_stage : List (Option (Stage W)) → Search (Stage W)
  unfolding or_search last_stage
  current_stage stages = or_search (last_stage stages) (first stages)

  unfoldable pub step_in : Search (Stage W) → Search (Step W)
  unfolding or_search last_valid
  step_in panics = panics
  step_in missing = missing
  step_in (found stage) = or_search (last_valid stage.steps) (first stage.steps)

  -- CurrentStep
  unfoldable pub current_step : List (Option (Stage W)) → Search (Step W)
  unfolding current_stage step_in
  current_step stages = step_in (current_stage stages)
