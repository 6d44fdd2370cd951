-- ===== src/Pipeline/Engine/Lookup.antt =====
-- pipeline/executor.go: findStepByPath and isStepCompleted.
use xutils.Prelude.{List, [], ◌∷◌, Bool, false, ◌||◌, Option, none, some, if◌then◌else◌, is_some}
use xutils.Bytes.{Bytes, StepPath, same, same_path}
use xutils.Bytes.Decimal.{atoi}
use xutils.Pipeline.State.{CompletedStep}
use xutils.Pipeline.Definition.{
  Step, step, no_branch, branch, RepeatField, no_repeat, repeat, Steps, end, then_step, Paths,
  no_paths, path, parts,
}

abbrev pub is_atoi : Bytes → Bool
is_atoi s = is_some (atoi s)

-- isStepCompleted
unfoldable pub is_step_completed : List CompletedStep → StepPath → Bool
is_step_completed [] p = false
is_step_completed (c ∷ cs) p = same_path c.path p || is_step_completed cs p

unfoldable mutual
  -- findStepByPath: the first step of the scope with the first name is the only one that is tried.
  pub find_step : {W V : Type 0} → Steps W V → StepPath → Option (Step W V)
  find_step end p = none
  find_step (then_step s rest) [] = none
  find_step (then_step s rest) (x ∷ p) =
      let here = find_here s p in
      let later = find_step rest (x ∷ p) in if same (parts s).name x then here else later

  -- the step itself where nothing is left of the path, else the search below it
  pub find_here : {W V : Type 0} → Step W V → StepPath → Option (Step W V)
  find_here (step p b r) [] = some (step p b r)
  find_here (step p b r) (x ∷ []) = none
  find_here (step p (branch d paths) r) (key ∷ y ∷ below) = find_in_paths paths key (y ∷ below)
  find_here (step p no_branch r) (key ∷ y ∷ below) = find_repeat r key (y ∷ below)

  pub find_repeat : {W V : Type 0} → RepeatField W V → Bytes → StepPath → Option (Step W V)
  find_repeat no_repeat key below = none
  find_repeat (repeat r steps) key below =
      let found = find_step steps below in if is_atoi key then found else none

  pub find_in_paths : {W V : Type 0} → Paths W V → Bytes → StepPath → Option (Step W V)
  find_in_paths no_paths key below = none
  find_in_paths (path k steps rest) key below =
      let found = find_step steps below in
      let later = find_in_paths rest key below in if same k key then found else later
