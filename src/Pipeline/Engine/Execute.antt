-- ===== src/Pipeline/Engine/Execute.antt =====
-- pipeline/executor.go: executeStep, and the steps of a definition as steps that can be executed.
use xutils.Prelude.{pos, List, [], ◌∷◌, false, Option, none, some, if◌then◌else◌, ltb_ℤ}
use xutils.Bytes.{Bytes, StepPath}
use xutils.Bytes.Dict.{Dict}
use xutils.Pipeline.Errors.{Err, text, wrapped, step_failed}
use xutils.Pipeline.Definition.{
  Executor, Step, step, StepParts, ActionFunc, ActionStep, PollStep, BranchField, no_branch, branch,
  RepeatField, no_repeat, repeat, RepeatParts, BranchFunc, Steps, end, then_step, Paths, no_paths,
  path, parts,
}
use xutils.Pipeline.Machine.{
  M, when◌then◌else◌, ◌>>=◌, ◌>>◌, return, on_result, get_run, or_return, call_action, on_enter,
}
use xutils.Pipeline.Engine.Journal.{record_attempt, record_error}
use xutils.Pipeline.Engine.Sequence.{StepExec}
use xutils.Pipeline.Engine.Handlers.{execute_action, execute_poll, defer_or_fail}
use xutils.Pipeline.Engine.Branching.{execute_branch}
use xutils.Pipeline.Engine.Repeating.{
  repeat_state, repeat_timed_out, time_out, ensure_repeat_started, execute_repeat,
}

-- A branch and a repeat whose sub-pipelines can be executed.
pub data BranchExec (W V : Type 0) : Type 0 where
  not_branch : BranchExec W V
  branching : Option (BranchFunc W V) → Dict (List (StepExec W V)) → BranchExec W V

pub data RepeatExec (W V : Type 0) : Type 0 where
  not_repeat : RepeatExec W V
  repeating : RepeatParts W V → List (StepExec W V) → RepeatExec W V

module _ {W V : Type 0} (e : Executor W V) (steps : Steps W V) where
  -- The `switch` at the end of executeStep.
  unfoldable pub dispatch_repeat : StepParts W V → RepeatExec W V → StepPath → M W V (Option Err)
  dispatch_repeat p (repeating q scope) at = execute_repeat e steps p.name q scope at
  dispatch_repeat p not_repeat at =
      return (some (text "pipeline: step %q has no action, poll, branch, or repeat" (p.name ∷ [])))

  unfoldable pub dispatch_branch :
      StepParts W V → BranchExec W V → RepeatExec W V → StepPath → M W V (Option Err)
  unfolding dispatch_repeat
  dispatch_branch p (branching f paths) r at = execute_branch e steps p.name f paths at
  dispatch_branch p not_branch r at = dispatch_repeat p r at

  unfoldable pub dispatch_poll :
      StepParts W V
      → Option (PollStep W V)
      → BranchExec W V
      → RepeatExec W V
      → StepPath
      → M W V (Option Err)
  unfolding dispatch_branch
  dispatch_poll p (some q) b r at = execute_poll e p.name q at
  dispatch_poll p none b r at = dispatch_branch p b r at

  unfoldable pub dispatch :
      StepParts W V
      → Option (ActionStep W V)
      → BranchExec W V
      → RepeatExec W V
      → StepPath
      → M W V (Option Err)
  unfolding dispatch_poll
  dispatch p (some a) b r at = execute_action e p.name a p.retry at
  dispatch p none b r at = dispatch_poll p p.poll b r at

  -- A repeat with a duration limit is checked against it; any other step goes on.
  unfoldable pub check_deadline :
      Bytes → RepeatExec W V → StepPath → M W V (Option Err) → M W V (Option Err)
  check_deadline name not_repeat at rest = rest
  check_deadline name (repeating q scope) at rest =
      when ltb_ℤ (pos 0) q.max_duration
      then (do
        r ← get_run
        late ← repeat_timed_out e q (repeat_state at r)
        when late then time_out e name q at else rest)
      else rest

  unfoldable pub start_repeat : RepeatExec W V → StepPath → M W V (Option Err)
  start_repeat not_repeat at = return none
  start_repeat (repeating q scope) at =
      when ltb_ℤ (pos 0) q.max_duration then ensure_repeat_started e at else return none

  unfoldable pub enter_failed : Bytes → StepPath → Err → M W V (Option Err)
  enter_failed name at err = do
    record_attempt e at
    record_error e at err
    defer_or_fail e at (step_failed name at (wrapped "on_enter: %w" err)) false

  -- The OnEnter hook, after which a deadline is checked once more.
  unfoldable pub run_on_enter :
      Bytes
      → Option (ActionFunc W V)
      → RepeatExec W V
      → StepPath
      → M W V (Option Err)
      → M W V (Option Err)
  unfolding enter_failed check_deadline
  run_on_enter name none r at rest = rest
  run_on_enter name (some f) r at rest = do
    result ← call_action on_enter at f
    on_result result (enter_failed name at) (check_deadline name r at rest)

  -- executeStep
  unfoldable pub execute_step :
      StepParts W V → BranchExec W V → RepeatExec W V → StepPath → M W V (Option Err)
  unfolding dispatch check_deadline start_repeat run_on_enter
  execute_step p b r at = do
    unsaved ← start_repeat r at
    or_return unsaved (
        check_deadline p.name r at
          (run_on_enter p.name p.on_enter r at (dispatch p p.action b r at)))

unfoldable mutual
  -- The steps of a definition, each with executeStep at its parts.
  pub scope_of : {W V : Type 0} → Executor W V → Steps W V → Steps W V → List (StepExec W V)
  scope_of e root end = []
  scope_of e root (then_step s rest) =
      record { name = (parts s).name; exec = step_of e root s } ∷ scope_of e root rest

  pub step_of : {W V : Type 0} → Executor W V → Steps W V → Step W V → StepPath → M W V (Option Err)
  step_of e root (step p b r) = execute_step e root p (branch_of e root b) (repeat_of e root r)

  pub branch_of : {W V : Type 0} → Executor W V → Steps W V → BranchField W V → BranchExec W V
  branch_of e root no_branch = not_branch
  branch_of e root (branch f paths) = branching f (paths_of e root paths)

  pub repeat_of : {W V : Type 0} → Executor W V → Steps W V → RepeatField W V → RepeatExec W V
  repeat_of e root no_repeat = not_repeat
  repeat_of e root (repeat p steps) = repeating p (scope_of e root steps)

  pub paths_of : {W V : Type 0} → Executor W V → Steps W V → Paths W V → Dict (List (StepExec W V))
  paths_of e root no_paths = []
  paths_of e root (path k steps rest) = (k, scope_of e root steps) ∷ paths_of e root rest
