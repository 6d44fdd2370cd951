-- ===== src/Pipeline/Engine/Sequence.antt =====
-- pipeline/executor.go: executeSteps. A scope is a list of steps that can be executed: the name of
-- each, and executeStep as a function of the step's path.
use xutils.Prelude.{
  ℕ, ℤ, ltb, List, [], ◌∷◌, ◌++◌, Bool, true, false, ◌&&◌, ◌||◌, not, Option, none, some, length,
  drop, if◌then◌else◌, sub_ℕ, is_some,
}
use xutils.Bytes.{Bytes, StepPath, same_path}
use xutils.Pipeline.Errors.{
  Err, is_snapshot_failed, is_deferred, is_no_compensate, as_repeat_timeout, as_step_failed,
}
use xutils.Pipeline.State.{RunState, RepeatTimeoutState, compensating, status_is_running}
use xutils.Pipeline.Definition.{Executor, Steps}
use xutils.Pipeline.Machine.{
  M, when◌then◌else◌, ◌>>=◌, ◌>>◌, return, on_result, get_run, modify, or_return, set_path, ctx_err,
  unless_cancelled, marshal_data, marshal_data_unchecked, snapshot,
}
use xutils.Pipeline.Paths.{is_path_prefix}
use xutils.Pipeline.Engine.Lookup.{is_step_completed}
use xutils.Pipeline.Engine.Compensate.{run_compensation}

pub record StepExec (W V : Type 0) : Type 0 where
  pub name : Bytes
  pub exec : StepPath → M W V (Option Err)

abbrev pub timeout_state :
    Option (Bytes × ℤ) → Option RepeatTimeoutState → Option RepeatTimeoutState
timeout_state none old = old
timeout_state (some (n, d)) old = some (record { step_name = n; max_duration = d })

-- The state in which compensation begins.
unfoldable pub enter_compensation : Bytes → StepPath → Err → RunState → RunState
enter_compensation message path err r = record r {
  error = message;
  failed_step_path = path;
  status = compensating;
  compensation_index = sub_ℕ (length r.completed_steps) 1;
  repeat_timeout = timeout_state (as_repeat_timeout err) r.repeat_timeout;
}

-- An ErrStepFailed of a step below `path`: its scope has handled it.
abbrev pub is_nested_failure : Option StepPath → StepPath → Bool
is_nested_failure none path = false
is_nested_failure (some deeper) path = ltb (length path) (length deeper)

module _ {W V : Type 0} (e : Executor W V) (steps : Steps W V) where
  -- `ctx.Err() != nil`: the run is left resumable at this step.
  unfoldable pub interrupted_at : StepPath → M W V (Option Err)
  interrupted_at path = do
    failure ← marshal_data e
    or_return failure (do modify (set_path path); ctx_err e)

  unfoldable pub fail_without_compensation : StepPath → Err → M W V (Option Err)
  fail_without_compensation path err = do
    failure ← marshal_data e
    or_return failure (do
      modify (λ r. record r { failed_step_path = path })
      unsaved ← snapshot e "step error without compensation"
      or_return unsaved (return (some err)))

  unfoldable pub fail_and_compensate : StepPath → Err → M W V (Option Err)
  unfolding enter_compensation
  fail_and_compensate path err = do
    modify (enter_compensation (e.error_text err) path err)
    failure ← marshal_data e
    or_return failure (do
      unsaved ← snapshot e "step failure before compensation"
      or_return unsaved (do
        uncompensated ← run_compensation e steps
        or_return uncompensated
            (return (if is_some (as_repeat_timeout err) then some err else none))))

  -- The error of a step while the context is live. Where the run is no longer running, or the failure
  -- is that of a deeper step, a nested scope has handled it.
  unfoldable pub fresh_error : StepPath → Err → M W V (Option Err)
  unfolding fail_without_compensation fail_and_compensate
  fresh_error path err = do
    r ← get_run
    when not (status_is_running r.status) || is_nested_failure (as_step_failed err) path
        then return (some err)
        else (when is_no_compensate err
            then fail_without_compensation path err
            else fail_and_compensate path err)

  -- What a scope does with the error of its step at `path`.
  unfoldable pub step_error : StepPath → Err → M W V (Option Err)
  unfolding interrupted_at fresh_error
  step_error path err =
      when is_snapshot_failed err
      then return (some err)
      else when is_deferred err
      then return (some err)
      else unless_cancelled e (interrupted_at path) (fresh_error path err)

  -- The context was cancelled before the step at `path`.
  unfoldable pub cancelled_before : StepPath → M W V (Option Err)
  cancelled_before path = do marshal_data_unchecked e; modify (set_path path); ctx_err e

  unfoldable pub run_in_sequence :
      StepExec W V → StepPath → StepPath → M W V (Option Err) → M W V (Option Err)
  unfolding step_error
  run_in_sequence x path entry rest = do
    modify (set_path entry)
    result ← x.exec path
    on_result result (step_error path)
        (do r ← get_run; when status_is_running r.status then rest else return none)

  -- The step at `path` of the scope, and then the steps after it.
  unfoldable pub sequence_step :
      StepExec W V → StepPath → StepPath → M W V (Option Err) → M W V (Option Err)
  unfolding run_in_sequence cancelled_before
  sequence_step x path entry rest =
      unless_cancelled e (cancelled_before path) (run_in_sequence x path entry rest)

  -- The loop; `first` says that this is the step that the scope was entered at.
  unfoldable pub sequence_from :
      Bool → List (StepExec W V) → StepPath → StepPath → M W V (Option Err)
  unfolding sequence_step
  sequence_from first [] parent resume = return none
  sequence_from first (x ∷ xs) parent resume =
      let rest = sequence_from false xs parent resume in
      let path = parent ++ x.name ∷ [] in
      do
        r ← get_run
        when first && (same_path path resume && is_step_completed r.completed_steps path)
            then rest
            else sequence_step x path (if first && is_path_prefix path resume then resume else path)
                rest

  -- executeSteps
  unfoldable pub execute_steps : List (StepExec W V) → ℕ → StepPath → M W V (Option Err)
  unfolding sequence_from
  execute_steps scope start parent = do
    r ← get_run
    sequence_from true (drop start scope) parent r.current_path
