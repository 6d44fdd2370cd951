-- ===== src/Pipeline/Engine/Journal.antt =====
-- pipeline/executor.go: recordAttempt and its kin, and persistDeferred. With no observer,
-- recordAttempt is recordAttemptData, so whether an attempt was recorded already makes no difference.
use xutils.Prelude.{ℤ, pos, String, Bool, Option, none, some, ◌+ℤ◌, wrap64, if◌then◌else◌}
use xutils.Bytes.{Bytes, StepPath}
use xutils.Bytes.Dict.{lookup_or, insert}
use xutils.Pipeline.Errors.{Err, Deferral, deferred_details, normalize_duration}
use xutils.Pipeline.State.{RunState, StepDiagnostics, no_diagnostics, Time, polling}
use xutils.Pipeline.Paths.{step_path_key}
use xutils.Pipeline.Definition.{Executor}
use xutils.Pipeline.Machine.{
  M, ◌>>=◌, ◌>>◌, return, modify, or_return, set_status, now, marshal_data, snapshot,
}

unfoldable pub diagnostic : StepPath → RunState → StepDiagnostics
diagnostic path r = lookup_or no_diagnostics (step_path_key path) r.step_diagnostics

unfoldable pub set_diagnostic : StepPath → (StepDiagnostics → StepDiagnostics) → RunState → RunState
unfolding diagnostic
set_diagnostic path f r = record r {
  step_diagnostics = insert (step_path_key path) (f (diagnostic path r)) r.step_diagnostics;
}

attempt_at : Time → StepDiagnostics → StepDiagnostics
attempt_at t d = record d {
  attempts = wrap64 (d.attempts +ℤ pos 1);
  first_started_at = elim d.first_started_at [ none ↦ some t | some first ↦ some first ];
  last_started_at = some t;
  next_run_at = none;
}

failed_with : Bytes → StepDiagnostics → StepDiagnostics
failed_with text d = record d { last_error = text }

completed_at : Time → StepDiagnostics → StepDiagnostics
completed_at t d = record d { completed_at = some t; next_run_at = none }

unfoldable pub next_run : Time → Option Bytes → StepDiagnostics → StepDiagnostics
next_run t none d = record d { next_run_at = some t }
next_run t (some text) d = record d { next_run_at = some t; last_error = text }

module _ {W V : Type 0} (e : Executor W V) where
  -- recordAttempt, recordAttemptData
  unfoldable pub record_attempt : StepPath → M W V (Unit {0})
  unfolding set_diagnostic attempt_at
  record_attempt path = do t ← now e; modify (set_diagnostic path (attempt_at t))

  -- recordError, of an error that is not nil
  unfoldable pub record_error : StepPath → Err → M W V (Unit {0})
  unfolding set_diagnostic failed_with
  record_error path err = modify (set_diagnostic path (failed_with (e.error_text err)))

  -- recordCompleted
  unfoldable pub record_completed : StepPath → M W V (Unit {0})
  unfolding set_diagnostic completed_at
  record_completed path = do t ← now e; modify (set_diagnostic path (completed_at t))

  -- recordNextRun
  unfoldable pub record_next_run : StepPath → ℤ → Option Err → M W V (Unit {0})
  unfolding set_diagnostic next_run
  record_next_run path delay cause = do
    t ← now e
    modify (
        set_diagnostic path (
          next_run (t +ℤ normalize_duration delay)
            (elim cause [ none ↦ none | some c ↦ some (e.error_text c) ])))

  -- deferredDetails without its last result: of another error, no delay and the error itself
  unfoldable pub deferral : Err → Deferral
  deferral err = elim (deferred_details err) [
    | some d ↦ d
    | none ↦ record { delay = pos 0; cause = none; error = err }
  ]

  -- persistDeferred
  unfoldable pub persist_deferred : StepPath → Err → Bool → String → M W V (Option Err)
  unfolding deferral
  persist_deferred path err poll op = do
    modify (λ r. if poll then set_status polling r else r)
    record_next_run path (deferral err).delay (deferral err).cause
    failure ← marshal_data e
    or_return failure
        (do unsaved ← snapshot e op; or_return unsaved (return (some (deferral err).error)))
