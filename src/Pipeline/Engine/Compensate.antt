-- ===== src/Pipeline/Engine/Compensate.antt =====
-- pipeline/executor.go: runCompensation.
use xutils.Prelude.{
  ℕ, zero, suc, ℤ, pos, negsuc, [], ◌∷◌, false, Option, none, some, get_elem?, if◌then◌else◌, sub_ℕ,
}
use xutils.Bytes.{Bytes, StepPath}
use xutils.Pipeline.Errors.{Err, text, wrapped, compensation_failed, panicked, is_deferred}
use xutils.Pipeline.State.{RunState, CompletedStep, failed}
use xutils.Pipeline.Definition.{Executor, Steps, Step, ActionFunc, parts}
use xutils.Pipeline.Machine.{
  M, when◌then◌else◌, ◌>>=◌, ◌>>◌, return, on_result, get_run, modify, or_return, now, ctx_err,
  unless_cancelled, marshal_data, snapshot, call_action, compensate,
}
use xutils.Pipeline.Engine.Journal.{record_error, persist_deferred}
use xutils.Pipeline.Engine.Lookup.{find_step}

abbrev pub set_index : ℤ → RunState → RunState
set_index i r = record r { compensation_index = i }

-- how many indices are left: from a negative index, none
abbrev pub indices_left : ℤ → ℕ
indices_left (pos i) = suc i
indices_left (negsuc i) = 0

-- The name and the Compensate function of a step, unless one of the pointers is nil.
unfoldable pub compensator_of : {W V : Type 0} → Option (Step W V) → Option (Bytes × ActionFunc W V)
compensator_of none = none
compensator_of (some s) = elim (parts s).action [
  | none ↦ none
  | some a ↦ elim a.compensate [ none ↦ none | some f ↦ some ((parts s).name, f) ]
]

module _ {W V : Type 0} (e : Executor W V) (steps : Steps W V) where
  -- A compensator failed: the index stays at its step. Where the context is cancelled, the reads of the
  -- clock and of the context for the observer's event are left out.
  unfoldable pub compensation_error : Bytes → ℕ → Bytes → StepPath → Err → M W V (Option Err)
  compensation_error original i name path err = do
    modify (set_index (pos i))
    record_error e path err
    unless_cancelled e (ctx_err e) (
        when is_deferred err then persist_deferred e path err false "delayed continuation" else (do
          _ ← now e
          failure ← marshal_data e
          or_return failure (do
            unsaved ← snapshot e "compensation failure"
            or_return unsaved (
                return (
                  some (
                    compensation_failed (text "%s" (original ∷ []))
                      (wrapped "step %q: %w" err)))))))

  unfoldable pub step_compensated : ℕ → M W V (Option Err) → M W V (Option Err)
  step_compensated i rest = do
    modify (set_index (sub_ℕ i 1))
    failure ← marshal_data e
    or_return failure (do
      unsaved ← snapshot e "compensation step completion"
      or_return unsaved (do _ ← now e; rest))

  -- One completed step that has a compensator in the definition; `rest` are the earlier ones.
  unfoldable pub compensate_step :
      Bytes → ℕ → StepPath → Bytes × ActionFunc W V → M W V (Option Err) → M W V (Option Err)
  unfolding compensation_error step_compensated
  compensate_step original i path found rest = do
    _ ← now e
    result ← call_action compensate path found.1
    on_result result (compensation_error original i found.0 path) (step_compensated i rest)

  -- `none`: the definition has no such step, or it has no compensator now.
  unfoldable pub compensate_found :
      Bytes
      → ℕ
      → StepPath
      → Option (Bytes × ActionFunc W V)
      → M W V (Option Err)
      → M W V (Option Err)
  unfolding compensate_step
  compensate_found original i path none rest = do modify (set_index (sub_ℕ i 1)); rest
  compensate_found original i path (some found) rest = compensate_step original i path found rest

  unfoldable pub compensate_at : Bytes → ℕ → CompletedStep → M W V (Option Err) → M W V (Option Err)
  unfolding compensate_found compensator_of
  compensate_at original i cs rest =
      when cs.has_compensator
      then unless_cancelled e (ctx_err e)
          (compensate_found original i cs.path (compensator_of (find_step steps cs.path)) rest)
      else (do modify (set_index (sub_ℕ i 1)); rest)

  -- An index past the last completed step panics.
  unfoldable pub compensate_index :
      Bytes → ℕ → Option CompletedStep → M W V (Option Err) → M W V (Option Err)
  unfolding compensate_at
  compensate_index original i none rest = return (some panicked)
  compensate_index original i (some cs) rest = compensate_at original i cs rest

  unfoldable pub finish_compensation : M W V (Option Err)
  finish_compensation = do
    modify (λ r. record r { status = failed; compensation_index = negsuc 0 })
    failure ← marshal_data e
    or_return failure (snapshot e "compensation completion")

  -- The loop from index i = n - 1 down to 0.
  unfoldable pub compensate_from : Bytes → ℕ → M W V (Option Err)
  unfolding compensate_index finish_compensation
  compensate_from original zero = finish_compensation
  compensate_from original (suc i) =
      let rest = compensate_from original i in
      do r ← get_run; compensate_index original i (get_elem? r.completed_steps i) rest

  -- runCompensation
  unfoldable pub run_compensation : M W V (Option Err)
  unfolding compensate_from
  run_compensation = do r ← get_run; compensate_from r.error (indices_left r.compensation_index)
