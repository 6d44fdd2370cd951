-- ===== src/Pipeline/Runs.antt =====
-- What concrete runs of the package pipeline/ compute to.
use xutils.Prelude.{ℕ, pos, negsuc, [], ◌∷◌, none, some, ◌≡◌, refl, true, false}
use xutils.Bytes.{codes}
use xutils.Pipeline.Machine.{Machine}
use xutils.Pipeline.Errors.{
  Err, opaque, snooze, step_failed, no_compensate_of, normalize_duration, retry_after_of, find,
  is_snapshot_failed, is_no_compensate, as_repeat_timeout, as_step_failed, settle, deferred_details,
  is_deferred,
}
use xutils.Pipeline.Backoff.{action_calls}
use xutils.Pipeline.Definition.{ActionStep, PollStep}
use xutils.Pipeline.Rollback.Plan.{due}
use xutils.Pipeline.Samples.{calm, ok_action, saga, nested_two, before_rollback, cancelled_branch}
use xutils.Pipeline.State.{no_run, status_is_terminal, is_terminal}
use xutils.Pipeline.Engine.Sequence.{
  StepExec, enter_compensation, interrupted_at, fail_without_compensation, fail_and_compensate,
  fresh_error, step_error, cancelled_before, run_in_sequence, sequence_step, sequence_from,
  execute_steps,
}
use xutils.Pipeline.Engine.Handlers.{
  attempt_action, defer_or_fail, execute_action, call_check, poll_failed, poll_not_done, poll_done,
  poll_timed_out, poll_check, execute_poll,
}
use xutils.Pipeline.Engine.Journal.{
  diagnostic, set_diagnostic, record_attempt, record_error, record_completed, record_next_run,
  deferral, persist_deferred,
}
use xutils.Pipeline.Engine.Lookup.{
  is_step_completed, find_step, find_here, find_repeat, find_in_paths,
}
use xutils.Pipeline.Engine.Retry.{
  next_backoff_delay, retries_of, first_delay, wait_and_retry, attempts, run_with_retry,
}
use xutils.Pipeline.Engine.Compensate.{
  compensator_of, compensation_error, step_compensated, compensate_step, compensate_found,
  compensate_at, compensate_index, finish_compensation, compensate_from, run_compensation,
}
use xutils.Pipeline.Engine.Execute.{
  dispatch_repeat, dispatch_branch, dispatch_poll, dispatch, check_deadline, start_repeat,
  enter_failed, run_on_enter, execute_step, scope_of, step_of, branch_of, repeat_of, paths_of,
}
use xutils.Pipeline.Engine.Branching.{
  index_from, child_index, path_names, resume_branch, call_decide, enter_branch, enter_chosen,
  decide_branch, enter_or_resume, execute_branch,
}
use xutils.Pipeline.Engine.Repeating.{
  repeat_state, set_repeat, entry_of, late_since, repeat_timed_out, time_out, ensure_repeat_started,
  call_until, repeat_done, repeat_limited, next_iteration, after_until, ask_until, check_condition,
  run_children, run_iteration, start_iteration, execute_repeat,
}
use xutils.Pipeline.Engine.Start.{
  restore, top_level_index, mismatch, check_version, restore_store, resume_compensation, complete,
  run_steps, run_from_store, resume_checked, after_migration, resume_old, resume, run, run_state,
}
use xutils.Pipeline.Machine.{
  or_return, on_result, when◌then◌else◌, call_action, now, ctx_err, unless_cancelled, sleep,
  marshal_store, keep_data, marshal_data, marshal_data_unchecked, commit, snapshot,
}
use xutils.Pipeline.Paths.{step_path_key, step_path_from_key, has_path_prefix, is_path_prefix}
use xutils.Pipeline.Validate.{
  find_compensator, compensator_in, compensator_in_branch, compensator_in_repeat,
  compensator_in_paths, validate_steps, validate_step, validate_branch, validate_paths,
  validate_repeat, validate,
}
use xutils.Bytes.Dict.{lookup, insert, remove, lookup_or}

abbrev pub one_action : ActionStep ℕ ℕ
one_action = record { action = some ok_action; compensate = none }

abbrev pub one_poll : PollStep ℕ ℕ
one_poll = record { check = some (λ d w. (true, pos 0, none, d, w)); max_duration = pos 0 }

abbrev pub branch_exec : StepExec ℕ ℕ
branch_exec = record { name = codes "b"; exec = λ path m. (none, m) }

abbrev again : Machine ℕ ℕ
again = (run_state calm nested_two (run_state calm nested_two no_run 0).1.run 0).1

abbrev last_error : Err
last_error = step_failed (codes "a") (codes "a" ∷ []) (snooze (negsuc 4))

-- The saga rolls back and ends with nil, also from the state before its rollback and from the failure of its
-- last step; the plan is `b`, `a`. A run that is cancelled in the first child of a branch ends as completed when
-- it is resumed with the state that it returned, and the second child is never called. Then: an action and
-- a poll that succeed, the validation of the saga, an interrupted branch, and a deferral.
pub computed :
    ((run_state calm saga no_run 0).0 ≡ none)
    × ((run_compensation calm saga.steps before_rollback).0 ≡ none)
    × ((fail_and_compensate calm saga.steps (codes "c" ∷ []) (opaque 7) before_rollback).0 ≡ none)
    × (due saga.steps before_rollback.run.completed_steps 2
        ≡ (codes "b" ∷ []) ∷ (codes "a" ∷ []) ∷ [])
    × (status_is_terminal again.run.status ≡ true)
    × (action_calls again.calls ≡ 0)
    × ((execute_action calm (codes "c") one_action none (codes "c" ∷ []) before_rollback).0 ≡ none)
    × ((execute_poll calm (codes "c") one_poll (codes "c" ∷ []) before_rollback).0 ≡ none)
    × (validate saga ≡ none)
    × (is_snapshot_failed (opaque 0) ≡ false)
    × (is_deferred (opaque 0) ≡ false)
    × ((marshal_store calm cancelled_branch.store).0 ≡ none)
    × (is_step_completed cancelled_branch.run.completed_steps (codes "b" ∷ []) ≡ true)
    × (deferred_details last_error
        ≡ some (record { delay = pos 0; cause = none; error = snooze (pos 0) }))
unfolding enter_compensation interrupted_at fail_without_compensation fail_and_compensate
    fresh_error step_error cancelled_before run_in_sequence sequence_step sequence_from
    execute_steps attempt_action defer_or_fail execute_action call_check poll_failed poll_not_done
    poll_done poll_timed_out poll_check execute_poll diagnostic set_diagnostic record_attempt
    record_error record_completed record_next_run deferral persist_deferred is_step_completed
    find_step find_here find_repeat find_in_paths next_backoff_delay retries_of first_delay
    wait_and_retry attempts run_with_retry compensator_of compensation_error step_compensated
    compensate_step compensate_found compensate_at compensate_index finish_compensation
    compensate_from run_compensation dispatch_repeat dispatch_branch dispatch_poll dispatch
    check_deadline start_repeat enter_failed run_on_enter execute_step scope_of step_of branch_of
    repeat_of paths_of index_from child_index path_names resume_branch call_decide enter_branch
    enter_chosen decide_branch enter_or_resume execute_branch repeat_state set_repeat entry_of
    late_since repeat_timed_out time_out ensure_repeat_started call_until repeat_done repeat_limited
    next_iteration after_until ask_until check_condition run_children run_iteration start_iteration
    execute_repeat restore top_level_index mismatch check_version restore_store resume_compensation
    complete run_steps run_from_store resume_checked after_migration resume_old resume run run_state
    or_return on_result when◌then◌else◌ call_action now ctx_err unless_cancelled sleep marshal_store
    keep_data marshal_data marshal_data_unchecked commit snapshot is_terminal no_compensate_of
    normalize_duration retry_after_of find is_snapshot_failed is_no_compensate as_repeat_timeout
    as_step_failed settle deferred_details is_deferred step_path_key step_path_from_key
    has_path_prefix is_path_prefix find_compensator compensator_in compensator_in_branch
    compensator_in_repeat compensator_in_paths validate_steps validate_step validate_branch
    validate_paths validate_repeat validate lookup insert remove lookup_or
computed = (refl, refl, refl, refl, refl, refl, refl, refl, refl, refl, refl, refl, refl, refl)
