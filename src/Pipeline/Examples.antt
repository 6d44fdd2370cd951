-- ===== src/Pipeline/Examples.antt =====
-- The theorems on the package pipeline/ at concrete definitions and states.
use xutils.Pipeline.Rollback.Compaction.{compact_repeat_iteration-due}
use xutils.Pipeline.Runs.{computed, one_action, one_poll, branch_exec}
use xutils.Prelude.{
  inl, ◌↔◌, ◌++◌, inr, length, ◌+◌, ◌≤◌, pos, negsuc, [], ◌∷◌, none, some, ◌≡◌, refl, true, false,
  arith,
}
use xutils.Bytes.{StepPath, codes}
use xutils.Bytes.Decimal.{itoa, atoi, atoi-itoa}
use xutils.Pipeline.Errors.{opaque}
use xutils.Pipeline.Paths.RoundTrip.{path-key_roundtrip}
use xutils.Pipeline.Compact.{compact_repeat_iteration}
use xutils.Pipeline.Journaling.{compact_repeat_iteration-completed}
use xutils.Pipeline.Backoff.{action_calls, run_with_retry-bound}
use xutils.Pipeline.Resumption.{resume-skips_interrupted}
use xutils.Pipeline.Completion.{
  InTime, AnsweredDone, at_check, execute_action-journaled, execute_poll-journaled,
}
use xutils.Pipeline.Rollback.Entry.{fail_and_compensate-undoes_all}
use xutils.Pipeline.Validate.Runnable.{Runnable}
use xutils.Pipeline.Validate.Sound.{validate-Runnable}
use xutils.Pipeline.Rollback.Plan.{due, undone_then}
use xutils.Pipeline.Rollback.Loop.{run_compensation-order, run_compensation_complete}
use xutils.Pipeline.Protocol.Ledger.{Verdict}
use xutils.Pipeline.Protocol.Compensation.{Sticky}
use xutils.Pipeline.Protocol.Run.{Ended, run_state-Verdict}
use xutils.Pipeline.Protocol.Again.{run_state-again}
use xutils.Pipeline.Samples.{
  calm, bad_action, saga, nested_two, before_rollback, cancelled_branch, repeated,
}
use xutils.Pipeline.State.{no_run}
use xutils.Pipeline.Engine.Sequence.{fail_and_compensate, step_error, sequence_from, execute_steps}
use xutils.Pipeline.Engine.Handlers.{attempt_action, execute_action, execute_poll}
use xutils.Pipeline.Engine.Lookup.{find_step, is_step_completed}
use xutils.Pipeline.Engine.Retry.{run_with_retry}
use xutils.Pipeline.Engine.Compensate.{compensator_of, indices_left, run_compensation}
use xutils.Pipeline.Engine.Start.{run_state}
use xutils.Pipeline.Paths.{step_path_key, step_path_from_key, has_path_prefix}
use xutils.Pipeline.Validate.{has_no_steps}

calm-Sticky : Sticky calm
calm-Sticky w h = h

run_state-Verdict_example :
    Verdict 0 Ended (run_state calm saga no_run 0).0 (run_state calm saga no_run 0).1
run_state-Verdict_example = run_state-Verdict calm saga no_run 0 calm-Sticky

run_state-again_example : run_state calm saga (run_state calm saga no_run 0).1.run 5 ≡ (
  none,
  record { run = (run_state calm saga no_run 0).1.run; store = []; world = 5; calls = [] },
)
run_state-again_example = run_state-again calm saga no_run 0 5 calm-Sticky computed.0

run_compensation-order_example :
    undone_then (run_compensation calm saga.steps before_rollback).1.calls (
      due saga.steps
        (run_compensation calm saga.steps before_rollback).1.run.completed_steps
        (indices_left (run_compensation calm saga.steps before_rollback).1.run.compensation_index))
    ≡ undone_then [] (due saga.steps before_rollback.run.completed_steps 2)
run_compensation-order_example = run_compensation-order calm saga.steps before_rollback calm-Sticky

run_compensation_complete_example :
    undone_then (run_compensation calm saga.steps before_rollback).1.calls []
    ≡ undone_then [] (due saga.steps before_rollback.run.completed_steps 2)
run_compensation_complete_example =
    run_compensation_complete calm saga.steps before_rollback calm-Sticky computed.1

resume-skips_interrupted_example :
    execute_steps calm nested_two.steps
      (branch_exec ∷ [])
      0
      []
      (step_error calm nested_two.steps (codes "b" ∷ []) (opaque 0) cancelled_branch).1
    ≡ sequence_from calm nested_two.steps false [] []
        (codes "b" ∷ [])
        (step_error calm nested_two.steps (codes "b" ∷ []) (opaque 0) cancelled_branch).1
resume-skips_interrupted_example =
    resume-skips_interrupted calm nested_two.steps branch_exec [] [] (opaque 0) cancelled_branch
      computed.9 computed.10 refl computed.11 computed.12

run_with_retry-bound_example :
    action_calls
      (run_with_retry calm
        (some (record { max_attempts = pos 3; initial_delay = pos 5; backoff = true }))
        (attempt_action calm (codes "a" ∷ []) (some bad_action))
        before_rollback).1.calls
    ≤ 3 + 0
run_with_retry-bound_example =
    run_with_retry-bound calm
      (some (record { max_attempts = pos 3; initial_delay = pos 5; backoff = true }))
      (codes "a" ∷ []) (some bad_action) before_rollback

path-key_roundtrip_example :
    step_path_from_key (step_path_key (codes "a/b~" ∷ [] ∷ [])) ≡ codes "a/b~" ∷ [] ∷ []
path-key_roundtrip_example = path-key_roundtrip (codes "a/b~" ∷ [] ∷ [])

compact_repeat_iteration-completed_example :
    (is_step_completed
        (compact_repeat_iteration (codes "r" ∷ []) (pos 0) repeated).completed_steps
        (codes "r" ∷ codes "0" ∷ codes "x" ∷ [])
      ≡ true)
    ↔ ((is_step_completed repeated.completed_steps (codes "r" ∷ codes "0" ∷ codes "x" ∷ []) ≡ true)
        × (((rest : StepPath) × (codes "r" ∷ codes "0" ∷ codes "x" ∷ []
                ≡ (codes "r" ∷ itoa (pos 0) ∷ []) ++ rest))
            → ⊥))
compact_repeat_iteration-completed_example =
    compact_repeat_iteration-completed (codes "r" ∷ []) (pos 0) repeated
      (codes "r" ∷ codes "0" ∷ codes "x" ∷ [])

atoi-itoa_example : atoi (itoa (negsuc 41)) ≡ some (negsuc 41)
atoi-itoa_example = atoi-itoa (negsuc 41) (omega arith)

execute_action-journaled_example :
    is_step_completed
      (execute_action calm
        (codes "c")
        one_action
        none
        (codes "c" ∷ [])
        before_rollback).1.run.completed_steps
      (codes "c" ∷ [])
    ≡ true
execute_action-journaled_example =
    execute_action-journaled calm (codes "c" ∷ []) (codes "c") one_action none before_rollback
      computed.6

execute_poll-journaled_example :
    (is_step_completed
        (execute_poll calm
          (codes "c")
          one_poll
          (codes "c" ∷ [])
          before_rollback).1.run.completed_steps
        (codes "c" ∷ [])
      ≡ true)
    × InTime calm (codes "c" ∷ []) one_poll before_rollback
    × AnsweredDone calm
        (codes "c" ∷ [])
        one_poll.check
        (at_check calm (codes "c" ∷ []) before_rollback)
execute_poll-journaled_example =
    execute_poll-journaled calm (codes "c" ∷ []) (codes "c") one_poll before_rollback computed.7

fail_and_compensate-undoes_all_example :
    undone_then
      (fail_and_compensate calm saga.steps (codes "c" ∷ []) (opaque 7) before_rollback).1.calls
      []
    ≡ undone_then [] (due saga.steps before_rollback.run.completed_steps 2)
fail_and_compensate-undoes_all_example =
    fail_and_compensate-undoes_all calm saga.steps (codes "c" ∷ []) (opaque 7) before_rollback
      calm-Sticky computed.2

validate-Runnable_example : (has_no_steps saga.steps ≡ false) × Runnable saga.steps []
validate-Runnable_example = validate-Runnable saga computed.8

compact_repeat_iteration-due_example :
    due saga.steps
      (compact_repeat_iteration (codes "r" ∷ []) (pos 0) repeated).completed_steps
      (length (compact_repeat_iteration (codes "r" ∷ []) (pos 0) repeated).completed_steps)
    ≡ (codes "b" ∷ []) ∷ (codes "a" ∷ []) ∷ []
unfolding has_path_prefix compensator_of find_step
compact_repeat_iteration-due_example =
    compact_repeat_iteration-due saga.steps (codes "r" ∷ []) (pos 0) repeated
      (inl refl, (inr refl, (inl refl, tt)))
