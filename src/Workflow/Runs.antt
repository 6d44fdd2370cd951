-- ===== src/Workflow/Runs.antt =====
-- workflow/workflow.go: execute, finish and Run.
use xutils.Prelude.{
  ℕ, List, [], ◌∷◌, Bool, true, false, ◌&&◌, Option, none, some, if◌then◌else◌, is_some,
}
use xutils.Bytes.{Bytes}
use xutils.Workflow.Errors.{Err, skip_stage, break_stages, exit_workflow, wrapped, text, is}
use xutils.Workflow.State.{
  set_completed, set_workflow_error, go_to_stage, go_to_step, WorkflowState,
}
use xutils.Workflow.Model.{Live, ReadyStage, Workflow, set_state, check_status, call}
use xutils.Workflow.Policies.{Outcome, ok, err, unfinished}
use xutils.Workflow.Snapshots.{pointers, get_snapshot}
use xutils.Workflow.Init.{Checked, rejected, accepted, init}
use xutils.Workflow.Steps.{Run, unless_stopped, handle_stage}

-- What Run returns: a result; the timeout of the shutdown, while execute goes on; or a panic. A run
-- whose fuel is used up has not returned.
pub data Verdict (W : Type 0) : Type 0 where
  returned : Option Err → Live W → Verdict W
  abandoned : Err → Verdict W
  crashed : Verdict W
  running : Live W → Verdict W

module _ {W : Type 0} (m : Workflow W) where
  -- The end of execute, after the loop: the completion, AfterFn, whose error is only logged, and
  -- the error of the loop.
  unfoldable pub close_stages : Outcome → Live W → Outcome × Live W
  unfolding call
  close_stages ok s = (ok, (call m.after_fn (set_state (set_completed true) s)).1)
  close_stages (err e) s = (err e, (call m.after_fn s).1)
  close_stages unfinished s = (unfinished, s)

  module _ (all : List ℕ) (fuel : ℕ) where
    -- The result of handleStage in the loop over the stages.
    unfoldable pub after_stage : Outcome × Live W → Run m all fuel → Outcome × Live W
    unfolding close_stages
    after_stage (ok, s) next = next s
    after_stage (unfinished, s) next = (unfinished, s)
    after_stage (err e, s) next =
        if is skip_stage e
        then next s
        else if is break_stages e
        then close_stages ok s
        else if is exit_workflow e
        then (ok, s)
        else close_stages (err e) s

    unfoldable pub run_stages : List (ReadyStage W) → Run m all fuel
    unfolding after_stage unless_stopped handle_stage
    run_stages [] s = close_stages ok s
    run_stages (stage ∷ stages) s =
        let rest = run_stages stages in
        unless_stopped m all fuel (λ t. after_stage (handle_stage m all fuel stage t) rest) s

    -- execute, after init has accepted the stages
    unfoldable pub execute_ready : List (ReadyStage W) → Run m all fuel
    unfolding run_stages check_status call
    execute_ready stages s =
        if check_status s
        then (ok, s)
        else let before = call m.before_fn s in
          elim before.0 [
            | some e ↦ (err (wrapped "workflow before: %w" [] e), before.1)
            | none ↦ run_stages stages (record before.1 { execution_started = true })
          ]

  abbrev pub pointers_or_none : Option (List ℕ) → List ℕ
  pointers_or_none none = []
  pointers_or_none (some ps) = ps

  unfoldable pub execute_checked : ℕ → Checked (List (ReadyStage W)) → Live W → Outcome × Live W
  unfolding execute_ready pointers
  execute_checked fuel (rejected e) s = (err (wrapped "workflow init: %w" [] e), s)
  execute_checked fuel (accepted stages) s =
      execute_ready (pointers_or_none (pointers m.stages)) fuel stages s

  -- execute
  unfoldable pub execute : ℕ → Live W → Outcome × Live W
  unfolding execute_checked init
  execute fuel s =
      let c = init m (record s { execution_started = false }) in execute_checked fuel c.0 c.1

  -- The snapshot of finish, which panics on a nil stage or step; the error of SnapshotFn is logged.
  unfoldable pub snapshot_then : Live W → (Live W → Verdict W) → Verdict W
  unfolding pointers get_snapshot
  snapshot_then s next = elim m.snapshot_fn [
    | none ↦ next s
    | some f ↦ elim (pointers m.stages) [
      | none ↦ crashed
      | some all ↦ next (f (get_snapshot all s) s).1
    ]
  ]

  unfoldable pub report_failure : Err → Live W → Live W
  report_failure e s = elim m.on_failure_fn [ none ↦ s | some f ↦ (f e s).1 ]

  -- The navigation to the compensation.
  abbrev pub route : Err → Option Bytes → Option Bytes → WorkflowState → WorkflowState
  route e (some stage) (some step) w =
      go_to_step step (go_to_stage stage (set_workflow_error (some e) w))
  route e _ _ w = w

  unfoldable pub has_compensation : Bool
  has_compensation = is_some m.compensation_stage && is_some m.compensation_step

  unfoldable pub surface : Err → Live W → Verdict W
  surface e s = returned (if s.is_skip_error then none else some e) s

  unfoldable pub compensate : Err → Live W → Verdict W
  unfolding snapshot_then has_compensation surface
  compensate e s =
      if has_compensation && s.execution_started
      then snapshot_then (set_state (route e m.compensation_stage m.compensation_step) s)
          (λ t. surface e (record t { is_skip_error = true }))
      else surface e s

  -- finish
  unfoldable pub finish : Outcome → Live W → Verdict W
  unfolding snapshot_then report_failure compensate
  finish ok s = returned none s
  finish unfinished s = running s
  finish (err e) s = snapshot_then s (λ t. compensate e (report_failure e t))

  -- Run. `in_time` tells whether execute returns before the shutdown timeout, where the context is
  -- cancelled, from the state in which it returns.
  unfoldable pub run : (Live W → Bool) → ℕ → Live W → Verdict W
  unfolding execute finish
  run in_time fuel s =
      let r = execute fuel s in
      if in_time r.1
      then finish r.0 r.1
      else abandoned (text "workflow shutdown execution timeout" [])
