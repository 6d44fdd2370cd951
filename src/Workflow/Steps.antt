-- ===== src/Workflow/Steps.antt =====
-- workflow/workflow.go: handleStep, handleStage and the loop of execute over the stages. Log lines
-- are left out, and so are the errors of the snapshot function, which are only logged.
use xutils.Prelude.{ℕ, List, [], ◌∷◌, Bool, ◌||◌, Option, none, some, if◌then◌else◌}
use xutils.Bytes.{Bytes, same}
use xutils.Workflow.Errors.{
  Err, Sentinel, sentinel, skip_step, skip_stage, break_stages, exit_workflow, wrapped, is,
  is_control_flow_error,
}
use xutils.Workflow.State.{
  StepState, StepStatus, pending, processing, completed, failed, suspended, skipped, other,
  set_start_time, set_end_time, set_status, set_error, set_previous_stage, set_previous_step,
  go_to_stage, go_to_step,
}
use xutils.Workflow.Model.{
  Live, Action, ReadyStep, ReadyStage, Workflow, cell, update, set_state, check_status, call,
}
use xutils.Workflow.Policies.{Outcome, ok, err, unfinished, outcome, apply_policy}
use xutils.Workflow.Snapshots.{get_snapshot}

-- The status and the error that the deferred function writes, where the step did not succeed.
unfoldable pub failed_state : Err → StepState → StepState
failed_state e c =
    if is_control_flow_error e
    then set_status skipped c
    else set_error (some e) (set_status failed c)

abbrev pub completed_state : StepState → StepState
completed_state c = set_status completed (set_error none c)

module _ {W : Type 0} (m : Workflow W) (all : List ℕ) (fuel : ℕ) where
  abbrev pub Run : Type 0
  Run = Live W → Outcome × Live W

  abbrev pub signal : Sentinel → Run
  signal t s = (err (sentinel t), s)

  -- SnapshotFn, where there is one, at the snapshot of now
  unfoldable pub save_snapshot : Live W → Live W
  unfolding get_snapshot
  save_snapshot s = elim m.snapshot_fn [ none ↦ s | some f ↦ (f (get_snapshot all s) s).1 ]

  unfoldable pub read_clock : (ℕ → Live W → Live W) → Live W → Live W
  read_clock use_time s = let t = m.now s.world in use_time t.0 (record s { world = t.1 })

  -- A callback, and what follows where it returns nil.
  unfoldable pub then_run : Option Err × Live W → Run → Outcome × Live W
  then_run (none, s) next = next s
  then_run (some e, s) next = (err e, s)

  -- BeforeAllStepsFn or AfterAllStepsFn at a step
  unfoldable pub hook : Option (Bytes → ℕ → Action W) → Bytes → ReadyStep W → Action W
  hook none stage step s = (none, s)
  hook (some f) stage step s = f stage step.pointer s

  unfoldable pub step_outcome : Bytes → ReadyStep W → Outcome → Outcome
  step_outcome stage step (err e) =
      err (wrapped "stage [%s] failed on step [%s]: %w" (stage ∷ step.name ∷ []) e)
  step_outcome stage step o = o

  -- The hooks after the step function, whose errors come before the error of the step.
  unfoldable pub after_hooks : Bytes → ReadyStep W → Outcome → Run
  unfolding then_run call hook step_outcome
  after_hooks stage step o s =
      then_run (call step.after_fn s) (λ t.
        then_run (hook m.after_all_steps_fn stage step t) (λ u. (step_outcome stage step o, u)))

  unfoldable pub after_policy : Bytes → ReadyStep W → Outcome → Run
  unfolding after_hooks
  after_policy stage step unfinished s = (unfinished, s)
  after_policy stage step ok s = after_hooks stage step ok s
  after_policy stage step (err e) s = after_hooks stage step (err e) s

  -- The body of handleStep from the hooks before the step on; `ok` is stepSucceeded.
  unfoldable pub work : Bytes → ReadyStep W → Run
  unfolding then_run call hook apply_policy after_policy
  work stage step s = then_run (hook m.before_all_steps_fn stage step s) (λ t.
      then_run (call step.before_fn t) (λ u.
        let r = apply_policy m fuel step step.retry_policy u in after_policy stage step r.0 r.1))

  -- The deferred function: the end time, the status, the snapshot.
  unfoldable pub deferred : ℕ → (StepState → StepState) → Live W → Live W
  unfolding read_clock save_snapshot
  deferred p f s = save_snapshot (update p f (read_clock (λ t. update p (set_end_time t)) s))

  -- What handleStep returns after its body.
  unfoldable pub close_step : ReadyStep W → Outcome × Live W → Outcome × Live W
  unfolding deferred failed_state
  close_step step (ok, s) = (
    (if step.finish_workflow then err (sentinel break_stages) else ok),
    deferred step.pointer completed_state s,
  )
  close_step step (err e, s) = (err e, deferred step.pointer (failed_state e) s)
  close_step step (unfinished, s) = (unfinished, s)

  -- The previous stage and step, from the step that ran last.
  unfoldable pub set_previous : ℕ → Live W → Live W
  set_previous p s = elim s.prev_step [
    | none ↦ s
    | some q ↦ elim (s.cells q) [
      | none ↦ s
      | some c ↦
          update p (λ d. set_previous_step c.current_step (set_previous_stage c.current_stage d)) s
    ]
  ]

  -- From the start time to the snapshot before the step.
  unfoldable pub open_step : ℕ → Live W → Live W
  unfolding read_clock save_snapshot set_previous
  open_step p s =
      let started =
        update p (set_status pending) (read_clock (λ t. update p (set_start_time t)) s) in
      let linked = record (set_previous p started) { prev_step = some p } in
      save_snapshot (update p (set_status processing) linked)

  unfoldable pub run_step : Bytes → ReadyStep W → Run
  unfolding work close_step open_step
  run_step stage step s = close_step step (work stage step (open_step step.pointer s))

  -- The test of the next step, which `next` was when handleStep began.
  unfoldable pub skip_or_run : Bytes → ReadyStep W → Bytes → Run
  unfolding run_step
  skip_or_run stage step [] s = run_step stage step s
  skip_or_run stage step (c ∷ next) s =
      if same (c ∷ next) step.name
      then run_step stage step (set_state (go_to_step []) s)
      else signal skip_step (update step.pointer (set_status skipped) s)

  unfoldable pub by_step_status : Bytes → ReadyStep W → Bytes → StepStatus → Run
  unfolding skip_or_run
  by_step_status stage step next completed s = signal skip_step s
  by_step_status stage step next skipped s = signal skip_step s
  by_step_status stage step next suspended s = signal break_stages s
  by_step_status stage step next pending s = skip_or_run stage step next s
  by_step_status stage step next processing s = skip_or_run stage step next s
  by_step_status stage step next failed s = skip_or_run stage step next s
  by_step_status stage step next (other x) s = skip_or_run stage step next s

  -- The next step is forgotten at the step of its name, before any other test.
  unfoldable pub take_next_step : Bytes → Live W → Live W
  take_next_step name s = if same s.state.next_step name then set_state (go_to_step []) s else s

  -- handleStep
  unfoldable pub handle_step : Bytes → ReadyStep W → Run
  unfolding take_next_step check_status by_step_status
  handle_step stage step s =
      let t = take_next_step step.name s in
      if check_status t
      then signal exit_workflow t
      else by_step_status stage step s.state.next_step (cell step.pointer t).status t

  -- w.isStopped.Load(), after the cancellation that Run may have seen by now
  unfoldable pub look : Live W → Bool × Live W
  look s =
      let c = m.cancelled s.world in
      let stopped = s.is_stopped || c.0 in (stopped, record s { world = c.1; is_stopped = stopped })

  -- `if w.isStopped.Load() { return ctx.Err() }`
  unfoldable pub unless_stopped : Run → Run
  unfolding look
  unless_stopped next s =
      let l = look s in if l.0 then (outcome (m.context_error l.1.world), l.1) else next l.1

  -- The result of handleStep in the loop over the steps.
  unfoldable pub after_step : Outcome × Live W → Run → Outcome × Live W
  after_step (ok, s) next = next s
  after_step (unfinished, s) next = (unfinished, s)
  after_step (err e, s) next =
      if is break_stages e
      then (err (sentinel break_stages), s)
      else if is skip_step e
      then next s
      else if is exit_workflow e
      then (err (sentinel exit_workflow), s)
      else (err e, s)

  unfoldable pub handle_steps : ReadyStage W → List (ReadyStep W) → Run
  unfolding unless_stopped handle_step after_step then_run call
  handle_steps stage [] s = then_run (call stage.after_fn s) (λ t. (ok, t))
  handle_steps stage (step ∷ steps) s =
      let rest = handle_steps stage steps in
      unless_stopped (λ t. after_step (handle_step stage.name step t) rest) s

  -- handleStage after the test of the next stage
  unfoldable pub enter_stage : ReadyStage W → List (ReadyStep W) → Run
  unfolding handle_steps then_run call
  enter_stage stage [] s = signal skip_stage s
  enter_stage stage (step ∷ steps) s =
      then_run (call stage.before_fn s) (handle_steps stage (step ∷ steps))

  unfoldable pub skip_or_enter : ReadyStage W → Bytes → Run
  unfolding enter_stage
  skip_or_enter stage [] s = enter_stage stage stage.steps s
  skip_or_enter stage (c ∷ next) s =
      if same (c ∷ next) stage.name
      then enter_stage stage stage.steps (set_state (go_to_stage []) s)
      else signal skip_stage s

  -- handleStage
  unfoldable pub handle_stage : ReadyStage W → Run
  unfolding check_status skip_or_enter
  handle_stage stage s =
      if check_status s then signal exit_workflow s else skip_or_enter stage s.state.next_stage s
