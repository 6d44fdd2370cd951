-- ===== src/Workflow/Reporting.antt =====
-- What handleStep returns, and what it records of its step (workflow/workflow.go).
use xutils.Prelude.{
  ℕ, List, [], ◌∷◌, Bool, true, false, Option, none, some, if◌then◌else◌, ◌==◌, ◌≡◌, refl, arith,
  ap, ◌∙◌, subst,
}
use xutils.Bytes.{Bytes, same}
use xutils.Workflow.Errors.{
  Err, sentinel, skip_step, break_stages, exit_workflow, is_control_flow_error,
}
use xutils.Workflow.State.{
  StepState, StepStatus, pending, processing, completed, failed, suspended, skipped, other,
  new_step_state, set_status, set_error, set_end_time, go_to_step,
}
use xutils.Workflow.Model.{
  Live, Action, ReadyStep, Snapshot, Workflow, cell, update, set_state, check_status,
}
use xutils.Workflow.Policies.{Outcome, ok, err, unfinished}
use xutils.Workflow.Snapshots.{get_snapshot}
use xutils.Workflow.Steps.{
  signal, failed_state, completed_state, save_snapshot, read_clock, deferred, close_step, open_step,
  work, run_step, skip_or_run, by_step_status, take_next_step, handle_step,
}
use xutils.Workflow.Preserving.{Each}
use xutils.Workflow.Preserving.Repeats.{is_done}

-- The result `r` of handleStep at a step with the state `before`, and the state `c` it leaves.
pub data Report {W : Type 0} (step : ReadyStep W) (before : StepState) (r : Outcome) (c : StepState)
    : Type 0 where
  -- The workflow is completed, suspended or failed: ErrExitWorkflow, and the state is the same.
  inactive : r ≡ err (sentinel exit_workflow) → c ≡ before → Report step before r c
  -- The step was completed or skipped before, or is skipped now on the way to the next step.
  passed_over : r ≡ err (sentinel skip_step) → is_done c.status ≡ true → Report step before r c
  -- The step is suspended: ErrBreakStages, and the state is the same.
  on_hold :
      r ≡ err (sentinel break_stages)
      → before.status ≡ suspended
      → c ≡ before
      → Report step before r c
  -- The step succeeded: nil, or ErrBreakStages where it finishes the workflow.
  succeeded :
      r ≡ (if step.finish_workflow then err (sentinel break_stages) else ok)
      → c.status ≡ completed
      → c.error ≡ none
      → Report step before r c
  -- A control-flow error: the step counts as skipped.
  signalled :
      (e : Err)
      → r ≡ err e
      → is_control_flow_error e ≡ true
      → c.status ≡ skipped
      → Report step before r c
  -- Any other error, which the state then holds.
  broken :
      (e : Err)
      → r ≡ err e
      → is_control_flow_error e ≡ false
      → c.status ≡ failed
      → c.error ≡ some e
      → Report step before r c
  waiting : r ≡ unfinished → Report step before r c

module _ {W : Type 0} (m : Workflow W) (all : List ℕ) (fuel : ℕ) (stage : Bytes)
    (step : ReadyStep W)
    (quiet : Each m.snapshot_fn (λ f.
      (sh : Snapshot) (s : Live W) → (f sh s).1.cells step.pointer ≡ s.cells step.pointer)) where
  cell-update :
      (p : ℕ) (f : StepState → StepState) (s : Live W) → cell p (update p f s) ≡ f (cell p s)
  cell-update p f s =
      ap
        (λ b. elim (if b then some (f (cell p s)) else s.cells p) [
          | none ↦ new_step_state
          | some c ↦ c
        ])
        (itself p)
    where
      itself : (p : ℕ) → (p == p) ≡ true
      itself p = ground arith

  snapshot-cell :
      (o : Option (Snapshot → Action W)) (s : Live W)
      → Each o
          (λ f. (sh : Snapshot) (t : Live W) → (f sh t).1.cells step.pointer ≡ t.cells step.pointer)
      → cell step.pointer (elim o [ none ↦ s | some f ↦ (f (get_snapshot all s) s).1 ])
        ≡ cell step.pointer s
  snapshot-cell none s h = refl
  snapshot-cell (some f) s h = ap (λ o. elim o [ none ↦ new_step_state | some c ↦ c ]) (h _ s)

  deferred-cell :
      (f : StepState → StepState) (s : Live W)
      → (c : StepState) × (cell step.pointer (deferred m all fuel step.pointer f s) ≡ f c)
  unfolding deferred read_clock save_snapshot
  deferred-cell f s =
      let t = read_clock m all fuel (λ t. update step.pointer (set_end_time t)) s in
      (
        cell step.pointer t,
        snapshot-cell m.snapshot_fn (update step.pointer f t) quiet ∙ cell-update step.pointer f t,
      )

  failed-Report :
      (before : StepState) (e : Err) (c d : StepState)
      → c ≡ failed_state e d
      → Report step before (err e) c
  unfolding failed_state
  failed-Report before e c d h = choose (is_control_flow_error e) refl h
    where
      choose :
          (b : Bool)
          → is_control_flow_error e ≡ b
          → c ≡ (if b then set_status skipped d else set_error (some e) (set_status failed d))
          → Report step before (err e) c
      choose true q h = signalled e refl q (ap (λ c. c.status) h)
      choose false q h = broken e refl q (ap (λ c. c.status) h) (ap (λ c. c.error) h)

  close_step-Report :
      (before : StepState) (o : Outcome) (s : Live W)
      → Report step before
          (close_step m all fuel step (o, s)).0
          (cell step.pointer (close_step m all fuel step (o, s)).1)
  unfolding close_step
  close_step-Report before ok s =
      let h = (deferred-cell completed_state s).1 in
      succeeded refl (ap (λ c. c.status) h) (ap (λ c. c.error) h)
  close_step-Report before (err e) s =
      failed-Report before e _ (deferred-cell (failed_state e) s).0
        (deferred-cell (failed_state e) s).1
  close_step-Report before unfinished s = waiting refl

  run_step-Report :
      (before : StepState) (s : Live W)
      → Report step before
          (run_step m all fuel stage step s).0
          (cell step.pointer (run_step m all fuel stage step s).1)
  unfolding run_step
  run_step-Report before s =
      let r = work m all fuel stage step (open_step m all fuel step.pointer s) in
      close_step-Report before r.0 r.1

  if-Report :
      (before : StepState) (b : Bool) (x y : Outcome × Live W)
      → Report step before x.0 (cell step.pointer x.1)
      → Report step before y.0 (cell step.pointer y.1)
      → Report step before (if b then x else y).0 (cell step.pointer (if b then x else y).1)
  if-Report before true x y h g = h
  if-Report before false x y h g = g

  skip_or_run-Report :
      (before : StepState) (next : Bytes) (s : Live W)
      → Report step before
          (skip_or_run m all fuel stage step next s).0
          (cell step.pointer (skip_or_run m all fuel stage step next s).1)
  unfolding skip_or_run
  skip_or_run-Report before [] s = run_step-Report before s
  skip_or_run-Report before (c ∷ next) s =
      let t = set_state (go_to_step []) s in
      let u = update step.pointer (set_status skipped) s in
      if-Report before (same (c ∷ next) step.name) (run_step m all fuel stage step t)
        (signal m all fuel skip_step u) (run_step-Report before t)
        (passed_over refl
          (ap (λ c. is_done c.status) (cell-update step.pointer (set_status skipped) s)))

  by_step_status-Report :
      (next : Bytes) (x : StepStatus) (s : Live W)
      → (cell step.pointer s).status ≡ x
      → Report step
          (cell step.pointer s)
          (by_step_status m all fuel stage step next x s).0
          (cell step.pointer (by_step_status m all fuel stage step next x s).1)
  unfolding by_step_status
  by_step_status-Report next completed s h = passed_over refl (ap is_done h)
  by_step_status-Report next skipped s h = passed_over refl (ap is_done h)
  by_step_status-Report next suspended s h = on_hold refl h refl
  by_step_status-Report next pending s h = skip_or_run-Report _ next s
  by_step_status-Report next processing s h = skip_or_run-Report _ next s
  by_step_status-Report next failed s h = skip_or_run-Report _ next s
  by_step_status-Report next (other x) s h = skip_or_run-Report _ next s

  taken-cell :
      (s : Live W) → cell step.pointer (take_next_step m all fuel step.name s) ≡ cell step.pointer s
  unfolding take_next_step
  taken-cell s = choose (same s.state.next_step step.name)
    where
      choose :
          (b : Bool)
          → cell step.pointer (if b then set_state (go_to_step []) s else s) ≡ cell step.pointer s
      choose true = refl
      choose false = refl

-- What handleStep returns and what it records of the step are one of: ErrExitWorkflow and no change;
-- ErrSkipStep and a step that is completed or skipped; ErrBreakStages and no change of a suspended
-- step; nil, or ErrBreakStages at a step that finishes the workflow, and a completed step without an
-- error; a control-flow error and a skipped step; another error and a failed step with this error. In
-- the model a step can also wait for an endless retry. The snapshot function leaves the state of the
-- step alone.
pub handle_step-Report :
    {W : Type 0} (m : Workflow W) (all : List ℕ) (fuel : ℕ) (stage : Bytes) (step : ReadyStep W)
    (s : Live W)
    → Each m.snapshot_fn
        (λ f. (sh : Snapshot) (t : Live W) → (f sh t).1.cells step.pointer ≡ t.cells step.pointer)
    → Report step
        (cell step.pointer s)
        (handle_step m all fuel stage step s).0
        (cell step.pointer (handle_step m all fuel stage step s).1)
unfolding handle_step
handle_step-Report m all fuel stage step s quiet =
    let t = take_next_step m all fuel step.name s in
    let same_cell = taken-cell m all fuel stage step quiet s in
    let c = cell step.pointer t in
    let r = by_step_status m all fuel stage step s.state.next_step c.status t in
    if-Report m all fuel stage step quiet (cell step.pointer s) (check_status t)
      (signal m all fuel exit_workflow t) r (inactive refl same_cell)
      (subst (λ c. Report step c r.0 (cell step.pointer r.1)) same_cell
        (by_step_status-Report m all fuel stage step quiet s.state.next_step c.status t refl))
