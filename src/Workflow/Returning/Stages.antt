-- ===== src/Workflow/Returning/Stages.antt =====
-- Runs of a workflow without an endless retry (workflow/workflow.go).
use xutils.Prelude.{ℕ, pos, List, [], ◌∷◌, true, Option, none, some, refl, ◌≤ℤ◌}
use xutils.Bytes.{Bytes, same}
use xutils.Workflow.Errors.{Err, is, skip_stage, skip_step, break_stages, exit_workflow, wrapped}
use xutils.Workflow.Model.{Live, ReadyStep, ReadyStage, Workflow, call, check_status}
use xutils.Workflow.Policies.{Outcome, ok, err, unfinished}
use xutils.Workflow.Steps.{
  Run, unless_stopped, look, after_step, handle_step, handle_steps, enter_stage, skip_or_enter,
  handle_stage,
}
use xutils.Workflow.Runs.{close_stages, after_stage, run_stages, execute_ready}
use xutils.Workflow.Returning.{
  Returns, outcome-Returns, if-Returns, then_run-Returns, handle_step-Returns,
}

-- No step has a MaxRetries below 0.
abbrev pub StepsBounded : {W : Type 0} → List (ReadyStep W) → Type 0
StepsBounded [] = Unit {0}
StepsBounded (s ∷ steps) = (pos 0 ≤ℤ s.max_retries) × StepsBounded steps

abbrev pub StagesBounded : {W : Type 0} → List (ReadyStage W) → Type 0
StagesBounded [] = Unit {0}
StagesBounded (s ∷ stages) = StepsBounded s.steps × StagesBounded stages

module _ {W : Type 0} (m : Workflow W) (all : List ℕ) (fuel : ℕ) where
  unless_stopped-Returns :
      (next : Run m all fuel) (s : Live W)
      → ((t : Live W) → Returns (next t))
      → Returns (unless_stopped m all fuel next s)
  unfolding unless_stopped
  unless_stopped-Returns next s h =
      if-Returns (look m all fuel s).0 (outcome-Returns _ _) (h (look m all fuel s).1)

  after_step-Returns :
      (r : Outcome × Live W) (next : Run m all fuel)
      → Returns r
      → ((t : Live W) → Returns (next t))
      → Returns (after_step m all fuel r next)
  unfolding after_step
  after_step-Returns (ok, s) next g h = h s
  after_step-Returns (unfinished, s) next g h = record { returns = g.returns }
  after_step-Returns (err e, s) next g h =
      if-Returns (is break_stages e) (record { returns = refl })
        (if-Returns (is skip_step e) (h s)
          (if-Returns (is exit_workflow e) (record { returns = refl }) (record { returns = refl })))

  handle_steps-Returns :
      (stage : ReadyStage W) (steps : List (ReadyStep W)) (s : Live W)
      → StepsBounded steps
      → Returns (handle_steps m all fuel stage steps s)
  unfolding handle_steps
  handle_steps-Returns stage [] s h =
      then_run-Returns m all fuel (call stage.after_fn s) _ (λ t. record { returns = refl })
  handle_steps-Returns stage (step ∷ steps) s h = unless_stopped-Returns _ s (λ t.
      after_step-Returns (handle_step m all fuel stage.name step t) _
        (handle_step-Returns m all fuel stage.name step t h.0)
        (λ u. handle_steps-Returns stage steps u h.1))

  enter_stage-Returns :
      (stage : ReadyStage W) (steps : List (ReadyStep W)) (s : Live W)
      → StepsBounded steps
      → Returns (enter_stage m all fuel stage steps s)
  unfolding enter_stage
  enter_stage-Returns stage [] s h = record { returns = refl }
  enter_stage-Returns stage (step ∷ steps) s h =
      then_run-Returns m all fuel (call stage.before_fn s) _
        (λ t. handle_steps-Returns stage (step ∷ steps) t h)

  skip_or_enter-Returns :
      (stage : ReadyStage W) (next : Bytes) (s : Live W)
      → StepsBounded stage.steps
      → Returns (skip_or_enter m all fuel stage next s)
  unfolding skip_or_enter
  skip_or_enter-Returns stage [] s h = enter_stage-Returns stage stage.steps s h
  skip_or_enter-Returns stage (c ∷ next) s h =
      if-Returns (same (c ∷ next) stage.name) (enter_stage-Returns stage stage.steps _ h)
        (record { returns = refl })

  handle_stage-Returns :
      (stage : ReadyStage W) (s : Live W)
      → StepsBounded stage.steps
      → Returns (handle_stage m all fuel stage s)
  unfolding handle_stage
  handle_stage-Returns stage s h =
      if-Returns (check_status s) (record { returns = refl })
        (skip_or_enter-Returns stage s.state.next_stage s h)

  after_stage-Returns :
      (r : Outcome × Live W) (next : Run m all fuel)
      → Returns r
      → ((t : Live W) → Returns (next t))
      → Returns (after_stage m all fuel r next)
  unfolding after_stage close_stages
  after_stage-Returns (ok, s) next g h = h s
  after_stage-Returns (unfinished, s) next g h = record { returns = g.returns }
  after_stage-Returns (err e, s) next g h = if-Returns (is skip_stage e) (h s) (
      if-Returns (is break_stages e) (record { returns = refl })
        (if-Returns (is exit_workflow e) (record { returns = refl }) (record { returns = refl })))

  run_stages-Returns :
      (stages : List (ReadyStage W)) (s : Live W)
      → StagesBounded stages
      → Returns (run_stages m all fuel stages s)
  unfolding run_stages close_stages
  run_stages-Returns [] s h = record { returns = refl }
  run_stages-Returns (stage ∷ stages) s h = unless_stopped-Returns _ s (λ t.
      after_stage-Returns (handle_stage m all fuel stage t) _ (handle_stage-Returns stage t h.0)
        (λ u. run_stages-Returns stages u h.1))

  before_stages-Returns :
      (stages : List (ReadyStage W)) (o : Option Err) (s : Live W)
      → StagesBounded stages
      → Returns {W = W} (elim o [
        | some e ↦ (err (wrapped "workflow before: %w" [] e), s)
        | none ↦ run_stages m all fuel stages (record s { execution_started = true })
      ])
  before_stages-Returns stages none s h = run_stages-Returns stages _ h
  before_stages-Returns stages (some e) s h = record { returns = refl }

  pub execute_ready-Returns :
      (stages : List (ReadyStage W)) (s : Live W)
      → StagesBounded stages
      → Returns (execute_ready m all fuel stages s)
  unfolding execute_ready
  execute_ready-Returns stages s h =
      if-Returns (check_status s) (record { returns = refl })
        (before_stages-Returns stages (call m.before_fn s).0 _ h)
