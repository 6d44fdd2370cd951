-- ===== src/Workflow/Preserving/Stages.antt =====
-- What the loops over the steps and the stages leave alone (workflow/workflow.go).
use xutils.Prelude.{ℕ, List, [], ◌∷◌, true}
use xutils.Bytes.{Bytes, same}
use xutils.Workflow.State.{go_to_stage, set_completed}
use xutils.Workflow.Model.{Live, ReadyStep, ReadyStage, Workflow, check_status, call}
use xutils.Workflow.Policies.{Outcome, ok, err, unfinished}
use xutils.Workflow.Steps.{Run, handle_step}
use xutils.Workflow.Steps.{
  look, unless_stopped, after_step, handle_steps, enter_stage, skip_or_enter, handle_stage,
}
use xutils.Workflow.Errors.{is, skip_step, skip_stage, break_stages, exit_workflow}
use xutils.Workflow.Runs.{close_stages, after_stage, run_stages}
use xutils.Workflow.Preserving.{Each, Safe, WorkflowSafe, Kept, if-Kept, call-Kept, then_run-Kept}

module _ {W : Type 0} (P : Live W → Type 0) (m : Workflow W) (all : List ℕ) (fuel : ℕ)
    (safe : WorkflowSafe P m) where
  -- handleStep preserves the predicate at every step, and the callbacks of the stage do.
  unfoldable pub StepsKeep : ReadyStage W → List (ReadyStep W) → Type 0
  unfolding handle_step
  StepsKeep stage [] = Unit {0}
  StepsKeep stage (step ∷ steps) =
      ((s : Live W) → P s → Kept P (handle_step m all fuel stage.name step s))
      × StepsKeep stage steps

  pub record StageKeeps (stage : ReadyStage W) : Type 0 where
    pub before : Each stage.before_fn (Safe P)
    pub after : Each stage.after_fn (Safe P)
    pub steps : StepsKeep stage stage.steps

  look-Kept : (s : Live W) → P s → Kept P (look m all fuel s)
  unfolding look
  look-Kept s g = record { kept = safe.by_stop _ _ (safe.by_world _ s g) }

  pub unless_stopped-Kept :
      (next : Run m all fuel) (s : Live W)
      → P s
      → ((t : Live W) → P t → Kept P (next t))
      → Kept P (unless_stopped m all fuel next s)
  unfolding unless_stopped
  unless_stopped-Kept next s g h =
      let k = look-Kept s g in
      if-Kept P (look m all fuel s).0 (record { kept = k.kept }) (h (look m all fuel s).1 k.kept)

  pub after_step-Kept :
      (r : Outcome × Live W) (next : Run m all fuel)
      → Kept P r
      → ((t : Live W) → P t → Kept P (next t))
      → Kept P (after_step m all fuel r next)
  unfolding after_step
  after_step-Kept (ok, s) next g h = h s g.kept
  after_step-Kept (unfinished, s) next g h = record { kept = g.kept }
  after_step-Kept (err e, s) next g h =
      if-Kept P (is break_stages e) (record { kept = g.kept })
        (if-Kept P (is skip_step e) (h s g.kept)
          (if-Kept P (is exit_workflow e) (record { kept = g.kept }) (record { kept = g.kept })))

  handle_steps-Kept :
      (stage : ReadyStage W) (steps : List (ReadyStep W)) (s : Live W)
      → Each stage.after_fn (Safe P)
      → StepsKeep stage steps
      → P s
      → Kept P (handle_steps m all fuel stage steps s)
  unfolding handle_steps StepsKeep
  handle_steps-Kept stage [] s a h g =
      then_run-Kept P m all fuel safe (call stage.after_fn s) _ (call-Kept P stage.after_fn s a g)
        (λ t k. record { kept = k })
  handle_steps-Kept stage (step ∷ steps) s a h g = unless_stopped-Kept _ s g (λ t k.
      after_step-Kept (handle_step m all fuel stage.name step t) _ (h.0 t k)
        (λ u l. handle_steps-Kept stage steps u a h.1 l))

  enter_stage-Kept :
      (stage : ReadyStage W) (steps : List (ReadyStep W)) (s : Live W)
      → Each stage.before_fn (Safe P)
      → Each stage.after_fn (Safe P)
      → StepsKeep stage steps
      → P s
      → Kept P (enter_stage m all fuel stage steps s)
  unfolding enter_stage
  enter_stage-Kept stage [] s b a h g = record { kept = g }
  enter_stage-Kept stage (step ∷ steps) s b a h g =
      then_run-Kept P m all fuel safe (call stage.before_fn s) _ (call-Kept P stage.before_fn s b g)
        (λ t k. handle_steps-Kept stage (step ∷ steps) t a h k)

  skip_or_enter-Kept :
      (stage : ReadyStage W) (next : Bytes) (s : Live W)
      → StageKeeps stage
      → P s
      → Kept P (skip_or_enter m all fuel stage next s)
  unfolding skip_or_enter
  skip_or_enter-Kept stage [] s h g =
      enter_stage-Kept stage stage.steps s h.before h.after h.steps g
  skip_or_enter-Kept stage (c ∷ next) s h g =
      if-Kept P (same (c ∷ next) stage.name)
        (enter_stage-Kept stage stage.steps _ h.before h.after h.steps
          (safe.by_state (go_to_stage []) s g))
        (record { kept = g })

  pub handle_stage-Kept :
      (stage : ReadyStage W) (s : Live W)
      → StageKeeps stage
      → P s
      → Kept P (handle_stage m all fuel stage s)
  unfolding handle_stage
  handle_stage-Kept stage s h g =
      if-Kept P (check_status s) (record { kept = g })
        (skip_or_enter-Kept stage s.state.next_stage s h g)

  close-Kept : (o : Outcome) (s : Live W) → P s → Kept P (close_stages m o s)
  unfolding close_stages
  close-Kept ok s g = record {
    kept =
        (call-Kept P m.after_fn _ safe.callbacks.after_run
          (safe.by_state (set_completed true) s g)).kept;
  }
  close-Kept (err e) s g = record {
    kept = (call-Kept P m.after_fn s safe.callbacks.after_run g).kept;
  }
  close-Kept unfinished s g = record { kept = g }

  after_stage-Kept :
      (r : Outcome × Live W) (next : Run m all fuel)
      → Kept P r
      → ((t : Live W) → P t → Kept P (next t))
      → Kept P (after_stage m all fuel r next)
  unfolding after_stage
  after_stage-Kept (ok, s) next g h = h s g.kept
  after_stage-Kept (unfinished, s) next g h = record { kept = g.kept }
  after_stage-Kept (err e, s) next g h = if-Kept P (is skip_stage e) (h s g.kept) (
      if-Kept P (is break_stages e) (close-Kept ok s g.kept)
        (if-Kept P (is exit_workflow e) (record { kept = g.kept }) (close-Kept (err e) s g.kept)))

  unfoldable pub StagesKeep : List (ReadyStage W) → Type 0
  StagesKeep [] = Unit {0}
  StagesKeep (stage ∷ stages) = StageKeeps stage × StagesKeep stages

  pub run_stages-Kept :
      (stages : List (ReadyStage W)) (s : Live W)
      → StagesKeep stages
      → P s
      → Kept P (run_stages m all fuel stages s)
  unfolding run_stages StagesKeep
  run_stages-Kept [] s h g = close-Kept ok s g
  run_stages-Kept (stage ∷ stages) s h g = unless_stopped-Kept _ s g (λ t k.
      after_stage-Kept (handle_stage m all fuel stage t) _ (handle_stage-Kept stage t h.0 k)
        (λ u l. run_stages-Kept stages u h.1 l))
