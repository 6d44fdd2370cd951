-- ===== src/Workflow/Preserving/Resumes.antt =====
-- Runs over steps that are done (workflow/workflow.go).
use xutils.Prelude.{
  ℕ, List, [], ◌∷◌, Bool, true, false, Option, none, some, if◌then◌else◌, ◌==◌, ==_iff, ◌≡◌, ◌≢◌,
  refl, arith, ap, sym, ◌∙◌, subst, Bool-cases, inl, inr,
}
use xutils.Bytes.{Bytes, same}
use xutils.Workflow.Errors.{Err, skip_stage, exit_workflow, wrapped}
use xutils.Workflow.State.{go_to_stage}
use xutils.Workflow.Model.{Live, ReadyStep, ReadyStage, Workflow, set_state, check_status, call}
use xutils.Workflow.Policies.{Outcome, ok, err}
use xutils.Workflow.Steps.{
  signal, take_next_step, handle_step, after_step, handle_steps, enter_stage, skip_or_enter,
  handle_stage,
}
use xutils.Workflow.Runs.{after_stage, run_stages, execute_ready}
use xutils.Workflow.Preserving.{
  Each, Safe, CallbacksSafe, WorkflowSafe, StepCallbacks, Kept, if-Kept, call-Kept,
}
use xutils.Workflow.Preserving.Steps.{handle_step-Kept}
use xutils.Workflow.Preserving.Stages.{StepsKeep, handle_stage-Kept}
use xutils.Workflow.Preserving.Repeats.{
  Done, swap_step, swap_steps, swap_stage, swap_stages, OthersSafe, StagesSafe, workflow_safe,
  step_safe, taken-Done, passed, handle_step-done,
}
use xutils.Workflow.Preserving.Agreement.{
  then_run-Agree, unless_stopped-Agree, after_step-Agree, after_stage-Agree,
}

module _ {W : Type 0} (m : Workflow W) (all : List ℕ) (fuel : ℕ) (o : ReadyStep W)
    (callbacks : CallbacksSafe (Done o.pointer) m) where
  the_workflow : WorkflowSafe (Done o.pointer) m
  the_workflow = workflow_safe o.pointer m callbacks

  passed-Kept :
      (n : Bytes) (s : Live W)
      → Done o.pointer s
      → Kept (Done o.pointer) (passed o.pointer m all fuel n s)
  passed-Kept n s g =
      let t = taken-Done o.pointer m all fuel n s g in
      if-Kept (Done o.pointer) (check_status (take_next_step m all fuel n s)) (record { kept = t })
        (record { kept = t })

  step-Kept :
      (stage : Bytes) (step : ReadyStep W) (s : Live W)
      → (step.pointer ≢ o.pointer → StepCallbacks (Done o.pointer) step)
      → Done o.pointer s
      → Kept (Done o.pointer) (handle_step m all fuel stage step s)
  step-Kept stage step s h g = elim (Bool-cases (step.pointer == o.pointer)) [
    | inl here ↦
        subst (Kept (Done o.pointer))
          (sym (handle_step-done o.pointer m all fuel stage step s ((==_iff _ _).0 here) g))
          (passed-Kept step.name s g)
    | inr there ↦
        let apart = not_same step.pointer o.pointer there in
        handle_step-Kept (Done o.pointer) m all fuel the_workflow stage step
          (step_safe o.pointer step apart (h apart)) s g
  ]
    where
      not_same : (a b : ℕ) → (a == b) ≡ false → a ≢ b
      not_same a b h = λ e. ground (arith, h, e)

  step-Agree :
      (stage : Bytes) (step : ReadyStep W) (s : Live W)
      → Done o.pointer s
      → handle_step m all fuel stage (swap_step o step) s ≡ handle_step m all fuel stage step s
  step-Agree stage step s g = choose (step.pointer == o.pointer) refl
    where
      choose :
          (b : Bool)
          → (step.pointer == o.pointer) ≡ b
          → handle_step m all fuel stage (if b then record o { name = step.name } else step) s
            ≡ handle_step m all fuel stage step s
      choose true e =
          handle_step-done o.pointer m all fuel stage (record o { name = step.name }) s refl g
          ∙ sym (handle_step-done o.pointer m all fuel stage step s ((==_iff _ _).0 e) g)
      choose false e = refl

  StepsKeep-others :
      (stage : ReadyStage W) (steps : List (ReadyStep W))
      → OthersSafe o.pointer steps
      → StepsKeep (Done o.pointer) m all fuel the_workflow stage steps
  unfolding StepsKeep
  StepsKeep-others stage [] h = tt
  StepsKeep-others stage (step ∷ steps) h =
      (λ s g. step-Kept stage.name step s h.0 g, StepsKeep-others stage steps h.1)

  steps-Agree :
      (stage : ReadyStage W) (steps : List (ReadyStep W)) (s : Live W)
      → OthersSafe o.pointer steps
      → Done o.pointer s
      → handle_steps m all fuel (swap_stage o stage) (swap_steps o steps) s
        ≡ handle_steps m all fuel stage steps s
  unfolding handle_steps
  steps-Agree stage [] s h g = refl
  steps-Agree stage (step ∷ steps) s h g =
      unless_stopped-Agree (Done o.pointer) m all fuel the_workflow _ _ s g (λ t k.
        ap
          (λ r.
            after_step m all fuel r
              (handle_steps m all fuel (swap_stage o stage) (swap_steps o steps)))
          (step-Agree stage.name step t k)
        ∙ after_step-Agree (Done o.pointer) m all fuel the_workflow
            (handle_step m all fuel stage.name step t) _ _ (step-Kept stage.name step t h.0 k)
            (λ u l. steps-Agree stage steps u h.1 l))

  enter-Agree :
      (stage : ReadyStage W) (steps : List (ReadyStep W)) (s : Live W)
      → Each stage.before_fn (Safe (Done o.pointer))
      → OthersSafe o.pointer steps
      → Done o.pointer s
      → enter_stage m all fuel (swap_stage o stage) (swap_steps o steps) s
        ≡ enter_stage m all fuel stage steps s
  unfolding enter_stage
  enter-Agree stage [] s b h g = refl
  enter-Agree stage (step ∷ steps) s b h g =
      then_run-Agree (Done o.pointer) m all fuel the_workflow (call stage.before_fn s) _ _
        (call-Kept (Done o.pointer) stage.before_fn s b g)
        (λ t k. steps-Agree stage (step ∷ steps) t h k)

  stage-Agree :
      (stage : ReadyStage W) (next : Bytes) (s : Live W)
      → Each stage.before_fn (Safe (Done o.pointer))
      → OthersSafe o.pointer stage.steps
      → Done o.pointer s
      → skip_or_enter m all fuel (swap_stage o stage) next s ≡ skip_or_enter m all fuel stage next s
  unfolding skip_or_enter
  stage-Agree stage [] s b h g = enter-Agree stage stage.steps s b h g
  stage-Agree stage (c ∷ next) s b h g =
      ap (λ r. if same (c ∷ next) stage.name then r else signal m all fuel skip_stage s)
        (enter-Agree stage stage.steps (set_state (go_to_stage []) s) b h
          (record { done = g.done }))

  handle_stage-Agree :
      (stage : ReadyStage W) (s : Live W)
      → Each stage.before_fn (Safe (Done o.pointer))
      → OthersSafe o.pointer stage.steps
      → Done o.pointer s
      → handle_stage m all fuel (swap_stage o stage) s ≡ handle_stage m all fuel stage s
  unfolding handle_stage
  handle_stage-Agree stage s b h g =
      ap (λ r. if check_status s then signal m all fuel exit_workflow s else r)
        (stage-Agree stage s.state.next_stage s b h g)

  stages-Agree :
      (stages : List (ReadyStage W)) (s : Live W)
      → StagesSafe o.pointer stages
      → Done o.pointer s
      → run_stages m all fuel (swap_stages o stages) s ≡ run_stages m all fuel stages s
  unfolding run_stages
  stages-Agree [] s h g = refl
  stages-Agree (stage ∷ stages) s h g =
      unless_stopped-Agree (Done o.pointer) m all fuel the_workflow _ _ s g (λ t k.
        ap (λ r. after_stage m all fuel r (run_stages m all fuel (swap_stages o stages)))
          (handle_stage-Agree stage t h.0 h.2 k)
        ∙ after_stage-Agree (Done o.pointer) m all fuel the_workflow
            (handle_stage m all fuel stage t) _ _
            (handle_stage-Kept (Done o.pointer) m all fuel the_workflow stage t
              (record { before = h.0; after = h.1; steps = StepsKeep-others stage stage.steps h.2 })
              k)
            (λ u l. stages-Agree stages u h.3 l))

  before-Agree :
      (r : Option Err × Live W) (stages : List (ReadyStage W))
      → StagesSafe o.pointer stages
      → Kept (Done o.pointer) r
      → Path
          (Outcome × Live W)
          (elim r.0 [
            | some e ↦ (err (wrapped "workflow before: %w" [] e), r.1)
            | none ↦
                run_stages m all fuel
                  (swap_stages o stages)
                  (record r.1 { execution_started = true })
          ])
          (elim r.0 [
            | some e ↦ (err (wrapped "workflow before: %w" [] e), r.1)
            | none ↦ run_stages m all fuel stages (record r.1 { execution_started = true })
          ])
  before-Agree (some e, s) stages h k = refl
  before-Agree (none, s) stages h k = stages-Agree stages _ h (record { done = k.kept.done })

-- A step that is recorded as completed or skipped when a run begins is not run by it again: the run
-- is the same, in its result, in what it does to the world and in the states it leaves, whatever
-- function, hooks, retry policy and limits stand in the place of the step's own, under its name. It is
-- assumed that no callback of the workflow, of a stage or of another step takes the record of the
-- step back.
pub execute_ready-done :
    {W : Type 0} (m : Workflow W) (all : List ℕ) (fuel : ℕ) (o : ReadyStep W)
    (stages : List (ReadyStage W)) (s : Live W)
    → CallbacksSafe (Done o.pointer) m
    → Each m.before_fn (Safe (Done o.pointer))
    → StagesSafe o.pointer stages
    → Done o.pointer s
    → execute_ready m all fuel (swap_stages o stages) s ≡ execute_ready m all fuel stages s
unfolding execute_ready
execute_ready-done m all fuel o stages s c b h g =
    ap (λ r. if check_status s then (ok, s) else r)
      (before-Agree m all fuel o c (call m.before_fn s) stages h
        (call-Kept (Done o.pointer) m.before_fn s b g))
