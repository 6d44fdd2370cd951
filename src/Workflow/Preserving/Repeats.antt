-- ===== src/Workflow/Preserving/Repeats.antt =====
-- Steps that are done, in a run of a workflow (workflow/workflow.go).
use xutils.Prelude.{
  ℕ, List, [], ◌∷◌, Bool, true, false, none, some, if◌then◌else◌, ◌==◌, ◌≡◌, ◌≢◌, refl, arith, ap,
  sym, ◌∙◌, subst,
}
use xutils.Bytes.{Bytes, same}
use xutils.Workflow.Errors.{skip_step, exit_workflow}
use xutils.Workflow.State.{
  StepState, StepStatus, WorkflowState, pending, processing, completed, failed, suspended, skipped,
  other, go_to_stage, go_to_step,
}
use xutils.Workflow.Model.{
  Live, ReadyStep, ReadyStage, Workflow, cell, update, set_state, check_status,
}
use xutils.Workflow.Policies.{Outcome}
use xutils.Workflow.Steps.{signal, take_next_step, by_step_status, handle_step}
use xutils.Workflow.Preserving.{
  Each, Safe, CallbacksSafe, WorkflowSafe, StepCallbacks, StepSafe, change,
}

abbrev pub is_done : StepStatus → Bool
is_done completed = true
is_done skipped = true
is_done _ = false

-- The step with the pointer `p` is recorded as completed or skipped.
pub record Done {W : Type 0} (p : ℕ) (s : Live W) : Type 0 where
  pub done : is_done (cell p s).status ≡ true

module _ {W : Type 0} where
  -- Another step, under the name of a step with the same pointer.
  abbrev pub swap_step : ReadyStep W → ReadyStep W → ReadyStep W
  swap_step o step = if step.pointer == o.pointer then record o { name = step.name } else step

  abbrev pub swap_steps : ReadyStep W → List (ReadyStep W) → List (ReadyStep W)
  swap_steps o [] = []
  swap_steps o (step ∷ steps) = swap_step o step ∷ swap_steps o steps

  abbrev pub swap_stage : ReadyStep W → ReadyStage W → ReadyStage W
  swap_stage o stage = record stage { steps = swap_steps o stage.steps }

  abbrev pub swap_stages : ReadyStep W → List (ReadyStage W) → List (ReadyStage W)
  swap_stages o [] = []
  swap_stages o (stage ∷ stages) = swap_stage o stage ∷ swap_stages o stages

  -- The callbacks of the steps other than `p`, and those of the stages, keep it done.
  abbrev pub OthersSafe : ℕ → List (ReadyStep W) → Type 0
  OthersSafe p [] = Unit {0}
  OthersSafe p (step ∷ steps) =
      (step.pointer ≢ p → StepCallbacks (Done p) step) × OthersSafe p steps

  abbrev pub StagesSafe : ℕ → List (ReadyStage W) → Type 0
  StagesSafe p [] = Unit {0}
  StagesSafe p (stage ∷ stages) =
      Each stage.before_fn (Safe (Done p))
      × Each stage.after_fn (Safe (Done p))
      × OthersSafe p stage.steps
      × StagesSafe p stages

  module _ (p : ℕ) where
    pub workflow_safe : (m : Workflow W) → CallbacksSafe (Done p) m → WorkflowSafe (Done p) m
    workflow_safe m c = record {
      callbacks = c;
      by_world = λ w s g. record { done = g.done };
      by_stop = λ b s g. record { done = g.done };
      by_link = λ q s g. record { done = g.done };
      by_state = λ f s g. record { done = g.done };
    }

    other_cell :
        (q : ℕ) (f : StepState → StepState) (s : Live W) → q ≢ p → cell p (update q f s) ≡ cell p s
    other_cell q f s h =
        ap
          (λ b. elim (if b then some (f (cell q s)) else s.cells p) [
            | none ↦ xutils.Workflow.State.new_step_state
            | some c ↦ c
          ])
          (differ q h)
      where
        differ : (q : ℕ) → q ≢ p → (q == p) ≡ false
        differ q h = ground (arith, h)

    pub step_safe :
        (step : ReadyStep W)
        → step.pointer ≢ p
        → StepCallbacks (Done p) step
        → StepSafe (Done p) step
    step_safe step h c = record {
      callbacks = c;
      by_change = λ x s g. record {
        done = ap (λ c. is_done c.status) (other_cell step.pointer (change x) s h) ∙ g.done;
      };
    }

    done_step :
        (m : Workflow W) (all : List ℕ) (fuel : ℕ) (stage : Bytes) (step : ReadyStep W)
        (next : Bytes) (x : StepStatus) (s : Live W)
        → is_done x ≡ true
        → by_step_status m all fuel stage step next x s ≡ signal m all fuel skip_step s
    unfolding by_step_status
    done_step m all fuel stage step next completed s h = refl
    done_step m all fuel stage step next skipped s h = refl
    done_step m all fuel stage step next pending s h = cc
    done_step m all fuel stage step next processing s h = cc
    done_step m all fuel stage step next failed s h = cc
    done_step m all fuel stage step next suspended s h = cc
    done_step m all fuel stage step next (other y) s h = cc

    pub taken-Done :
        (m : Workflow W) (all : List ℕ) (fuel : ℕ) (n : Bytes) (s : Live W)
        → Done p s
        → Done p (take_next_step m all fuel n s)
    unfolding take_next_step
    taken-Done m all fuel n s g = choose (same s.state.next_step n)
      where
        choose : (b : Bool) → Done p (if b then set_state (go_to_step []) s else s)
        choose true = record { done = g.done }
        choose false = g

    -- handleStep at a step that is done: at most the next step is forgotten.
    abbrev pub passed : (m : Workflow W) → List ℕ → ℕ → Bytes → Live W → Outcome × Live W
    passed m all fuel n s =
        let t = take_next_step m all fuel n s in
        if check_status t then signal m all fuel exit_workflow t else signal m all fuel skip_step t

    pub handle_step-done :
        (m : Workflow W) (all : List ℕ) (fuel : ℕ) (stage : Bytes) (step : ReadyStep W) (s : Live W)
        → step.pointer ≡ p
        → Done p s
        → handle_step m all fuel stage step s ≡ passed m all fuel step.name s
    unfolding handle_step
    handle_step-done m all fuel stage step s e g =
        let t = take_next_step m all fuel step.name s in
        ap (λ r. if check_status t then signal m all fuel exit_workflow t else r)
          (done_step m all fuel stage step s.state.next_step (cell step.pointer t).status t (
            subst (λ q. is_done (cell q t).status ≡ true) (sym e)
              (taken-Done m all fuel step.name s g).done))
