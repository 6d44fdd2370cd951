-- ===== src/Workflow/Init.antt =====
-- workflow/workflow.go: init, which checks the stages and the steps and gives the steps their
-- defaults and their states.
pub mod Sound
pub mod Accepting
use xutils.Prelude.{
  ℕ, suc, pos, List, [], ◌∷◌, Bool, true, ◌||◌, Option, none, some, if◌then◌else◌, false,
}
use xutils.Bytes.{Bytes, same}
use xutils.Bytes.Decimal.{itoa}
use xutils.Workflow.Errors.{Err, text}
use xutils.Workflow.State.{set_current}
use xutils.Workflow.Model.{
  Live, Step, Stage, ReadyStep, ReadyStage, Workflow, update, set_default_values, Action,
}

-- A result of init, and the states it leaves.
pub data Checked (A : Type 0) : Type 0 where
  rejected : Err → Checked A
  accepted : A → Checked A

-- Membership in an index, stageIndex or stepIndex, given by its keys.
unfoldable pub has : Bytes → List Bytes → Bool
has n [] = false
has n (k ∷ ks) = same k n || has n ks

-- What the loop over the steps keeps: the index of steps, the accepted ones, and the states.
pub record StepsDone (W : Type 0) : Type 0 where
  pub result : Checked (List (ReadyStep W))
  pub index : List Bytes
  pub live : Live W

pub record StagesDone (W : Type 0) : Type 0 where
  pub result : Checked (List (ReadyStage W))
  pub stage_index : List Bytes
  pub step_index : List Bytes
  pub live : Live W

abbrev pub missing : Option Bytes → List Bytes → Bool
missing none index = false
missing (some n) index = if has n index then false else true

abbrev pub name_of : Option Bytes → Bytes
name_of none = []
name_of (some n) = n

-- An accepted element before the accepted ones.
abbrev pub with_head : {A : Type 0} → A → Checked (List A) → Checked (List A)
with_head a (rejected e) = rejected e
with_head a (accepted xs) = accepted (a ∷ xs)

module _ {W : Type 0} where
  abbrev pub refuse_step : Err → List Bytes → Live W → StepsDone W
  refuse_step e index s = record { result = rejected e; index = index; live = s }

  -- The state of an accepted step: a new one where it is nil, with the names of the stage and the step.
  unfoldable pub init_state : Bytes → Step W → Live W → Live W
  init_state stage step s = update step.pointer (set_current stage step.name) s

  -- step.State = NewStepState(), where it is nil
  unfoldable pub fill_state : Step W → Live W → Live W
  fill_state step s = update step.pointer (λ c. c) s

  -- The test of the function; `rest` is what the steps after this one come to.
  unfoldable pub with_function :
      Bytes → Step W → Option (Action W) → List Bytes → Live W → StepsDone W → StepsDone W
  unfolding fill_state set_default_values
  with_function stage step none index s rest =
      refuse_step (text "step [%s] in stage [%s] has no function" (step.name ∷ stage ∷ []))
        (step.name ∷ index) (fill_state step s)
  with_function stage step (some f) index s rest = record rest {
    result = with_head (set_default_values step f) rest.result;
  }

  -- The loop of init over the steps of a stage, from the index `i`. RetryPolicy is not nil after
  -- setDefaultValues, so its test never fails.
  unfoldable pub init_steps : Bytes → ℕ → List (Option (Step W)) → List Bytes → Live W → StepsDone W
  unfolding has init_state with_function
  init_steps stage i [] index s = record { result = accepted []; index = index; live = s }
  init_steps stage i (none ∷ steps) index s =
      refuse_step (text "step at index [%d] in stage [%s] is nil" (itoa (pos i) ∷ stage ∷ [])) index
        s
  init_steps stage i (some step ∷ steps) index s =
      let rest = init_steps stage (suc i) steps (step.name ∷ index) (init_state stage step s) in
      if has step.name index
      then refuse_step (text "step [%s] is not unique (in stage [%s])" (step.name ∷ stage ∷ []))
          index s
      else with_function stage step step.func index s rest

  abbrev pub refuse_stage : Err → List Bytes → List Bytes → Live W → StagesDone W
  refuse_stage e stages steps s = record {
    result = rejected e;
    stage_index = stages;
    step_index = steps;
    live = s;
  }

  abbrev pub ready_stage : Stage W → List (ReadyStep W) → ReadyStage W
  ready_stage stage rs = record {
    name = stage.name;
    steps = rs;
    before_fn = stage.before_fn;
    after_fn = stage.after_fn;
  }

  -- A stage whose steps came to a result; `rest` is what the stages after it come to.
  unfoldable pub with_steps :
      Stage W
      → Checked (List (ReadyStep W))
      → List Bytes
      → StepsDone W
      → StagesDone W
      → StagesDone W
  with_steps stage (rejected e) names d rest = refuse_stage e (stage.name ∷ names) d.index d.live
  with_steps stage (accepted rs) names d rest = record rest {
    result = with_head (ready_stage stage rs) rest.result;
  }

  -- The loop of init over the stages, from the index `i`.
  unfoldable pub init_stages :
      ℕ → List (Option (Stage W)) → List Bytes → List Bytes → Live W → StagesDone W
  unfolding init_steps with_steps
  init_stages i [] names index s = record {
    result = accepted [];
    stage_index = names;
    step_index = index;
    live = s;
  }
  init_stages i (none ∷ stages) names index s =
      refuse_stage (text "stage at index [%d] is nil" (itoa (pos i) ∷ [])) names index s
  init_stages i (some stage ∷ stages) names index s =
      let d = init_steps stage.name 0 stage.steps index s in
      let rest = init_stages (suc i) stages (stage.name ∷ names) d.index d.live in
      if has stage.name names
      then refuse_stage (text "stage [%s] is not unique" (stage.name ∷ [])) names index s
      else with_steps stage d.result names d rest

  -- The end of init: the references of the compensation.
  unfoldable pub check_compensation :
      Workflow W → Checked (List (ReadyStage W)) → StagesDone W → Checked (List (ReadyStage W))
  unfolding has
  check_compensation m (rejected e) d = rejected e
  check_compensation m (accepted rs) d =
      if missing m.compensation_stage d.stage_index
      then rejected (text "compensation stage [%s] not found" (name_of m.compensation_stage ∷ []))
      else if missing m.compensation_step d.step_index
      then rejected (text "compensation step [%s] not found" (name_of m.compensation_step ∷ []))
      else accepted rs

  -- init
  unfoldable pub init : Workflow W → Live W → Checked (List (ReadyStage W)) × Live W
  unfolding init_stages check_compensation
  init m s = let d = init_stages 0 m.stages [] [] s in (check_compensation m d.result d, d.live)
