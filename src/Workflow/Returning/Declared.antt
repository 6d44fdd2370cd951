-- ===== src/Workflow/Returning/Declared.antt =====
-- Workflows as they are declared, without an endless retry (workflow/workflow.go: init, execute).
use xutils.Prelude.{
  ℕ, suc, ℤ, pos, List, [], ◌∷◌, Bool, true, false, Option, none, some, if◌then◌else◌, ◌≡◌, refl,
  arith, ◌≤ℤ◌, eq_ℤ,
}
use xutils.Bytes.{Bytes}
use xutils.Workflow.Errors.{Err}
use xutils.Workflow.Model.{
  Live, Action, Step, Stage, ReadyStep, ReadyStage, Workflow, set_default_values,
}
use xutils.Workflow.Init.{
  Checked, rejected, accepted, StepsDone, StagesDone, with_head, with_function, with_steps, has,
  init_steps, init_state, init_stages, check_compensation, missing,
}
use xutils.Workflow.Runs.{execute_checked, execute}
use xutils.Workflow.Returning.{finished, Returns}
use xutils.Workflow.Returning.Stages.{StepsBounded, StagesBounded, execute_ready-Returns}

-- The same of the steps as they are declared.
abbrev pub DeclaredSteps : {W : Type 0} → List (Option (Step W)) → Type 0
DeclaredSteps [] = Unit {0}
DeclaredSteps (none ∷ steps) = DeclaredSteps steps
DeclaredSteps (some s ∷ steps) = (pos 0 ≤ℤ s.max_retries) × DeclaredSteps steps

abbrev pub DeclaredBounded : {W : Type 0} → List (Option (Stage W)) → Type 0
DeclaredBounded [] = Unit {0}
DeclaredBounded (none ∷ stages) = DeclaredBounded stages
DeclaredBounded (some s ∷ stages) = DeclaredSteps s.steps × DeclaredBounded stages

default-bounded :
    {W : Type 0} (s : Step W) (f : Action W)
    → pos 0 ≤ℤ s.max_retries
    → pos 0 ≤ℤ (set_default_values s f).max_retries
unfolding set_default_values
default-bounded s f h = choice (eq_ℤ s.max_retries (pos 0)) s.max_retries h
  where
    choice : (b : Bool) (n : ℤ) → pos 0 ≤ℤ n → pos 0 ≤ℤ (if b then pos 1 else n)
    choice true n h = omega arith
    choice false n h = h

-- What the loops of init accept has bounded retries, where what is declared has.
abbrev StepsAllowed : {W : Type 0} → Checked (List (ReadyStep W)) → Type 0
StepsAllowed (rejected e) = Unit {0}
StepsAllowed (accepted rs) = StepsBounded rs

abbrev StagesAllowed : {W : Type 0} → Checked (List (ReadyStage W)) → Type 0
StagesAllowed (rejected e) = Unit {0}
StagesAllowed (accepted rs) = StagesBounded rs

record StepsFit {W : Type 0} (d : StepsDone W) : Type 0 where
  pub fits : StepsAllowed d.result

record StagesFit {W : Type 0} (d : StagesDone W) : Type 0 where
  pub fits : StagesAllowed d.result

with_head-StepsAllowed :
    {W : Type 0} (r : ReadyStep W) (c : Checked (List (ReadyStep W)))
    → pos 0 ≤ℤ r.max_retries
    → StepsAllowed c
    → StepsAllowed (with_head r c)
with_head-StepsAllowed r (rejected e) h g = tt
with_head-StepsAllowed r (accepted rs) h g = (h, g)

with_head-StagesAllowed :
    {W : Type 0} (r : ReadyStage W) (c : Checked (List (ReadyStage W)))
    → StepsBounded r.steps
    → StagesAllowed c
    → StagesAllowed (with_head r c)
with_head-StagesAllowed r (rejected e) h g = tt
with_head-StagesAllowed r (accepted rs) h g = (h, g)

with_function-StepsFit :
    {W : Type 0} (stage : Bytes) (step : Step W) (f : Option (Action W)) (index : List Bytes)
    (s : Live W) (rest : StepsDone W)
    → pos 0 ≤ℤ step.max_retries
    → StepsFit rest
    → StepsFit (with_function stage step f index s rest)
unfolding with_function
with_function-StepsFit stage step none index s rest h g = record { fits = tt }
with_function-StepsFit stage step (some f) index s rest h g = record {
  fits = with_head-StepsAllowed _ rest.result (default-bounded step f h) g.fits;
}

if-StepsFit :
    {W : Type 0} {x y : StepsDone W} (b : Bool)
    → StepsFit x
    → StepsFit y
    → StepsFit (if b then x else y)
if-StepsFit true hx hy = hx
if-StepsFit false hx hy = hy

if-StagesFit :
    {W : Type 0} {x y : StagesDone W} (b : Bool)
    → StagesFit x
    → StagesFit y
    → StagesFit (if b then x else y)
if-StagesFit true hx hy = hx
if-StagesFit false hx hy = hy

init_steps-StepsFit :
    {W : Type 0} (stage : Bytes) (i : ℕ) (steps : List (Option (Step W))) (index : List Bytes)
    (s : Live W)
    → DeclaredSteps steps
    → StepsFit (init_steps stage i steps index s)
unfolding init_steps
init_steps-StepsFit stage i [] index s h = record { fits = tt }
init_steps-StepsFit stage i (none ∷ steps) index s h = record { fits = tt }
init_steps-StepsFit stage i (some step ∷ steps) index s h =
    if-StepsFit (has step.name index) (record { fits = tt })
      (with_function-StepsFit stage step step.func index s _ h.0
        (init_steps-StepsFit stage (suc i) steps (step.name ∷ index) (init_state stage step s) h.1))

with_steps-StagesFit :
    {W : Type 0} (stage : Stage W) (c : Checked (List (ReadyStep W))) (names : List Bytes)
    (d : StepsDone W) (rest : StagesDone W)
    → StepsAllowed c
    → StagesFit rest
    → StagesFit (with_steps stage c names d rest)
unfolding with_steps
with_steps-StagesFit stage (rejected e) names d rest h g = record { fits = tt }
with_steps-StagesFit stage (accepted rs) names d rest h g = record {
  fits = with_head-StagesAllowed _ rest.result h g.fits;
}

init_stages-StagesFit :
    {W : Type 0} (i : ℕ) (stages : List (Option (Stage W))) (names index : List Bytes) (s : Live W)
    → DeclaredBounded stages
    → StagesFit (init_stages i stages names index s)
unfolding init_stages
init_stages-StagesFit i [] names index s h = record { fits = tt }
init_stages-StagesFit i (none ∷ stages) names index s h = record { fits = tt }
init_stages-StagesFit i (some stage ∷ stages) names index s h =
    let d = init_steps stage.name 0 stage.steps index s in
    if-StagesFit (has stage.name names) (record { fits = tt })
      (with_steps-StagesFit stage d.result names d _
        (init_steps-StepsFit stage.name 0 stage.steps index s h.0).fits
        (init_stages-StagesFit (suc i) stages (stage.name ∷ names) d.index d.live h.1))

check_compensation-fits :
    {W : Type 0} (m : Workflow W) (c : Checked (List (ReadyStage W))) (d : StagesDone W)
    → StagesAllowed c
    → StagesAllowed (check_compensation m c d)
unfolding check_compensation
check_compensation-fits m (rejected e) d h = tt
check_compensation-fits m (accepted rs) d h =
    choose _ _ (missing m.compensation_stage d.stage_index)
      (missing m.compensation_step d.step_index)
  where
    choose :
        (x y : Err) (a b : Bool)
        → StagesAllowed (if a then rejected x else if b then rejected y else accepted rs)
    choose x y true b = tt
    choose x y false true = tt
    choose x y false false = h

execute_checked-Returns :
    {W : Type 0} (m : Workflow W) (fuel : ℕ) (c : Checked (List (ReadyStage W))) (s : Live W)
    → StagesAllowed c
    → Returns (execute_checked m fuel c s)
unfolding execute_checked
execute_checked-Returns m fuel (rejected e) s h = record { returns = refl }
execute_checked-Returns m fuel (accepted stages) s h = execute_ready-Returns m _ fuel stages s h

-- Where no step is declared with a MaxRetries below 0, execute returns, on any fuel.
pub execute_returns :
    {W : Type 0} (m : Workflow W) (fuel : ℕ) (s : Live W)
    → DeclaredBounded m.stages
    → finished (execute m fuel s).0 ≡ true
unfolding execute
execute_returns m fuel s h =
    let t = record s { execution_started = false } in
    let d = init_stages 0 m.stages [] [] t in
    (execute_checked-Returns m fuel (check_compensation m d.result d) d.live (
      check_compensation-fits m d.result d
        (init_stages-StagesFit 0 m.stages [] [] t h).fits)).returns
