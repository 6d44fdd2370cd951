-- ===== src/Workflow/Init/Accepting.antt =====
-- The loops of init over the steps and the stages (workflow/workflow.go).
use xutils.Prelude.{
  ℕ, suc, ℤ, pos, List, [], ◌∷◌, ◌++◌, Bool, true, false, ◌||◌, Option, none, some, if◌then◌else◌,
  ◌≡◌, ◌≢◌, refl, arith, ap, sym, ◌∙◌, subst, eq_ℤ, Bool-cases, inl, inr,
}
use xutils.Bytes.{Bytes}
use xutils.Workflow.Errors.{Err}
use xutils.Workflow.Model.{
  Live, Action, Step, Stage, ReadyStep, ReadyStage, Workflow, set_default_values,
}
use xutils.Workflow.Init.{
  Checked, rejected, accepted, StepsDone, StagesDone, has, missing, with_head, init_state,
  with_function, init_steps, ready_stage, with_steps, init_stages, check_compensation, init,
}
use xutils.Workflow.Init.Sound.{
  push, Fresh, step_names, all_step_names, HasName, Sound, has-push, push-append, Fresh-append,
  all_Fresh-Distinct, StepsOk, StepsInit, StagesOk, StagesInit,
}

default_nonzero :
    (b : Bool) (n d : ℤ) → eq_ℤ n (pos 0) ≡ b → d ≢ pos 0 → (if b then d else n) ≢ pos 0
default_nonzero true n d h g = g
default_nonzero false n d h g = λ e. ground (arith, subst (λ k. eq_ℤ k (pos 0) ≡ false) e h)

if-StepsInit :
    {W : Type 0} (index : List Bytes) (steps : List (Option (Step W))) (b : Bool)
    (x y : StepsDone W)
    → StepsInit index steps x
    → (b ≡ false → StepsInit index steps y)
    → StepsInit index steps (if b then x else y)
if-StepsInit index steps true x y h g = h
if-StepsInit index steps false x y h g = g refl

with_head-StepsOk :
    {W : Type 0} (index : List Bytes) (step : Step W) (steps : List (Option (Step W)))
    (f : Action W) (c : Checked (List (ReadyStep W))) (after : List Bytes)
    → step.func ≡ some f
    → has step.name index ≡ false
    → StepsOk (step.name ∷ index) steps c after
    → StepsOk index (some step ∷ steps) (with_head (set_default_values step f) c) after
unfolding set_default_values
with_head-StepsOk index step steps f (rejected e) after q n h = tt
with_head-StepsOk index step steps f (accepted rs) after q n h = (
  (n, h.0),
  (
    refl,
    refl,
    q,
    default_nonzero (eq_ℤ step.max_retries (pos 0)) _ (pos 1) refl
        (λ e. omega (arith, positive 0 e)),
    default_nonzero (eq_ℤ step.timeout (pos 0)) _ (pos 1000000000) refl
        (λ e. omega (arith, positive 999999999 e)),
    h.1,
  ),
  h.2,
)
  where
    positive : (n : ℕ) → pos (suc n) ≡ pos 0 → suc n ≡ 0
    positive n e = ap xutils.Prelude.pos_part e

with_function-StepsInit :
    {W : Type 0} (stage : Bytes) (step : Step W) (f : Option (Action W)) (index : List Bytes)
    (s : Live W) (rest : StepsDone W) (steps : List (Option (Step W)))
    → step.func ≡ f
    → has step.name index ≡ false
    → StepsInit (step.name ∷ index) steps rest
    → StepsInit index (some step ∷ steps) (with_function stage step f index s rest)
unfolding with_function
with_function-StepsInit stage step none index s rest steps q n h = record { spec = tt }
with_function-StepsInit stage step (some f) index s rest steps q n h = record {
  spec = with_head-StepsOk index step steps f rest.result rest.index q n h.spec;
}

pub init_steps-StepsInit :
    {W : Type 0} (stage : Bytes) (i : ℕ) (steps : List (Option (Step W))) (index : List Bytes)
    (s : Live W)
    → StepsInit index steps (init_steps stage i steps index s)
unfolding init_steps
init_steps-StepsInit stage i [] index s = record { spec = (tt, tt, refl) }
init_steps-StepsInit stage i (none ∷ steps) index s = record { spec = tt }
init_steps-StepsInit stage i (some step ∷ steps) index s =
    let rest = init_steps stage (suc i) steps (step.name ∷ index) (init_state stage step s) in
    if-StepsInit index (some step ∷ steps) (has step.name index) _
      (with_function stage step step.func index s rest) (record { spec = tt })
      (λ n.
        with_function-StepsInit stage step step.func index s rest steps refl n
          (init_steps-StepsInit stage (suc i) steps (step.name ∷ index) (init_state stage step s)))

if-StagesInit :
    {W : Type 0} (names index : List Bytes) (stages : List (Option (Stage W))) (b : Bool)
    (x y : StagesDone W)
    → StagesInit names index stages x
    → (b ≡ false → StagesInit names index stages y)
    → StagesInit names index stages (if b then x else y)
if-StagesInit names index stages true x y h g = h
if-StagesInit names index stages false x y h g = g refl

with_head-StagesOk :
    {W : Type 0} (names index : List Bytes) (stage : Stage W) (stages : List (Option (Stage W)))
    (rs : List (ReadyStep W)) (between : List Bytes) (c : Checked (List (ReadyStage W)))
    (names_after after : List Bytes)
    → has stage.name names ≡ false
    → StepsOk index stage.steps (accepted rs) between
    → StagesOk (stage.name ∷ names) between stages c names_after after
    → StagesOk names index
        (some stage ∷ stages)
        (with_head (ready_stage stage rs) c)
        names_after
        after
with_head-StagesOk names index stage stages rs between (rejected e) names_after after n g h = tt
with_head-StagesOk names index stage stages rs between (accepted qs) names_after after n g h = (
  (n, h.0),
  Fresh-append (step_names rs) (all_step_names qs) index g.0
      (subst (λ i. Fresh i (all_step_names qs)) g.2 h.1),
  (refl, g.1, h.2),
  h.3,
  h.4
      ∙ ap (push (all_step_names qs)) g.2
      ∙ sym (push-append (step_names rs) (all_step_names qs) index),
)

with_steps-StagesInit :
    {W : Type 0} (names index : List Bytes) (stage : Stage W) (stages : List (Option (Stage W)))
    (c : Checked (List (ReadyStep W))) (d : StepsDone W) (rest : StagesDone W)
    → has stage.name names ≡ false
    → StepsOk index stage.steps c d.index
    → StagesInit (stage.name ∷ names) d.index stages rest
    → StagesInit names index (some stage ∷ stages) (with_steps stage c names d rest)
unfolding with_steps
with_steps-StagesInit names index stage stages (rejected e) d rest n g h = record { spec = tt }
with_steps-StagesInit names index stage stages (accepted rs) d rest n g h = record {
  spec =
      with_head-StagesOk names index stage stages rs d.index rest.result rest.stage_index
        rest.step_index n g h.spec;
}

init_stages-StagesInit :
    {W : Type 0} (i : ℕ) (stages : List (Option (Stage W))) (names index : List Bytes) (s : Live W)
    → StagesInit names index stages (init_stages i stages names index s)
unfolding init_stages
init_stages-StagesInit i [] names index s = record { spec = (tt, tt, tt, refl, refl) }
init_stages-StagesInit i (none ∷ stages) names index s = record { spec = tt }
init_stages-StagesInit i (some stage ∷ stages) names index s =
    let d = init_steps stage.name 0 stage.steps index s in
    let rest = init_stages (suc i) stages (stage.name ∷ names) d.index d.live in
    if-StagesInit names index (some stage ∷ stages) (has stage.name names) _
      (with_steps stage d.result names d rest) (record { spec = tt })
      (λ n.
        with_steps-StagesInit names index stage stages d.result d rest n
          (init_steps-StepsInit stage.name 0 stage.steps index s).spec
          (init_stages-StagesInit (suc i) stages (stage.name ∷ names) d.index d.live))

found-HasName :
    (ref : Option Bytes) (ns index : List Bytes)
    → missing ref index ≡ false
    → index ≡ push ns []
    → HasName ref ns
unfolding has
found-HasName none ns index h e = tt
found-HasName (some n) ns index h e = choose (has n index) refl h
  where
    choose : (b : Bool) → has n index ≡ b → (if b then false else true) ≡ false → has n ns ≡ true
    choose true q h = ground (arith, q, ap (has n) e, has-push n ns [])
    choose false q h = cc

abbrev contents : {A : Type 0} → List A → Checked (List A) → List A
contents d (rejected e) = d
contents d (accepted xs) = xs

accepted_inj : {A : Type 0} (xs ys : List A) → accepted xs ≡ accepted ys → xs ≡ ys
accepted_inj xs ys q = ap (contents xs) q

check-Sound :
    {W : Type 0} (m : Workflow W) (c : Checked (List (ReadyStage W))) (d : StagesDone W)
    (rs : List (ReadyStage W))
    → StagesOk [] [] m.stages c d.stage_index d.step_index
    → check_compensation m c d ≡ accepted rs
    → Sound m rs
unfolding check_compensation
check-Sound m (rejected e) d rs h q = cc
check-Sound m (accepted qs) d rs h q =
    choose (missing m.compensation_stage d.stage_index) (missing m.compensation_step d.step_index)
      refl refl _ _ q
  where
    choose :
        (a b : Bool)
        → missing m.compensation_stage d.stage_index ≡ a
        → missing m.compensation_step d.step_index ≡ b
        → (x y : Err)
        → (if a then rejected x else if b then rejected y else accepted qs) ≡ accepted rs
        → Sound m rs
    choose true b f g x y q = cc
    choose false true f g x y q = cc
    choose false false f g x y q = subst (Sound m) (accepted_inj qs rs q) (record {
      as_declared = h.2;
      stages_differ = all_Fresh-Distinct _ h.0;
      steps_differ = all_Fresh-Distinct _ h.1;
      stage_found = found-HasName m.compensation_stage _ d.stage_index f h.3;
      step_found = found-HasName m.compensation_step _ d.step_index g h.4;
    })

-- If init accepts the stages, they are the declared ones in order, none of them nil and with no nil
-- step; every step has its function, and a number of attempts and a timeout other than zero; the names
-- of the stages differ from each other, and so do those of all the steps of the workflow; and the
-- stage and the step of the compensation are among them, where there is one.
pub init-Sound :
    {W : Type 0} (m : Workflow W) (s : Live W) (rs : List (ReadyStage W))
    → (init m s).0 ≡ accepted rs
    → Sound m rs
unfolding init
init-Sound m s rs q =
    let d = init_stages 0 m.stages [] [] s in
    check-Sound m d.result d rs (init_stages-StagesInit 0 m.stages [] [] s).spec q
