-- ===== src/Workflow/Init/Sound.antt =====
-- What init promises of the stages it accepts (workflow/workflow.go).
use xutils.Prelude.{
  pos, List, [], ◌∷◌, ◌++◌, true, false, ◌||◌, Option, some, ◌≡◌, ◌≢◌, refl, arith, subst,
}
use xutils.Bytes.{Bytes, same_iff}
use xutils.Pipeline.Validate.Runnable.{NotIn}
use xutils.Workflow.Model.{Step, Stage, ReadyStep, ReadyStage, Workflow}
use xutils.Workflow.Init.{Checked, rejected, accepted, StepsDone, StagesDone, has}
use xutils.Workflow.Preserving.{Each}

-- An index after the names have gone into it.
abbrev pub push : List Bytes → List Bytes → List Bytes
push [] index = index
push (n ∷ ns) index = push ns (n ∷ index)

-- No name is in the index, nor among the names before it.
abbrev pub Fresh : List Bytes → List Bytes → Type 0
Fresh index [] = Unit {0}
Fresh index (n ∷ ns) = (has n index ≡ false) × Fresh (n ∷ index) ns

abbrev pub Distinct : List Bytes → Type 0
Distinct [] = Unit {0}
Distinct (n ∷ ns) = NotIn n ns × Distinct ns

abbrev pub step_names : {W : Type 0} → List (ReadyStep W) → List Bytes
step_names [] = []
step_names (r ∷ rs) = r.name ∷ step_names rs

abbrev pub all_step_names : {W : Type 0} → List (ReadyStage W) → List Bytes
all_step_names [] = []
all_step_names (r ∷ rs) = step_names r.steps ++ all_step_names rs

abbrev pub stage_names : {W : Type 0} → List (ReadyStage W) → List Bytes
stage_names [] = []
stage_names (r ∷ rs) = r.name ∷ stage_names rs

-- The steps are the declared ones in order, none of them nil, with their functions and with a number
-- of attempts and a timeout other than zero.
abbrev pub SameSteps : {W : Type 0} → List (Option (Step W)) → List (ReadyStep W) → Type 0
SameSteps [] [] = Unit {0}
SameSteps (some s ∷ steps) (r ∷ rs) =
    (r.pointer ≡ s.pointer)
    × (r.name ≡ s.name)
    × (s.func ≡ some r.func)
    × (r.max_retries ≢ pos 0)
    × (r.timeout ≢ pos 0)
    × SameSteps steps rs
SameSteps _ _ = ⊥

abbrev pub SameStages : {W : Type 0} → List (Option (Stage W)) → List (ReadyStage W) → Type 0
SameStages [] [] = Unit {0}
SameStages (some s ∷ stages) (r ∷ rs) =
    (r.name ≡ s.name) × SameSteps s.steps r.steps × SameStages stages rs
SameStages _ _ = ⊥

abbrev pub HasName : Option Bytes → List Bytes → Type 0
HasName ref names = Each ref (λ n. has n names ≡ true)

pub record Sound {W : Type 0} (m : Workflow W) (rs : List (ReadyStage W)) : Type 0 where
  pub as_declared : SameStages m.stages rs
  pub stages_differ : Distinct (stage_names rs)
  pub steps_differ : Distinct (all_step_names rs)
  pub stage_found : HasName m.compensation_stage (stage_names rs)
  pub step_found : HasName m.compensation_step (all_step_names rs)

pub has-push :
    (n : Bytes) (ns index : List Bytes) → has n (push ns index) ≡ (has n ns || has n index)
unfolding has
has-push n [] index = refl
has-push n (k ∷ ns) index = ground (arith, has-push n ns (k ∷ index))

pub push-append : (a b index : List Bytes) → push (a ++ b) index ≡ push b (push a index)
push-append [] b index = refl
push-append (n ∷ a) b index = push-append a b (n ∷ index)

pub Fresh-append :
    (a b index : List Bytes) → Fresh index a → Fresh (push a index) b → Fresh index (a ++ b)
Fresh-append [] b index h g = g
Fresh-append (n ∷ a) b index h g = (h.0, Fresh-append a b (n ∷ index) h.1 g)

Fresh-NotIn : (k : Bytes) (ns index : List Bytes) → has k index ≡ true → Fresh index ns → NotIn k ns
unfolding has
Fresh-NotIn k [] index h g = tt
Fresh-NotIn k (n ∷ ns) index h g = (
  λ e. cc (subst (λ x. has x index ≡ false) e g.0, h),
  Fresh-NotIn k ns (n ∷ index) (ground (arith, h)) g.1,
)

Fresh-Distinct : (ns index : List Bytes) → Fresh index ns → Distinct ns
unfolding has
Fresh-Distinct [] index h = tt
Fresh-Distinct (n ∷ ns) index h = (
  Fresh-NotIn n ns (n ∷ index) (ground (arith, (same_iff n n).1 refl)) h.1,
  Fresh-Distinct ns (n ∷ index) h.1,
)

pub all_Fresh-Distinct : (ns : List Bytes) → Fresh [] ns → Distinct ns
all_Fresh-Distinct ns h = Fresh-Distinct ns [] h

-- What the loop over the steps says, where it accepts them.
abbrev pub StepsOk :
    {W : Type 0}
    → List Bytes
    → List (Option (Step W))
    → Checked (List (ReadyStep W))
    → List Bytes
    → Type 0
StepsOk index steps (rejected e) after = Unit {0}
StepsOk index steps (accepted rs) after =
    Fresh index (step_names rs) × SameSteps steps rs × (after ≡ push (step_names rs) index)

pub record StepsInit {W : Type 0} (index : List Bytes) (steps : List (Option (Step W)))
    (d : StepsDone W) : Type 0 where
  pub spec : StepsOk index steps d.result d.index

abbrev pub StagesOk :
    {W : Type 0}
    → List Bytes
    → List Bytes
    → List (Option (Stage W))
    → Checked (List (ReadyStage W))
    → List Bytes
    → List Bytes
    → Type 0
StagesOk names index stages (rejected e) names_after after = Unit {0}
StagesOk names index stages (accepted rs) names_after after =
    Fresh names (stage_names rs)
    × Fresh index (all_step_names rs)
    × SameStages stages rs
    × (names_after ≡ push (stage_names rs) names)
    × (after ≡ push (all_step_names rs) index)

pub record StagesInit {W : Type 0} (names index : List Bytes) (stages : List (Option (Stage W)))
    (d : StagesDone W) : Type 0 where
  pub spec : StagesOk names index stages d.result d.stage_index d.step_index
