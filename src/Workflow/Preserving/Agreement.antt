-- ===== src/Workflow/Preserving/Agreement.antt =====
-- Runs that go on alike (workflow/workflow.go).
use xutils.Prelude.{ℕ, List, Bool, Option, none, some, if◌then◌else◌, ◌≡◌, refl, ap}
use xutils.Workflow.Errors.{Err, is, skip_step, skip_stage, break_stages}
use xutils.Workflow.Model.{Live, Workflow}
use xutils.Workflow.Policies.{Outcome, ok, err, unfinished}
use xutils.Workflow.Steps.{Run, then_run, look, unless_stopped, after_step}
use xutils.Workflow.Runs.{after_stage}
use xutils.Workflow.Preserving.{WorkflowSafe, Kept}

module _ {W : Type 0} (P : Live W → Type 0) (m : Workflow W) (all : List ℕ) (fuel : ℕ)
    (safe : WorkflowSafe P m) where
  -- Two runs that agree where the predicate holds.
  abbrev pub Agree : Run m all fuel → Run m all fuel → Type 0
  Agree f g = (t : Live W) → P t → f t ≡ g t

  pub then_run-Agree :
      (r : Option Err × Live W) (f g : Run m all fuel)
      → Kept P r
      → Agree f g
      → then_run m all fuel r f ≡ then_run m all fuel r g
  unfolding then_run
  then_run-Agree (none, s) f g k h = h s k.kept
  then_run-Agree (some e, s) f g k h = refl

  if-Agree :
      {X : Type 0} (b : Bool) (x y z : X) → y ≡ z → (if b then x else y) ≡ (if b then x else z)
  if-Agree b x y z h = ap (λ a. if b then x else a) h

  if-then-Agree :
      {X : Type 0} (b : Bool) (x y z : X) → x ≡ y → (if b then x else z) ≡ (if b then y else z)
  if-then-Agree b x y z h = ap (λ a. if b then a else z) h

  pub unless_stopped-Agree :
      (f g : Run m all fuel) (s : Live W)
      → P s
      → Agree f g
      → unless_stopped m all fuel f s ≡ unless_stopped m all fuel g s
  unfolding unless_stopped
  unless_stopped-Agree f g s k h =
      if-Agree (look m all fuel s).0 _ _ _
        (h (look m all fuel s).1 (safe.by_stop _ _ (safe.by_world _ s k)))

  pub after_step-Agree :
      (r : Outcome × Live W) (f g : Run m all fuel)
      → Kept P r
      → Agree f g
      → after_step m all fuel r f ≡ after_step m all fuel r g
  unfolding after_step
  after_step-Agree (ok, s) f g k h = h s k.kept
  after_step-Agree (unfinished, s) f g k h = refl
  after_step-Agree (err e, s) f g k h =
      if-Agree (is break_stages e) _ _ _ (if-then-Agree (is skip_step e) _ _ _ (h s k.kept))

  pub after_stage-Agree :
      (r : Outcome × Live W) (f g : Run m all fuel)
      → Kept P r
      → Agree f g
      → after_stage m all fuel r f ≡ after_stage m all fuel r g
  unfolding after_stage
  after_stage-Agree (ok, s) f g k h = h s k.kept
  after_stage-Agree (unfinished, s) f g k h = refl
  after_stage-Agree (err e, s) f g k h = if-then-Agree (is skip_stage e) _ _ _ (h s k.kept)
