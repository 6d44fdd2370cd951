-- ===== src/Workflow/Snapshots/Places.antt =====
-- The steps of a workflow with their stages and their pointers, and where SetSnapshot puts a state
-- (workflow/workflow_methods.go).
use xutils.Prelude.{
  ℕ, List, [], ◌∷◌, ◌++◌, Bool, true, false, ◌&&◌, ◌||◌, Option, none, some, if◌then◌else◌, ◌==◌,
  ==_iff, ◌≡◌, refl, arith, ap, sym, ◌∙◌,
}
use xutils.Bytes.{Bytes, same}
use xutils.Workflow.State.{StepState, valid}
use xutils.Workflow.Model.{Live, Step, Stage, put_cell}
use xutils.Workflow.Snapshots.{restore_steps, restore_state}

-- A step in its stage.
pub record Place : Type 0 where
  pub stage : Bytes
  pub step : Bytes
  pub pointer : ℕ

abbrev pub stage_places : {W : Type 0} → Bytes → List (Option (Step W)) → List Place
stage_places stage [] = []
stage_places stage (none ∷ steps) = stage_places stage steps
stage_places stage (some s ∷ steps) =
    record { stage = stage; step = s.name; pointer = s.pointer } ∷ stage_places stage steps

abbrev pub places : {W : Type 0} → List (Option (Stage W)) → List Place
places [] = []
places (none ∷ stages) = places stages
places (some s ∷ stages) = stage_places s.name s.steps ++ places stages

abbrev pub is_place : ℕ → List Place → Bool
is_place p [] = false
is_place p (q ∷ qs) = q.pointer == p || is_place p qs

-- The state names this stage and this step.
abbrev pub names : StepState → Bytes → Bytes → Bool
names c stage step = same stage c.current_stage && same step c.current_step

-- A pointer has one stage and one name.
abbrev pub Labels : (ℕ → Bytes × Bytes) → List Place → Type 0
Labels label [] = Unit {0}
Labels label (q ∷ qs) =
    (q.stage ≡ (label q.pointer).0) × (q.step ≡ (label q.pointer).1) × Labels label qs

Labels-append :
    (label : ℕ → Bytes × Bytes) (xs ys : List Place)
    → Labels label (xs ++ ys)
    → Labels label xs × Labels label ys
Labels-append label [] ys h = (tt, h)
Labels-append label (x ∷ xs) ys h = let r = Labels-append label xs ys h.2 in ((h.0, h.1, r.0), r.1)

pub is_place-append :
    (p : ℕ) (xs ys : List Place) → is_place p (xs ++ ys) ≡ (is_place p xs || is_place p ys)
is_place-append p [] ys = refl
is_place-append p (x ∷ xs) ys = ground (arith, is_place-append p xs ys)

-- The state that SetSnapshot leaves at `p`, for one saved state.
abbrev pub placed : Bool → StepState → Bytes × Bytes → Option StepState → Option StepState
placed here c label old = if here && names c label.0 label.1 then some c else old

merge :
    (here rest b n : Bool) (c : StepState) (old : Option StepState)
    → (here ≡ true → b ≡ n)
    → (if rest && n then some c else if here && b then some c else old)
      ≡ (if (here || rest) && n then some c else old)
merge false rest b n c old h = refl
merge true false b n c old h = ap (λ x. if x then some c else old) (h refl)
merge true true b true c old h = refl
merge true true b false c old h = ap (λ x. if x then some c else old) (h refl)

twice :
    (a b n : Bool) (c : StepState) (old : Option StepState)
    → (if b && n then some c else if a && n then some c else old)
      ≡ (if (a || b) && n then some c else old)
twice a b n c old = merge a b n n c old (λ e. refl)

names_here :
    (label : ℕ → Bytes × Bytes) (c : StepState) (p : ℕ) (stage step : Bytes) (q : ℕ)
    → stage ≡ (label q).0
    → step ≡ (label q).1
    → (q == p) ≡ true
    → names c stage step ≡ names c (label p).0 (label p).1
names_here label c p stage step q f g e =
    ap (λ x. names c x step) f
    ∙ ap (names c (label q).0) g
    ∙ ap (λ x. names c (label x).0 (label x).1) ((==_iff q p).0 e)

module _ {W : Type 0} (label : ℕ → Bytes × Bytes) (c : StepState) (p : ℕ) where
  put-cells :
      (q : ℕ) (b : Bool) (s : Live W)
      → (if b then put_cell q c s else s).cells p ≡ (if (q == p) && b then some c else s.cells p)
  put-cells q true s = ground arith
  put-cells q false s = ground arith

  restore_steps-cells :
      (stage : Bytes) (steps : List (Option (Step W))) (s : Live W)
      → Labels label (stage_places stage steps)
      → (restore_steps stage steps c s).cells p
        ≡ placed (is_place p (stage_places stage steps)) c (label p) (s.cells p)
  unfolding restore_steps
  restore_steps-cells stage [] s h = refl
  restore_steps-cells stage (none ∷ steps) s h = restore_steps-cells stage steps s h
  restore_steps-cells stage (some step ∷ steps) s h =
      let b = names c stage step.name in
      restore_steps-cells stage steps (if b then put_cell step.pointer c s else s) h.2
      ∙ ap (placed (is_place p (stage_places stage steps)) c (label p)) (put-cells step.pointer b s)
      ∙ merge (step.pointer == p) (is_place p (stage_places stage steps)) b
          (names c (label p).0 (label p).1) c (s.cells p)
          (names_here label c p stage step.name step.pointer h.0 h.1)

  pub restore_state-cells :
      (stages : List (Option (Stage W))) (s : Live W)
      → Labels label (places stages)
      → (restore_state stages c s).cells p
        ≡ placed (is_place p (places stages)) c (label p) (s.cells p)
  unfolding restore_state
  restore_state-cells [] s h = refl
  restore_state-cells (none ∷ stages) s h = restore_state-cells stages s h
  restore_state-cells (some stage ∷ stages) s h =
      let l = Labels-append label (stage_places stage.name stage.steps) (places stages) h in
      restore_state-cells stages (restore_steps stage.name stage.steps c s) l.1
      ∙ ap (placed (is_place p (places stages)) c (label p))
          (restore_steps-cells stage.name stage.steps s l.0)
      ∙ twice (is_place p (stage_places stage.name stage.steps)) (is_place p (places stages))
          (names c (label p).0 (label p).1) c (s.cells p)
      ∙ ap (λ b. placed b c (label p) (s.cells p))
          (sym (is_place-append p (stage_places stage.name stage.steps) (places stages)))

-- The state that the saved run had at a step, where it was valid, and else the state it has now.
abbrev pub saved : Option StepState → Option StepState → Option StepState
saved none old = old
saved (some c) old = if valid c.status then some c else old

-- A step whose state is not put back, and the steps after it.
pub skipped :
    (here rest : Bool) (x old : Option StepState)
    → (here ≡ true → x ≡ old)
    → (if rest then x else old) ≡ (if here || rest then x else old)
skipped false rest x old h = refl
skipped true true x old h = refl
skipped true false x old h = sym (h refl)

-- A step whose state is put back, and the steps after it.
pub put_back :
    (here rest : Bool) (x : Option StepState) (c : StepState) (old : Option StepState)
    → (here ≡ true → x ≡ some c)
    → valid c.status ≡ true
    → (if rest then saved x (if here then some c else old) else (if here then some c else old))
      ≡ (if here || rest then saved x old else old)
put_back false rest x c old h v = refl
put_back true rest x c old h v =
    ap (λ y. if rest then y else some c) (valid_saved (some c))
    ∙ same_choice rest
    ∙ sym (valid_saved old)
  where
    valid_saved : (o : Option StepState) → saved x o ≡ some c
    valid_saved o = ap (λ y. saved y o) (h refl) ∙ ap (λ b. if b then some c else o) v

    same_choice : (b : Bool) → (if b then some c else some c) ≡ some c
    same_choice true = refl
    same_choice false = refl
