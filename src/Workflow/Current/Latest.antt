-- ===== src/Workflow/Current/Latest.antt =====
-- The step that CurrentStep returns (workflow/workflow_methods.go).
use xutils.Prelude.{
  List, [], ◌∷◌, ◌++◌, Bool, true, false, Option, none, some, if◌then◌else◌, ◌≡◌, ◌≢◌, refl, ap,
  ◌∙◌, ◌⊎◌, inl, inr,
}
use xutils.Workflow.State.{StepState, valid}
use xutils.Workflow.Model.{Live, Step, Stage}
use xutils.Workflow.Current.{
  Search, panics, missing, found, or_search, first, by_step_state, check_step, last_valid, in_stage,
  check_stage, last_stage, current_stage, step_in, current_step,
}

first-ne-panics {ℓ} : {A : Type ℓ} (xs : List (Option A)) → first xs ≢ panics
first-ne-panics [] = λ e. cc
first-ne-panics (none ∷ xs) = λ e. cc
first-ne-panics (some x ∷ xs) = λ e. cc

module _ {W : Type 0} (s : Live W) where
  -- A step with a state whose status is not valid.
  pub record Idle (step : Step W) : Type 0 where
    pub state : StepState
    pub has_state : s.cells step.pointer ≡ some state
    pub no_status : valid state.status ≡ false

  unfoldable pub AllIdle : List (Option (Step W)) → Type 0
  AllIdle [] = Unit {0}
  AllIdle (none ∷ xs) = ⊥
  AllIdle (some step ∷ xs) = Idle step × AllIdle xs

  unfoldable pub StagesIdle : List (Option (Stage W)) → Type 0
  StagesIdle [] = Unit {0}
  StagesIdle (none ∷ xs) = ⊥
  StagesIdle (some stage ∷ xs) = AllIdle stage.steps × StagesIdle xs

  -- A nil pointer among the steps, or a step without a state.
  pub data StepsBroken : List (Option (Step W)) → Type 0 where
    nil_step : {xs : List (Option (Step W))} → StepsBroken (none ∷ xs)
    nil_state :
        {step : Step W} {xs : List (Option (Step W))}
        → s.cells step.pointer ≡ none
        → StepsBroken (some step ∷ xs)
    further :
        {x : Option (Step W)} {xs : List (Option (Step W))} → StepsBroken xs → StepsBroken (x ∷ xs)

  pub data Broken : List (Option (Stage W)) → Type 0 where
    nil_stage : {xs : List (Option (Stage W))} → Broken (none ∷ xs)
    inside :
        {stage : Stage W} {xs : List (Option (Stage W))}
        → StepsBroken stage.steps
        → Broken (some stage ∷ xs)
    beyond : {x : Option (Stage W)} {xs : List (Option (Stage W))} → Broken xs → Broken (x ∷ xs)

  -- The last step with a valid status.
  pub record LastIn (steps : List (Option (Step W))) (step : Step W) : Type 0 where
    pub before : List (Option (Step W))
    pub behind : List (Option (Step W))
    pub state : StepState
    pub split : steps ≡ before ++ some step ∷ behind
    pub has_state : s.cells step.pointer ≡ some state
    pub has_status : valid state.status ≡ true
    pub idle_behind : AllIdle behind

  -- What the loop over the steps finds.
  StepsAnswer : List (Option (Step W)) → Search (Step W) → Type 0
  StepsAnswer steps panics = StepsBroken steps
  StepsAnswer steps missing = AllIdle steps
  StepsAnswer steps (found step) = LastIn steps step

  check-StepsAnswer :
      (x : Option (Step W)) (xs : List (Option (Step W)))
      → AllIdle xs
      → StepsAnswer (x ∷ xs) (check_step s x)
  unfolding StepsAnswer AllIdle
  check-StepsAnswer none xs idle = nil_step
  check-StepsAnswer (some step) xs idle = by_cell (s.cells step.pointer) refl
    where
      by_status :
          (c : StepState) (b : Bool)
          → s.cells step.pointer ≡ some c
          → valid c.status ≡ b
          → StepsAnswer (some step ∷ xs) (if b then found step else missing)
      by_status c true e v = record {
        before = [];
        behind = xs;
        state = c;
        split = refl;
        has_state = e;
        has_status = v;
        idle_behind = idle;
      }
      by_status c false e v = (record { state = c; has_state = e; no_status = v }, idle)

      by_cell :
          (o : Option StepState)
          → s.cells step.pointer ≡ o
          → StepsAnswer (some step ∷ xs) (by_step_state s step o)
      by_cell none e = nil_state e
      by_cell (some c) e = by_status c (valid c.status) e refl

  later-StepsAnswer :
      (x : Option (Step W)) (xs : List (Option (Step W))) (r : Search (Step W))
      → StepsAnswer xs r
      → StepsAnswer (x ∷ xs) (or_search r (check_step s x))
  unfolding StepsAnswer or_search
  later-StepsAnswer x xs panics h = further h
  later-StepsAnswer x xs missing h = check-StepsAnswer x xs h
  later-StepsAnswer x xs (found step) h = record {
    before = x ∷ h.before;
    behind = h.behind;
    state = h.state;
    split = ap (λ ys. x ∷ ys) h.split;
    has_state = h.has_state;
    has_status = h.has_status;
    idle_behind = h.idle_behind;
  }

  last_valid-StepsAnswer : (steps : List (Option (Step W))) → StepsAnswer steps (last_valid s steps)
  unfolding StepsAnswer AllIdle last_valid
  last_valid-StepsAnswer [] = tt
  last_valid-StepsAnswer (x ∷ xs) =
      later-StepsAnswer x xs (last_valid s xs) (last_valid-StepsAnswer xs)

  -- The last stage that has a step with a valid status.
  pub record LastStageIn (stages : List (Option (Stage W))) (stage : Stage W) (step : Step W)
      : Type 0 where
    pub before : List (Option (Stage W))
    pub behind : List (Option (Stage W))
    pub split : stages ≡ before ++ some stage ∷ behind
    pub last_step : LastIn stage.steps step
    pub idle_behind : StagesIdle behind

  -- What the loop over the stages finds.
  StagesAnswer : List (Option (Stage W)) → Search (Stage W) → Type 0
  StagesAnswer stages panics = Broken stages
  StagesAnswer stages missing = StagesIdle stages
  StagesAnswer stages (found stage) =
      (step : Step W) × (last_valid s stage.steps ≡ found step) × LastStageIn stages stage step

  check-StagesAnswer :
      (x : Option (Stage W)) (xs : List (Option (Stage W)))
      → StagesIdle xs
      → StagesAnswer (x ∷ xs) (check_stage s x)
  unfolding StagesAnswer StagesIdle StepsAnswer
  check-StagesAnswer none xs idle = nil_stage
  check-StagesAnswer (some stage) xs idle =
      by_steps (last_valid s stage.steps) refl (last_valid-StepsAnswer stage.steps)
    where
      by_steps :
          (r : Search (Step W))
          → last_valid s stage.steps ≡ r
          → StepsAnswer stage.steps r
          → StagesAnswer (some stage ∷ xs) (in_stage s stage r)
      by_steps panics e h = inside h
      by_steps missing e h = (h, idle)
      by_steps (found step) e h = (
        step,
        e,
        record { before = []; behind = xs; split = refl; last_step = h; idle_behind = idle },
      )

  later-StagesAnswer :
      (x : Option (Stage W)) (xs : List (Option (Stage W))) (r : Search (Stage W))
      → StagesAnswer xs r
      → StagesAnswer (x ∷ xs) (or_search r (check_stage s x))
  unfolding StagesAnswer or_search
  later-StagesAnswer x xs panics h = beyond h
  later-StagesAnswer x xs missing h = check-StagesAnswer x xs h
  later-StagesAnswer x xs (found stage) h = (
    h.0,
    h.1,
    record {
      before = x ∷ h.2.before;
      behind = h.2.behind;
      split = ap (λ ys. x ∷ ys) h.2.split;
      last_step = h.2.last_step;
      idle_behind = h.2.idle_behind;
    },
  )

  last_stage-StagesAnswer :
      (stages : List (Option (Stage W))) → StagesAnswer stages (last_stage s stages)
  unfolding StagesAnswer StagesIdle last_stage
  last_stage-StagesAnswer [] = tt
  last_stage-StagesAnswer (x ∷ xs) =
      later-StagesAnswer x xs (last_stage s xs) (last_stage-StagesAnswer xs)

  -- The first step of the first stage; nil where there is none.
  abbrev pub first_step : List (Option (Stage W)) → Search (Step W)
  first_step [] = missing
  first_step (none ∷ xs) = missing
  first_step (some stage ∷ xs) = first stage.steps

  -- What CurrentStep returns.
  unfoldable pub Answer : List (Option (Stage W)) → Search (Step W) → Type 0
  Answer stages panics = Broken stages
  Answer stages missing = StagesIdle stages × (first_step stages ≡ missing)
  Answer stages (found step) =
      ((stage : Stage W) × LastStageIn stages stage step)
      ⊎ (StagesIdle stages × (first_step stages ≡ found step))

  fresh-Answer :
      (stages : List (Option (Stage W))) (r : Search (Step W))
      → StagesIdle stages
      → first_step stages ≡ r
      → r ≢ panics
      → Answer stages r
  unfolding Answer
  fresh-Answer stages panics idle e sane = elim (sane refl) [ ]
  fresh-Answer stages missing idle e sane = (idle, e)
  fresh-Answer stages (found step) idle e sane = inr (idle, e)

  idle-missing : (steps : List (Option (Step W))) → AllIdle steps → last_valid s steps ≡ missing
  unfolding AllIdle last_valid or_search
  idle-missing [] h = refl
  idle-missing (none ∷ xs) h = elim h [ ]
  idle-missing (some step ∷ xs) h =
      ap (λ r. or_search r (by_step_state s step (s.cells step.pointer))) (idle-missing xs h.1)
      ∙ ap (by_step_state s step) h.0.has_state
      ∙ ap (λ b. if b then found step else missing) h.0.no_status

  idle-Answer :
      (stages : List (Option (Stage W)))
      → StagesIdle stages
      → Answer stages (step_in s (first stages))
  unfolding Answer StagesIdle step_in or_search
  idle-Answer [] h = (h, refl)
  idle-Answer (none ∷ xs) h = elim h [ ]
  idle-Answer (some stage ∷ xs) h =
      rw (idle-missing stage.steps h.0)
        (fresh-Answer (some stage ∷ xs) (first stage.steps) h refl (first-ne-panics stage.steps))

  -- CurrentStep panics only where a stage or a step is nil or a step has no state. Otherwise it returns
  -- the last step with a valid status of the last stage that has one, so that no step behind it, in its
  -- stage or in a later one, has a valid status; where no step has one, it is the first step of the first
  -- stage, and nil where there is no such step.
  pub current_step-Answer :
      (stages : List (Option (Stage W))) → Answer stages (current_step s stages)
  unfolding Answer StagesAnswer current_step current_stage step_in or_search
  current_step-Answer stages = by_stage (last_stage s stages) (last_stage-StagesAnswer stages)
    where
      by_stage :
          (r : Search (Stage W))
          → StagesAnswer stages r
          → Answer stages (step_in s (or_search r (first stages)))
      by_stage panics h = h
      by_stage missing h = idle-Answer stages h
      by_stage (found stage) h = rw h.1 (inl (stage, h.2))
