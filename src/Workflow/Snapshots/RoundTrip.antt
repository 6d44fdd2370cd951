-- ===== src/Workflow/Snapshots/RoundTrip.antt =====
-- A snapshot and its restoration (workflow/workflow_methods.go: GetSnapshot, SetSnapshot).
use xutils.Prelude.{
  ℕ, List, [], ◌∷◌, ◌++◌, Bool, true, false, ◌&&◌, ◌||◌, Option, none, some, if◌then◌else◌, ◌==◌,
  ==_iff, ◌≡◌, refl, arith, ap, sym, ◌∙◌, subst, bool_ext, both, and_intro,
}
use xutils.Bytes.{Bytes, same, same_iff}
use xutils.Workflow.State.{StepState, valid}
use xutils.Workflow.Model.{Live, Step, Stage}
use xutils.Workflow.Snapshots.{
  step_pointers, pointers, step_states, get_snapshot, restore_state, restore_all, set_snapshot,
}
use xutils.Workflow.Snapshots.Places.{
  saved, skipped, put_back, Place, stage_places, places, is_place, names, Labels,
  restore_state-cells, is_place-append,
}

abbrev pub among : ℕ → List ℕ → Bool
among p [] = false
among p (q ∷ qs) = q == p || among p qs

-- Every state of `s` names the stage and the step of its pointer, and no other pointer with a state
-- has those of a place.
pub record Labelled {W : Type 0} (label : ℕ → Bytes × Bytes) (qs : List Place) (s : Live W)
    : Type 0 where
  pub named :
      (p : ℕ) (c : StepState)
      → s.cells p ≡ some c
      → (c.current_stage ≡ (label p).0) × (c.current_step ≡ (label p).1)
  pub apart :
      (q p : ℕ) (c : StepState)
      → is_place p qs ≡ true
      → s.cells q ≡ some c
      → (label q).0 ≡ (label p).0
      → (label q).1 ≡ (label p).1
      → q ≡ p

module _ {W : Type 0} (label : ℕ → Bytes × Bytes) (s : Live W) (stages : List (Option (Stage W)))
    (labelled : Labelled label (places stages) s) where
  -- A state of the saved run names the labels of its own pointer only.
  names-own :
      (q p : ℕ) (c : StepState)
      → is_place p (places stages) ≡ true
      → s.cells q ≡ some c
      → names c (label p).0 (label p).1 ≡ (q == p)
  names-own q p c here_p e =
      let n = labelled.named q c e in
      bool_ext (names c (label p).0 (label p).1) (q == p)
        (λ h.
          let b = both (same (label p).0 c.current_stage) (same (label p).1 c.current_step) h in
          (==_iff q p).1 (
            labelled.apart q p c here_p e
              (sym n.0 ∙ sym ((same_iff (label p).0 c.current_stage).0 b.0))
              (sym n.1 ∙ sym ((same_iff (label p).1 c.current_step).0 b.1))))
        (λ h.
          let here = (==_iff q p).0 h in
          and_intro (same (label p).0 c.current_stage) (same (label p).1 c.current_step)
            ((same_iff (label p).0 c.current_stage).1 (ap (λ x. (label x).0) (sym here) ∙ sym n.0))
            ((same_iff (label p).1 c.current_step).1 (ap (λ x. (label x).1) (sym here) ∙ sym n.1)))

  -- SetSnapshot at a pointer: the loop over the saved states of the steps `ps`.
  restored-cells :
      (p : ℕ) (ps : List ℕ) (t : Live W)
      → Labels label (places stages)
      → is_place p (places stages) ≡ true
      → (restore_all stages (step_states ps s) t).cells p
        ≡ (if among p ps then saved (s.cells p) (t.cells p) else t.cells p)
  unfolding restore_all step_states
  restored-cells p [] t l h = refl
  restored-cells p (q ∷ ps) t l h = at_cell (s.cells q) refl (λ u. restored-cells p ps u l h)
    where
      -- The cell of `p` after the state `c` of `q` has been put back.
      after_one :
          (c : StepState)
          → s.cells q ≡ some c
          → (restore_state stages c t).cells p ≡ (if q == p then some c else t.cells p)
      after_one c e =
          restore_state-cells label c p stages t l
          ∙ ap (λ b. if b && names c (label p).0 (label p).1 then some c else t.cells p) h
          ∙ ap (λ b. if b then some c else t.cells p) (names-own q p c h e)

      skip_one :
          (x : Option StepState)
          → s.cells q ≡ x
          → ((o : Option StepState) → saved x o ≡ o)
          → (if among p ps then saved (s.cells p) (t.cells p) else t.cells p)
            ≡ (if (q == p) || among p ps then saved (s.cells p) (t.cells p) else t.cells p)
      skip_one x e f =
          skipped (q == p) (among p ps) (saved (s.cells p) (t.cells p)) (t.cells p) (λ here.
            ap (λ r. saved (s.cells r) (t.cells p)) (sym ((==_iff q p).0 here))
            ∙ ap (λ y. saved y (t.cells p)) e
            ∙ f (t.cells p))

      at_valid :
          (c : StepState) (b : Bool)
          → s.cells q ≡ some c
          → valid c.status ≡ b
          → ((u : Live W)
              → (restore_all stages (step_states ps s) u).cells p
                ≡ (if among p ps then saved (s.cells p) (u.cells p) else u.cells p))
          → (restore_all stages (if b then c ∷ step_states ps s else step_states ps s) t).cells p
            ≡ (if (q == p) || among p ps then saved (s.cells p) (t.cells p) else t.cells p)
      at_valid c true e v again =
          again (restore_state stages c t)
          ∙ ap (λ x. if among p ps then saved (s.cells p) x else x) (after_one c e)
          ∙ put_back (q == p) (among p ps) (s.cells p) c (t.cells p)
              (λ here. ap (λ r. s.cells r) (sym ((==_iff q p).0 here)) ∙ e) v
      at_valid c false e v again =
          again t ∙ skip_one (some c) e (λ o. ap (λ b. if b then some c else o) v)

      at_cell :
          (x : Option StepState)
          → s.cells q ≡ x
          → ((u : Live W)
              → (restore_all stages (step_states ps s) u).cells p
                ≡ (if among p ps then saved (s.cells p) (u.cells p) else u.cells p))
          → (restore_all stages
                (elim x [
                  | none ↦ step_states ps s
                  | some c ↦ if valid c.status then c ∷ step_states ps s else step_states ps s
                ])
                t).cells
              p
            ≡ (if (q == p) || among p ps then saved (s.cells p) (t.cells p) else t.cells p)
      at_cell none e again = again t ∙ skip_one none e (λ o. refl)
      at_cell (some c) e again = at_valid c (valid c.status) e refl again

among-append : (p : ℕ) (ps qs : List ℕ) → among p (ps ++ qs) ≡ (among p ps || among p qs)
among-append p [] qs = refl
among-append p (x ∷ ps) qs = ground (arith, among-append p ps qs)

-- A list of pointers, where there is one, has the pointers that the test accepts.
abbrev Lists : (ℕ → Bool) → Option (List ℕ) → Type 0
Lists test none = Unit {0}
Lists test (some ps) = (p : ℕ) → among p ps ≡ test p

Lists-cons :
    (x : ℕ) (test : ℕ → Bool) (o : Option (List ℕ))
    → Lists test o
    → Lists (λ p. x == p || test p) (elim o [ none ↦ none | some ps ↦ some (x ∷ ps) ])
Lists-cons x test none h = tt
Lists-cons x test (some ps) h = λ p. ap (λ b. x == p || b) (h p)

Lists-append :
    (f g : ℕ → Bool) (o r : Option (List ℕ)) (test : ℕ → Bool)
    → Lists f o
    → Lists g r
    → ((p : ℕ) → test p ≡ (f p || g p))
    → Lists test
        (elim o [ none ↦ none | some ps ↦ elim r [ none ↦ none | some qs ↦ some (ps ++ qs) ] ])
Lists-append f g none r test h k e = tt
Lists-append f g (some ps) none test h k e = tt
Lists-append f g (some ps) (some qs) test h k e = λ p.
    among-append p ps qs ∙ ap (λ b. b || among p qs) (h p) ∙ ap (λ b. f p || b) (k p) ∙ sym (e p)

steps-Lists :
    {W : Type 0} (stage : Bytes) (steps : List (Option (Step W)))
    → Lists (λ p. is_place p (stage_places stage steps)) (step_pointers (λ s. s.pointer) steps)
unfolding step_pointers
steps-Lists stage [] = λ p. refl
steps-Lists stage (none ∷ steps) = tt
steps-Lists stage (some s ∷ steps) =
    Lists-cons s.pointer (λ p. is_place p (stage_places stage steps))
      (step_pointers (λ s. s.pointer) steps) (steps-Lists stage steps)

stages-Lists :
    {W : Type 0} (stages : List (Option (Stage W)))
    → Lists (λ p. is_place p (places stages)) (pointers stages)
unfolding pointers
stages-Lists [] = λ p. refl
stages-Lists (none ∷ stages) = tt
stages-Lists (some s ∷ stages) =
    Lists-append (λ p. is_place p (stage_places s.name s.steps)) (λ p. is_place p (places stages))
      (step_pointers (λ s. s.pointer) s.steps) (pointers stages) _ (steps-Lists s.name s.steps)
      (stages-Lists stages) (λ p. is_place-append p (stage_places s.name s.steps) (places stages))

-- A snapshot of one run restored into another: the workflow's state and the variables are those of
-- the first run, and so is the state of every step that had a state with a valid status there; any
-- other step keeps the state of the second run. The steps have one label each, a stage and a name,
-- which their states carry, and no two steps have the same.
pub set_snapshot-get_snapshot :
    {W : Type 0} (label : ℕ → Bytes × Bytes) (stages : List (Option (Stage W))) (ps : List ℕ)
    (s t : Live W)
    → pointers stages ≡ some ps
    → Labels label (places stages)
    → Labelled label (places stages) s
    → ((set_snapshot stages (get_snapshot ps s) t).state ≡ s.state)
      × ((set_snapshot stages (get_snapshot ps s) t).vars ≡ s.vars)
      × ((p : ℕ)
          → among p ps ≡ true
          → (set_snapshot stages (get_snapshot ps s) t).cells p ≡ saved (s.cells p) (t.cells p))
unfolding set_snapshot get_snapshot
set_snapshot-get_snapshot label stages ps s t e l labelled = (
  refl,
  refl,
  λ p here.
      restored-cells label s stages labelled p ps t l (sym (listed p) ∙ here)
      ∙ ap (λ b. if b then saved (s.cells p) (t.cells p) else t.cells p) here,
)
  where
    listed : (p : ℕ) → among p ps ≡ is_place p (places stages)
    listed = subst (Lists (λ p. is_place p (places stages))) e (stages-Lists stages)
