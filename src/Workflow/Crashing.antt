-- ===== src/Workflow/Crashing.antt =====
-- Nil stages and nil steps in a run (workflow/workflow.go: init, finish, Run).
use xutils.Prelude.{
  ℕ, List, [], ◌∷◌, ◌++◌, Bool, true, false, Option, none, some, is_some, if◌then◌else◌, ◌≡◌, refl,
  ap, ◌∙◌,
}
use xutils.Workflow.Errors.{Err, wrapped, text}
use xutils.Workflow.Model.{Live, Action, Step, Stage, ReadyStep, ReadyStage, Snapshot, Workflow}
use xutils.Workflow.Policies.{err}
use xutils.Workflow.Snapshots.{step_pointers, pointers, get_snapshot}
use xutils.Workflow.Init.{Checked, rejected, accepted, init}
use xutils.Workflow.Init.Sound.{SameSteps, SameStages}
use xutils.Workflow.Init.Accepting.{init-Sound}
use xutils.Workflow.Runs.{
  Verdict, crashed, abandoned, execute_checked, execute, snapshot_then, report_failure, compensate,
  finish, run,
}

after_some :
    {A B : Type 0} (f : A → Option B) (o : Option A)
    → is_some o ≡ true
    → ((a : A) → is_some (f a) ≡ true)
    → is_some (elim o [ none ↦ none | some a ↦ f a ]) ≡ true
after_some f none h g = cc
after_some f (some a) h g = g a

steps-present :
    {W : Type 0} (steps : List (Option (Step W))) (rs : List (ReadyStep W))
    → SameSteps steps rs
    → is_some (step_pointers (λ s. s.pointer) steps) ≡ true
unfolding step_pointers
steps-present [] rs h = refl
steps-present (none ∷ steps) rs h = elim h [ ]
steps-present (some s ∷ steps) [] h = elim h [ ]
steps-present (some s ∷ steps) (r ∷ rs) h =
    after_some (λ ps. some (s.pointer ∷ ps)) (step_pointers (λ s. s.pointer) steps)
      (steps-present steps rs h.5) (λ ps. refl)

stages-present :
    {W : Type 0} (stages : List (Option (Stage W))) (rs : List (ReadyStage W))
    → SameStages stages rs
    → is_some (pointers stages) ≡ true
unfolding pointers
stages-present [] rs h = refl
stages-present (none ∷ stages) rs h = elim h [ ]
stages-present (some s ∷ stages) [] h = elim h [ ]
stages-present (some s ∷ stages) (r ∷ rs) h =
    after_some (λ ps. elim (pointers stages) [ none ↦ none | some qs ↦ some (ps ++ qs) ])
      (step_pointers (λ s. s.pointer) s.steps) (steps-present s.steps r.steps h.1)
      (λ ps.
        after_some (λ qs. some (ps ++ qs)) (pointers stages) (stages-present stages rs h.2)
          (λ qs. refl))

nil-crashes :
    {W : Type 0} (m : Workflow W) (f : Snapshot → Action W) (s : Live W) (next : Live W → Verdict W)
    → m.snapshot_fn ≡ some f
    → pointers m.stages ≡ none
    → snapshot_then m s next ≡ crashed
unfolding snapshot_then
nil-crashes {W = W} m f s next q p =
    ap {B = Verdict W}
      (λ o. elim o [
        | none ↦ next s
        | some g ↦ elim (pointers m.stages) [
          | none ↦ crashed
          | some all ↦ next (g (get_snapshot all s) s).1
        ]
      ])
      q
    ∙ ap {B = Verdict W}
        (λ ps. elim ps [ none ↦ crashed | some all ↦ next (f (get_snapshot all s) s).1 ]) p

nil-rejected :
    {W : Type 0} (m : Workflow W) (s : Live W) (c : Checked (List (ReadyStage W)))
    → (init m s).0 ≡ c
    → pointers m.stages ≡ none
    → (e : Err) × (c ≡ rejected e)
nil-rejected m s (rejected e) q p = (e, refl)
nil-rejected m s (accepted rs) q p =
    elim (absurd_of (ap is_some p)
      (stages-present m.stages rs (init-Sound m s rs q).as_declared)) [ ]
  where
    absurd_of : {b : Bool} → b ≡ false → b ≡ true → ⊥
    absurd_of h g = cc

execute-rejected :
    {W : Type 0} (m : Workflow W) (fuel : ℕ) (s : Live W)
    → pointers m.stages ≡ none
    → (e : Err) × ((execute m fuel s).0 ≡ err e)
unfolding execute execute_checked
execute-rejected m fuel s p =
    let t = record s { execution_started = false } in
    let c = init m t in
    let bad = nil-rejected m t c.0 refl p in
    (wrapped "workflow init: %w" [] bad.0, ap (λ x. (execute_checked m fuel x c.1).0) bad.1)

finish-crashes :
    {W : Type 0} (m : Workflow W) (f : Snapshot → Action W) (e : Err) (s : Live W)
    → m.snapshot_fn ≡ some f
    → pointers m.stages ≡ none
    → finish m (err e) s ≡ crashed
unfolding finish
finish-crashes m f e s q p = nil-crashes m f s (λ t. compensate m e (report_failure m e t)) q p

-- A workflow with a nil stage or a nil step and with a snapshot function: init rejects it, and Run
-- panics instead of returning the error, unless the shutdown timeout comes first.
pub run-crashes :
    {W : Type 0} (m : Workflow W) (in_time : Live W → Bool) (fuel : ℕ) (s : Live W)
    (f : Snapshot → Action W)
    → pointers m.stages ≡ none
    → m.snapshot_fn ≡ some f
    → in_time (execute m fuel s).1 ≡ true
    → run m in_time fuel s ≡ crashed
unfolding run
run-crashes {W = W} m in_time fuel s f p q t =
    let r = execute m fuel s in
    let bad = execute-rejected m fuel s p in
    ap
      (λ b.
        if b then finish m r.0 r.1 else abandoned (text "workflow shutdown execution timeout" []))
      t
    ∙ ap (λ o. finish m o r.1) bad.1
    ∙ finish-crashes m f bad.0 r.1 q p
