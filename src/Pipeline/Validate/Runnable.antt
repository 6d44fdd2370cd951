-- ===== src/Pipeline/Validate/Runnable.antt =====
-- Definitions whose steps can run (pipeline/pipeline.go).
use xutils.Prelude.{List, [], ◌∷◌, true, false, Option, none, some, ◌≡◌, ◌≢◌, is_some}
use xutils.Bytes.{Bytes}
use xutils.Pipeline.Definition.{
  Step, step, BranchField, no_branch, branch, RepeatField, no_repeat, repeat, RepeatHistory,
  compact, Steps, end, then_step, Paths, no_paths, path, parts,
}
use xutils.Pipeline.Validate.{has_compensator, kinds}

-- No step at any depth has a compensator.
unfoldable mutual
  pub NoCompensator : {W V : Type 0} → Steps W V → Type 0
  NoCompensator end = Unit {0}
  NoCompensator (then_step s rest) = StepFree s × NoCompensator rest

  pub StepFree : {W V : Type 0} → Step W V → Type 0
  StepFree (step p b r) = (has_compensator p.action ≡ false) × BranchFree b × RepeatFree r

  pub BranchFree : {W V : Type 0} → BranchField W V → Type 0
  BranchFree no_branch = Unit {0}
  BranchFree (branch f paths) = PathsFree paths

  pub RepeatFree : {W V : Type 0} → RepeatField W V → Type 0
  RepeatFree no_repeat = Unit {0}
  RepeatFree (repeat r steps) = NoCompensator steps

  pub PathsFree : {W V : Type 0} → Paths W V → Type 0
  PathsFree no_paths = Unit {0}
  PathsFree (path k steps rest) = NoCompensator steps × PathsFree rest

-- A function is present where there is a place for it.
abbrev pub IsPresent {ℓ} : {A B : Type ℓ} → Option A → (A → Option B) → Type 0
IsPresent none f = Unit {0}
IsPresent (some a) f = is_some (f a) ≡ true

abbrev pub NotIn : Bytes → List Bytes → Type 0
NotIn n [] = Unit {0}
NotIn n (x ∷ xs) = (x ≢ n) × NotIn n xs

abbrev pub CompactFree : {W V : Type 0} → RepeatHistory → Steps W V → Type 0
CompactFree compact steps = NoCompensator steps
CompactFree _ steps = Unit {0}

-- Every step at any depth has a name that no earlier step of its scope has, is of exactly one kind,
-- and has the functions of its kind.
unfoldable mutual
  pub Runnable : {W V : Type 0} → Steps W V → List Bytes → Type 0
  Runnable end earlier = Unit {0}
  Runnable (then_step s rest) earlier =
      ((parts s).name ≢ [])
      × NotIn (parts s).name earlier
      × StepRunnable s
      × Runnable rest ((parts s).name ∷ earlier)

  pub StepRunnable : {W V : Type 0} → Step W V → Type 0
  StepRunnable (step p b r) =
      (kinds (step p b r) ≡ 1)
      × IsPresent p.action (λ a. a.action)
      × IsPresent p.poll (λ q. q.check)
      × BranchRunnable b
      × RepeatRunnable r

  pub BranchRunnable : {W V : Type 0} → BranchField W V → Type 0
  BranchRunnable no_branch = Unit {0}
  BranchRunnable (branch f paths) = (is_some f ≡ true) × (paths ≢ no_paths) × PathsRunnable paths

  pub PathsRunnable : {W V : Type 0} → Paths W V → Type 0
  PathsRunnable no_paths = Unit {0}
  PathsRunnable (path k steps rest) = Runnable steps [] × PathsRunnable rest

  pub RepeatRunnable : {W V : Type 0} → RepeatField W V → Type 0
  RepeatRunnable no_repeat = Unit {0}
  RepeatRunnable (repeat r steps) =
      (is_some r.until ≡ true) × CompactFree r.history steps × Runnable steps []
