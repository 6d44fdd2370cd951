-- ===== src/Pipeline/Validate/Sound.antt =====
-- What validate promises of a definition (pipeline/pipeline.go).
use xutils.Prelude.{
  ℕ, pos, List, [], ◌∷◌, Bool, true, false, not, Option, none, some, ◌≡◌, ◌≢◌, refl, arith, ltb_ℤ,
  if◌then◌else◌, ◌==◌, Bool-cases, inl, inr,
}
use xutils.Bytes.{Bytes, StepPath, same, same_iff}
use xutils.Pipeline.Errors.{Err, text, or_else}
use xutils.Pipeline.Compact.{is_empty}
use xutils.Pipeline.Definition.{
  Pipeline, Step, step, BranchField, no_branch, branch, RepeatField, no_repeat, repeat,
  RepeatHistory, full, compact, invalid, Steps, end, then_step, Paths, no_paths, path, ActionStep,
  PollStep,
}
use xutils.Pipeline.Validate.{
  find_compensator, compensator_in, compensator_in_branch, compensator_in_repeat,
  compensator_in_paths, has_compensator, contains_name, fail_if, check_action, check_poll,
  check_compact, validate_steps, validate_step, validate_branch, validate_paths, validate_repeat,
  validate, check_min_version, has_no_steps,
}
use xutils.Pipeline.Validate.Runnable.{
  NoCompensator, StepFree, BranchFree, RepeatFree, PathsFree, IsPresent, NotIn, CompactFree,
  Runnable, StepRunnable, BranchRunnable, PathsRunnable, RepeatRunnable,
}

pub or_else-none {ℓ} : {A : Type ℓ} (a b : Option A) → or_else a b ≡ none → (a ≡ none) × (b ≡ none)
or_else-none none b h = (refl, h)
or_else-none (some x) b h = cc

if-none {ℓ} :
    {A : Type ℓ} (b : Bool) (a : A) (o : Option A)
    → (if b then some a else o) ≡ none
    → (b ≡ false) × (o ≡ none)
if-none true a o h = cc
if-none false a o h = (refl, h)

pub fail_if-none : (b : Bool) (err : Err) → fail_if b err ≡ none → b ≡ false
fail_if-none true err h = cc
fail_if-none false err h = refl

present : (b : Bool) → not b ≡ false → b ≡ true
present true h = refl
present false h = cc

mutual
  unfolding find_compensator NoCompensator

  none-NoCompensator :
      {W V : Type 0} (steps : Steps W V) (at : StepPath)
      → find_compensator steps at ≡ none
      → NoCompensator steps
  none-NoCompensator end at h = tt
  none-NoCompensator (then_step s rest) at h =
      let both = or_else-none _ _ h in (none-StepFree s _ both.0, none-NoCompensator rest at both.1)

  none-StepFree :
      {W V : Type 0} (s : Step W V) (at : StepPath) → compensator_in s at ≡ none → StepFree s
  none-StepFree (step p b r) at h =
      let own = if-none (has_compensator p.action) _ _ h in
      let both = or_else-none _ _ own.1 in
      (own.0, none-BranchFree b at both.0, none-RepeatFree r at both.1)

  none-BranchFree :
      {W V : Type 0} (b : BranchField W V) (at : StepPath)
      → compensator_in_branch b at ≡ none
      → BranchFree b
  none-BranchFree no_branch at h = tt
  none-BranchFree (branch f paths) at h = none-PathsFree paths at h

  none-RepeatFree :
      {W V : Type 0} (r : RepeatField W V) (at : StepPath)
      → compensator_in_repeat r at ≡ none
      → RepeatFree r
  none-RepeatFree no_repeat at h = tt
  none-RepeatFree (repeat r steps) at h = none-NoCompensator steps _ h

  none-PathsFree :
      {W V : Type 0} (paths : Paths W V) (at : StepPath)
      → compensator_in_paths paths at ≡ none
      → PathsFree paths
  none-PathsFree no_paths at h = tt
  none-PathsFree (path k steps rest) at h =
      let both = or_else-none _ _ h in
      (none-NoCompensator steps _ both.0, none-PathsFree rest at both.1)

compact-CompactFree :
    {W V : Type 0} (n : Bytes) (at : StepPath) (history : RepeatHistory) (steps : Steps W V)
    (found : Option StepPath)
    → find_compensator steps [] ≡ found
    → check_compact n at history found ≡ none
    → CompactFree history steps
compact-CompactFree n at full steps found e h = tt
compact-CompactFree n at (invalid k) steps found e h = tt
compact-CompactFree n at compact steps none e h = none-NoCompensator steps [] e
compact-CompactFree n at compact steps (some p) e h = cc

named : (n : Bytes) → is_empty n ≡ false → n ≢ []
named [] h = cc
named (c ∷ n) h = λ e. cc

contains_name-NotIn :
    (names : List Bytes) (n : Bytes) → contains_name names n ≡ false → NotIn n names
contains_name-NotIn [] n h = tt
contains_name-NotIn (x ∷ xs) n h = elim (Bool-cases (same x n)) [
  | inl here ↦ ground (arith, h, here)
  | inr there ↦
      (λ e. cc (there, (same_iff x n).1 e), contains_name-NotIn xs n (ground (arith, h, there)))
]

action-IsPresent :
    {W V : Type 0} (n : Bytes) (a : Option (ActionStep W V))
    → check_action n a ≡ none
    → IsPresent a (λ x. x.action)
action-IsPresent n none h = tt
action-IsPresent n (some a) h = present _ (fail_if-none _ _ h)

poll-IsPresent :
    {W V : Type 0} (n : Bytes) (q : Option (PollStep W V))
    → check_poll n q ≡ none
    → IsPresent q (λ x. x.check)
poll-IsPresent n none h = tt
poll-IsPresent n (some q) h = present _ (fail_if-none _ _ (or_else-none _ _ h).0)

one_kind : (k : ℕ) → not (k == 1) ≡ false → k ≡ 1
one_kind k h = ground arith

some_path :
    {W V : Type 0} (k : Bytes) (steps : Steps W V) (rest : Paths W V) → path k steps rest ≢ no_paths
some_path k steps rest = λ e. cc

mutual
  unfolding validate_steps Runnable

  valid-Runnable :
      {W V : Type 0} (steps : Steps W V) (names : List Bytes) (i : ℕ) (at : StepPath)
      → validate_steps steps names i at ≡ none
      → Runnable steps names
  valid-Runnable end names i at h = tt
  valid-Runnable (then_step s rest) names i at h =
      let h1 = or_else-none _ _ h in
      let h2 = or_else-none _ _ h1.1 in
      let h3 = or_else-none _ _ h2.1 in
      (
        named _ (fail_if-none _ _ h1.0),
        contains_name-NotIn names _ (fail_if-none _ _ h2.0),
        valid-StepRunnable s at h3.0,
        valid-Runnable rest _ _ at h3.1,
      )

  valid-StepRunnable :
      {W V : Type 0} (s : Step W V) (at : StepPath) → validate_step s at ≡ none → StepRunnable s
  valid-StepRunnable (step p b r) at h =
      let h1 = or_else-none _ _ h in
      let h2 = or_else-none _ _ h1.1 in
      let h3 = or_else-none _ _ h2.1 in
      let h4 = or_else-none _ _ h3.1 in
      let h5 = or_else-none _ _ h4.1 in
      (
        one_kind _ (fail_if-none _ _ h1.0),
        action-IsPresent p.name p.action h2.0,
        poll-IsPresent p.name p.poll h3.0,
        valid-BranchRunnable b p.name _ h5.0,
        valid-RepeatRunnable r p.name _ h5.1,
      )

  valid-BranchRunnable :
      {W V : Type 0} (b : BranchField W V) (n : Bytes) (at : StepPath)
      → validate_branch b n at ≡ none
      → BranchRunnable b
  valid-BranchRunnable no_branch n at h = tt
  valid-BranchRunnable (branch none paths) n at h = cc
  valid-BranchRunnable (branch (some f) no_paths) n at h = cc
  valid-BranchRunnable (branch (some f) (path k steps rest)) n at h =
      let both = or_else-none _ _ h in
      (
        refl,
        some_path k steps rest,
        (valid-Runnable steps _ _ _ both.0, valid-PathsRunnable rest at both.1),
      )

  valid-PathsRunnable :
      {W V : Type 0} (paths : Paths W V) (at : StepPath)
      → validate_paths paths at ≡ none
      → PathsRunnable paths
  valid-PathsRunnable no_paths at h = tt
  valid-PathsRunnable (path k steps rest) at h =
      let both = or_else-none _ _ h in
      (valid-Runnable steps _ _ _ both.0, valid-PathsRunnable rest at both.1)

  valid-RepeatRunnable :
      {W V : Type 0} (r : RepeatField W V) (n : Bytes) (at : StepPath)
      → validate_repeat r n at ≡ none
      → RepeatRunnable r
  valid-RepeatRunnable no_repeat n at h = tt
  valid-RepeatRunnable (repeat r steps) n at h =
      let h1 = or_else-none _ _ h in
      let h2 = or_else-none _ _ h1.1 in
      (
        present _ (fail_if-none _ _ (or_else-none _ _ h1.0).0),
        compact-CompactFree n at r.history steps _ refl h2.0,
        valid-Runnable steps _ _ _ h2.1,
      )

-- A definition that validate accepts has steps, and at any depth every step has a name that no
-- earlier step of its scope has, is of exactly one kind, and has the functions of that kind;
-- a branch has a path, and below a repeat with compact history no step has a compensator.
pub validate-Runnable :
    {W V : Type 0} (p : Pipeline W V)
    → validate p ≡ none
    → (has_no_steps p.steps ≡ false) × Runnable p.steps []
unfolding validate
validate-Runnable p h =
    let h1 = or_else-none (fail_if (is_empty p.name) (text "pipeline: name is required" [])) _ h in
    let h2 =
      or_else-none
        (fail_if (ltb_ℤ p.version (pos 0)) (text "pipeline %q: version must be >= 0" (p.name ∷ [])))
        _ h1.1 in
    let h3 = or_else-none (check_min_version p) _ h2.1 in
    let h4 =
      or_else-none
        (fail_if (has_no_steps p.steps) (text "pipeline %q: no steps defined" (p.name ∷ []))) _
        h3.1 in
    (
      fail_if-none _ (text "pipeline %q: no steps defined" (p.name ∷ [])) h4.0,
      valid-Runnable p.steps [] 0 [] h4.1,
    )
