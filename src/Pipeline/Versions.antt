-- ===== src/Pipeline/Versions.antt =====
-- A state of a version that the definition does not accept (Run and checkVersion in pipeline/executor.go).
use xutils.Prelude.{
  ℤ, [], true, false, ◌||◌, Option, none, some, ◌≡◌, arith, ltb_ℤ, ◌<ℤ◌, ◌⊎◌, inl, inr, is_some,
  Bool-cases,
}
use xutils.Bytes.{Bytes}
use xutils.Pipeline.Errors.{Err}
use xutils.Pipeline.State.{RunState, is_terminal, status_is_new}
use xutils.Pipeline.Definition.{Executor, Pipeline}
use xutils.Pipeline.Machine.{Machine, or_return, when◌then◌else◌, unless_cancelled, ctx_err}
use xutils.Pipeline.Validate.{validate, min_resume_version_of}
use xutils.Pipeline.Engine.Start.{
  run_state, run, resume, resume_old, resume_checked, check_version, mismatch,
}

module _ {W V : Type 0} (e : Executor W V) (p : Pipeline W V) where
  abbrev Unaccepted : ℤ → Type 0
  Unaccepted v = (v <ℤ min_resume_version_of p) ⊎ (p.version <ℤ v)

  refused : (v : ℤ) → Unaccepted v → (ltb_ℤ v (min_resume_version_of p) || ltb_ℤ p.version v) ≡ true
  refused v (inl h) = ground (arith, h)
  refused v (inr h) = ground (arith, h)

  resume_checked-refused :
      (m : Machine W V)
      → Unaccepted m.run.version
      → resume_checked e p m ≡ (some (mismatch e p m.run), m)
  unfolding resume_checked check_version or_return
  resume_checked-refused m h = rw (refused m.run.version h)

  resume_old-refused :
      (f : Option (Bytes → ℤ → ℤ → RunState → W → RunState × Option Err × W)) (m : Machine W V)
      → f ≡ none
      → Unaccepted m.run.version
      → resume_old e p f m ≡ (some (mismatch e p m.run), m)
  unfolding resume_old
  resume_old-refused none m hm h = resume_checked-refused m h
  resume_old-refused (some f) m hm h = cc

  resume-refused :
      (m : Machine W V)
      → e.state_migrator ≡ none
      → Unaccepted m.run.version
      → resume e p m ≡ (some (mismatch e p m.run), m)
  unfolding resume when◌then◌else◌
  resume-refused m hm h = elim (Bool-cases (ltb_ℤ p.version m.run.version)) [
    | inl above ↦ rw above
    | inr below ↦ rw below (resume_old-refused e.state_migrator m hm h)
  ]

-- A state that is neither new nor terminal, of a version below the oldest that the definition resumes or
-- above the definition's own, is refused when there is no migrator and the context is live: Run
-- returns the mismatch, calls nothing, takes no snapshot and leaves the state as it is.
run_state-refused :
    {W V : Type 0} (e : Executor W V) (p : Pipeline W V) (r : RunState) (w : W)
    → validate p ≡ none
    → is_terminal r ≡ false
    → status_is_new r.status ≡ false
    → is_some (e.ctx_err w).0 ≡ false
    → e.state_migrator ≡ none
    → (r.version <ℤ min_resume_version_of p) ⊎ (p.version <ℤ r.version)
    → run_state e p r w
      ≡ (some (mismatch e p r), record { run = r; store = []; world = (e.ctx_err w).1; calls = [] })
unfolding run_state run or_return when◌then◌else◌ unless_cancelled ctx_err
run_state-refused e p r w valid live old go hm h =
    rw (valid, live, go, old) (resume-refused e p _ hm h)
