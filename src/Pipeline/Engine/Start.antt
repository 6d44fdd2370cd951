-- ===== src/Pipeline/Engine/Start.antt =====
-- pipeline/executor.go: Run, with the migration of an old state and checkVersion.
use xutils.Prelude.{ℕ, ℤ, List, [], ◌∷◌, ◌||◌, Option, none, some, if◌then◌else◌, ltb_ℤ, eq_ℤ}
use xutils.Bytes.{Bytes, StepPath}
use xutils.Bytes.Dict.{Dict}
use xutils.Pipeline.Errors.{Err, version_mismatch, migration_failed, repeat_timeout}
use xutils.Pipeline.State.{
  RunState, RepeatTimeoutState, running, completed, is_terminal, status_is_new, status_is_running,
  status_is_compensating,
}
use xutils.Pipeline.Definition.{Executor, Pipeline, Value, raw}
use xutils.Pipeline.Machine.{
  Machine, M, when◌then◌else◌, ◌>>=◌, ◌>>◌, return, get_run, modify, or_return, set_status, now,
  ctx_err, unless_cancelled, marshal_data_unchecked, snapshot, migrated,
}
use xutils.Pipeline.Validate.{validate, min_resume_version_of}
use xutils.Pipeline.Engine.Compensate.{run_compensation}
use xutils.Pipeline.Engine.Sequence.{StepExec, execute_steps}
use xutils.Pipeline.Engine.Branching.{index_from}
use xutils.Pipeline.Engine.Execute.{scope_of}

-- restoreData
unfoldable pub restore : {V : Type 0} → Dict Bytes → Dict (Value V)
restore [] = []
restore ((k, b) ∷ m) = (k, raw b) ∷ restore m

-- findTopLevelIndex
unfoldable pub top_level_index : {W V : Type 0} → List (StepExec W V) → StepPath → ℕ
unfolding index_from
top_level_index scope [] = 0
top_level_index scope (name ∷ _) = index_from 0 scope name

-- the error of a compensation that a Repeat's timeout began
abbrev pub timeout_error : Option RepeatTimeoutState → Option Err
timeout_error none = none
timeout_error (some t) = some (repeat_timeout t.step_name t.max_duration)

module _ {W V : Type 0} (e : Executor W V) (p : Pipeline W V) where
  -- versionMismatchError
  unfoldable pub mismatch : RunState → Err
  mismatch r = version_mismatch p.name r.version p.version (min_resume_version_of p)

  -- checkVersion
  unfoldable pub check_version : RunState → Option Err
  unfolding mismatch
  check_version r =
      if ltb_ℤ r.version (min_resume_version_of p) || ltb_ℤ p.version r.version
      then some (mismatch r)
      else none

  unfoldable pub restore_store : M W V (Unit {0})
  unfolding restore
  restore_store s = (tt, record s { store = restore s.run.data_json })

  unfoldable pub resume_compensation : M W V (Option Err)
  resume_compensation = do
    marshal_data_unchecked e
    unsaved ← snapshot e "resume compensation"
    or_return unsaved (do
      failure ← run_compensation e p.steps
      or_return failure (do r ← get_run; return (timeout_error r.repeat_timeout)))

  unfoldable pub complete : M W V (Option Err)
  complete = do
    r ← get_run
    when status_is_running r.status
        then (do
          modify (set_status completed)
          marshal_data_unchecked e
          snapshot e "pipeline completion")
        else return none

  unfoldable pub run_steps : M W V (Option Err)
  unfolding top_level_index complete
  run_steps = do
    r ← get_run
    modify (set_status running)
    marshal_data_unchecked e
    unsaved ←
        snapshot e
          (if status_is_running r.status then "resume execution" else "transition to running")
    or_return unsaved (do
      now_at ← get_run
      let scope = scope_of e p.steps p.steps
      failure ← execute_steps e p.steps scope (top_level_index scope now_at.current_path) []
      or_return failure complete)

  -- Run from `ds := newDataStore()` on.
  unfoldable pub run_from_store : M W V (Option Err)
  unfolding restore_store resume_compensation run_steps
  run_from_store = do
    restore_store
    unless_cancelled e (ctx_err e) (do
      r ← get_run
      when status_is_compensating r.status then resume_compensation else run_steps)

  -- checkVersion after the migration, and the return where the state is terminal by then
  unfoldable pub resume_checked : M W V (Option Err)
  unfolding check_version run_from_store
  resume_checked = do
    r ← get_run
    or_return (check_version r) (when is_terminal r then return none else run_from_store)

  -- After the migrator returned: its error, or its state, which is saved and checked.
  unfoldable pub after_migration : RunState → Option Err → W → M W V (Option Err)
  unfolding resume_checked
  after_migration r (some err) w s = (
    some (migration_failed p.name s.run.version p.version err),
    record s { world = (e.now w).1; calls = migrated s.run.version r (some err) ∷ s.calls },
  )
  after_migration r none w s =
      let continue : M W V (Option Err) = (do
        unsaved ← snapshot e "state migration"
        or_return unsaved (do _ ← now e; resume_checked)) in
      continue (record s {
        run = record r { version = p.version };
        world = w;
        calls = migrated s.run.version r none ∷ s.calls;
      })

  -- An old version is migrated where there is a migrator.
  unfoldable pub resume_old :
      Option (Bytes → ℤ → ℤ → RunState → W → RunState × Option Err × W) → M W V (Option Err)
  unfolding after_migration resume_checked
  resume_old none s = resume_checked s
  resume_old (some f) s =
      let r = f p.name s.run.version p.version s.run (e.now s.world).1 in
      (when eq_ℤ s.run.version p.version then resume_checked else after_migration r.0 r.1 r.2) s

  unfoldable pub resume : M W V (Option Err)
  unfolding mismatch resume_old
  resume = do
    r ← get_run
    when ltb_ℤ p.version r.version then return (some (mismatch r)) else resume_old e.state_migrator

  -- Run
  unfoldable pub run : M W V (Option Err)
  unfolding run_from_store resume
  run = or_return (validate p) (do
    r ← get_run
    when is_terminal r
        then return none
        else unless_cancelled e (ctx_err e) (
            when status_is_new r.status
            then (do modify (λ s. record s { version = p.version }); run_from_store)
            else resume))

  -- Run of a RunState in a world, before any callback.
  unfoldable pub run_state : RunState → W → Option Err × Machine W V
  unfolding run
  run_state r w = run (record { run = r; store = []; world = w; calls = [] })
