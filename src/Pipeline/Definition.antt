-- ===== src/Pipeline/Definition.antt =====
-- pipeline/pipeline.go and pipeline/migration.go: the definition of a pipeline, its callbacks, the
-- data store that they share, and the executor's configuration. `W` is the state of the world that
-- callbacks read and change, `V` the Go values that the store can hold beside raw JSON.
use xutils.Prelude.{ℕ, ℤ, Bool, Option}
use xutils.Bytes.{Bytes}
use xutils.Bytes.Dict.{Dict}
use xutils.Pipeline.Errors.{Err}
use xutils.Pipeline.State.{RunState, Time}

pub data RepeatHistory : Type 0 where
  full compact : RepeatHistory
  -- any other uint8
  invalid : ℕ → RepeatHistory

-- What a DataAccessor holds under a key.
pub data Value (V : Type 0) : Type 0 where
  raw : Bytes → Value V
  native : V → Value V

module _ (W V : Type 0) where
  -- ActionFunc, PollFunc, BranchFunc and RepeatFunc; each may change the store and the world.
  abbrev pub ActionFunc : Type 0
  ActionFunc = Dict (Value V) → W → Option Err × Dict (Value V) × W

  abbrev pub PollFunc : Type 0
  PollFunc = Dict (Value V) → W → Bool × ℤ × Option Err × Dict (Value V) × W

  abbrev pub BranchFunc : Type 0
  BranchFunc = Dict (Value V) → W → Bytes × Option Err × Dict (Value V) × W

  abbrev pub RepeatFunc : Type 0
  RepeatFunc = ℤ → Dict (Value V) → W → Bool × ℤ × Option Err × Dict (Value V) × W

pub record RetryConfig : Type 0 where
  pub max_attempts : ℤ
  pub initial_delay : ℤ
  pub backoff : Bool

pub record ActionStep (W V : Type 0) : Type 0 where
  pub action : Option (ActionFunc W V)
  pub compensate : Option (ActionFunc W V)

pub record PollStep (W V : Type 0) : Type 0 where
  pub check : Option (PollFunc W V)
  pub max_duration : ℤ

-- What a Step has beside its name and its sub-pipelines; `none` is nil.
pub record StepParts (W V : Type 0) : Type 0 where
  pub name : Bytes
  pub action : Option (ActionStep W V)
  pub poll : Option (PollStep W V)
  pub on_enter : Option (ActionFunc W V)
  pub retry : Option RetryConfig

-- What a RepeatStep has beside its Steps.
pub record RepeatParts (W V : Type 0) : Type 0 where
  pub until : Option (RepeatFunc W V)
  pub max_iterations : ℤ
  pub max_duration : ℤ
  pub history : RepeatHistory

mutual
  pub data Step (W V : Type 0) : Type 0 where
    step : StepParts W V → BranchField W V → RepeatField W V → Step W V

  -- The field Branch of a Step, which may be nil.
  pub data BranchField (W V : Type 0) : Type 0 where
    no_branch : BranchField W V
    branch : Option (BranchFunc W V) → Paths W V → BranchField W V

  -- The field Repeat of a Step, which may be nil.
  pub data RepeatField (W V : Type 0) : Type 0 where
    no_repeat : RepeatField W V
    repeat : RepeatParts W V → Steps W V → RepeatField W V

  pub data Steps (W V : Type 0) : Type 0 where
    end : Steps W V
    then_step : Step W V → Steps W V → Steps W V

  -- `map[string][]Step`, in one order of iteration.
  pub data Paths (W V : Type 0) : Type 0 where
    no_paths : Paths W V
    path : Bytes → Steps W V → Paths W V → Paths W V

abbrev pub parts : {W V : Type 0} → Step W V → StepParts W V
parts (step p b r) = p

pub record Pipeline (W V : Type 0) : Type 0 where
  pub name : Bytes
  pub steps : Steps W V
  pub version : ℤ
  pub min_resume_version : Option ℤ

-- The Executor (with neither logger nor observer), its context and its clock. Each read of the
-- context or of the clock may find a changed world; the reads that only fill the event of a cancelled
-- context are left out. `marshal` is json.Marshal and `error_text` the
-- text that an error's Error method formats.
pub record Executor (W V : Type 0) : Type 0 where
  pub now : W → Time × W
  pub ctx_err : W → Option Err × W
  pub sleep : ℤ → W → Option Err × W
  pub snapshot_fn : Option (RunState → W → Option Err × W)
  pub cas_snapshot_fn : Option (ℕ → RunState → W → Option Err × W)
  pub state_migrator : Option (Bytes → ℤ → ℤ → RunState → W → RunState × Option Err × W)
  pub marshal : V → Option Bytes
  pub marshal_error : V → Err
  pub error_text : Err → Bytes
