-- ===== src/Workflow/Model.antt =====
-- workflow/workflow.go, stage.go and step.go: the structs of a workflow. What a run changes is apart,
-- in `Live`: the workflow's state, the step states by the pointer of their step, and the flags.
-- Callbacks are functions of it, and of the world they act on.
use xutils.Prelude.{ℕ, ℤ, pos, List, Bool, ◌||◌, Option, none, some, if◌then◌else◌, ◌==◌, eq_ℤ}
use xutils.Bytes.{Bytes}
use xutils.Bytes.Dict.{Dict}
use xutils.Workflow.Errors.{Err}
use xutils.Workflow.State.{Any, StepState, WorkflowState, new_step_state}

pub record Live (W : Type 0) : Type 0 where
  pub world : W
  pub state : WorkflowState
  -- step.State, by the pointer of the step; `none` is nil.
  pub cells : ℕ → Option StepState
  pub vars : Option (Dict Any)
  pub is_stopped : Bool
  pub execution_started : Bool
  -- The pointer of the step that ran last.
  pub prev_step : Option ℕ
  pub is_skip_error : Bool

-- A callback: its error, and what it leaves.
abbrev pub Action : Type 0 → Type 0
Action W = Live W → Option Err × Live W

-- The policies of the package, and one of the caller's own.
pub data RetryPolicy (W : Type 0) : Type 0 where
  run_with_linear : RetryPolicy W
  run_with_backoff : RetryPolicy W
  custom : Action W → RetryPolicy W

-- Step; `pointer` is its address.
pub record Step (W : Type 0) : Type 0 where
  pub pointer : ℕ
  pub name : Bytes
  pub func : Option (Action W)
  pub timeout : ℤ
  pub max_retries : ℤ
  pub retry_policy : Option (RetryPolicy W)
  pub before_fn : Option (Action W)
  pub after_fn : Option (Action W)
  pub finish_workflow : Bool

-- Stage; a `none` among the steps is a nil pointer.
pub record Stage (W : Type 0) : Type 0 where
  pub name : Bytes
  pub steps : List (Option (Step W))
  pub before_fn : Option (Action W)
  pub after_fn : Option (Action W)

-- A step that init has accepted, its defaults set.
pub record ReadyStep (W : Type 0) : Type 0 where
  pub pointer : ℕ
  pub name : Bytes
  pub func : Action W
  pub timeout : ℤ
  pub max_retries : ℤ
  pub retry_policy : RetryPolicy W
  pub before_fn : Option (Action W)
  pub after_fn : Option (Action W)
  pub finish_workflow : Bool

pub record ReadyStage (W : Type 0) : Type 0 where
  pub name : Bytes
  pub steps : List (ReadyStep W)
  pub before_fn : Option (Action W)
  pub after_fn : Option (Action W)

pub record Snapshot : Type 0 where
  pub steps_states : List StepState
  pub workflow_state : WorkflowState
  pub vars : Option (Dict Any)

-- Workflow, less what is in `Live`, with the calls that a run makes of its context and of the clock.
pub record Workflow (W : Type 0) : Type 0 where
  pub stages : List (Option (Stage W))
  pub before_fn : Option (Action W)
  pub after_fn : Option (Action W)
  pub on_failure_fn : Option (Err → Action W)
  pub before_all_steps_fn : Option (Bytes → ℕ → Action W)
  pub after_all_steps_fn : Option (Bytes → ℕ → Action W)
  pub snapshot_fn : Option (Snapshot → Action W)
  pub compensation_stage : Option Bytes
  pub compensation_step : Option Bytes
  -- ctx.Err()
  pub context_error : W → Option Err
  -- Whether Run has seen ctx.Done() since the last look.
  pub cancelled : W → Bool × W
  -- time.Now(), in nanoseconds
  pub now : W → ℕ × W
  -- sleepWithContext
  pub sleep_with_context : ℤ → W → Option Err × W

module _ {W : Type 0} where
  -- step.State. It is nil only before init, or where a callback makes it so.
  abbrev pub cell : ℕ → Live W → StepState
  cell p s = elim (s.cells p) [ none ↦ new_step_state | some c ↦ c ]

  abbrev pub put_cell : ℕ → StepState → Live W → Live W
  put_cell p c s = record s { cells = λ q. if p == q then some c else s.cells q }

  -- A setter applied to step.State.
  abbrev pub update : ℕ → (StepState → StepState) → Live W → Live W
  update p f s = put_cell p (f (cell p s)) s

  abbrev pub set_state : (WorkflowState → WorkflowState) → Live W → Live W
  set_state f s = record s { state = f s.state }

  -- checkStatus
  unfoldable pub check_status : Live W → Bool
  check_status s = s.state.is_completed || s.state.is_suspended || s.state.is_failed

  -- setDefaultValues, with the function and what init has found of it
  unfoldable pub set_default_values : Step W → Action W → ReadyStep W
  set_default_values s f = record {
    pointer = s.pointer;
    name = s.name;
    func = f;
    timeout = if eq_ℤ s.timeout (pos 0) then pos 1000000000 else s.timeout;
    max_retries = if eq_ℤ s.max_retries (pos 0) then pos 1 else s.max_retries;
    retry_policy = elim s.retry_policy [ none ↦ run_with_linear | some p ↦ p ];
    before_fn = s.before_fn;
    after_fn = s.after_fn;
    finish_workflow = s.finish_workflow;
  }

  -- A callback that may be nil.
  unfoldable pub call : Option (Action W) → Action W
  call none s = (none, s)
  call (some f) s = f s
