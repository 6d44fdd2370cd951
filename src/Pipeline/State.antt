-- ===== src/Pipeline/State.antt =====
-- pipeline/state.go: the persistent state of a run.
use xutils.Prelude.{ℕ, ℤ, pos, List, [], Bool, true, false, Option, none}
use xutils.Bytes.{Bytes, StepPath}
use xutils.Bytes.Dict.{Dict}

-- `other` is any string that is no status of the package.
pub data RunStatus : Type 0 where
  new running polling completed compensating failed : RunStatus
  other : Bytes → RunStatus

-- A time.Time, in nanoseconds from an epoch.
abbrev pub Time : Type 0
Time = ℤ

pub record StepDiagnostics : Type 0 where
  pub attempts : ℤ
  pub first_started_at : Option Time
  pub last_started_at : Option Time
  pub completed_at : Option Time
  pub last_error : Bytes
  pub next_run_at : Option Time

abbrev pub no_diagnostics : StepDiagnostics
no_diagnostics = record {
  attempts = pos 0;
  first_started_at = none;
  last_started_at = none;
  completed_at = none;
  last_error = [];
  next_run_at = none;
}

pub record RepeatState : Type 0 where
  pub iteration : ℤ
  pub awaiting_condition : Bool
  pub completed : Bool
  pub started_at : Option Time

abbrev pub no_repeat_state : RepeatState
no_repeat_state = record {
  iteration = pos 0;
  awaiting_condition = false;
  completed = false;
  started_at = none;
}

pub record RepeatTimeoutState : Type 0 where
  pub step_name : Bytes
  pub max_duration : ℤ

pub record CompletedStep : Type 0 where
  pub path : StepPath
  pub has_compensator : Bool

pub record RunState : Type 0 where
  pub version : ℤ
  pub status : RunStatus
  pub current_path : StepPath
  pub completed_steps : List CompletedStep
  -- raw JSON by key
  pub data_json : Dict Bytes
  pub error : Bytes
  pub failed_step_path : StepPath
  pub error_context : Bytes
  pub poll_started_at : Option Time
  pub compensation_index : ℤ
  pub revision : ℕ  -- uint64
  pub step_diagnostics : Dict StepDiagnostics
  pub repeat_states : Dict RepeatState
  pub repeat_timeout : Option RepeatTimeoutState

-- RunState{}
abbrev pub no_run : RunState
no_run = record {
  version = pos 0;
  status = new;
  current_path = [];
  completed_steps = [];
  data_json = [];
  error = [];
  failed_step_path = [];
  error_context = [];
  poll_started_at = none;
  compensation_index = pos 0;
  revision = 0;
  step_diagnostics = [];
  repeat_states = [];
  repeat_timeout = none;
}

abbrev pub status_is_terminal : RunStatus → Bool
status_is_terminal completed = true
status_is_terminal failed = true
status_is_terminal _ = false

abbrev pub status_is_new : RunStatus → Bool
status_is_new new = true
status_is_new _ = false

abbrev pub status_is_running : RunStatus → Bool
status_is_running running = true
status_is_running _ = false

abbrev pub status_is_compensating : RunStatus → Bool
status_is_compensating compensating = true
status_is_compensating _ = false

-- IsTerminal
unfoldable pub is_terminal : RunState → Bool
is_terminal s = status_is_terminal s.status

-- ForceTerminate
pub force_terminate : Bytes → RunState → RunState
force_terminate reason s = record s { status = failed; error = reason }
