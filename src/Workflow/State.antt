-- ===== src/Workflow/State.antt =====
-- workflow/step_status.go, step_state.go and workflow_state.go: the state that a workflow keeps of
-- itself and of each step, with their setters. The Error strings are kept as the error they print.
use xutils.Prelude.{ℕ, List, [], ◌∷◌, Bool, true, false, Option, none, some, if◌then◌else◌, ◌==◌}
use xutils.Bytes.{Bytes}
use xutils.Bytes.Dict.{Dict, insert}
use xutils.Workflow.Errors.{Err}

-- A StepStatus; `other` is a string that is none of the constants, "" among them.
pub data StepStatus : Type 0 where
  pending : StepStatus
  processing : StepStatus
  completed : StepStatus
  failed : StepStatus
  suspended : StepStatus
  skipped : StepStatus
  other : Bytes → StepStatus

-- Valid
unfoldable pub valid : StepStatus → Bool
valid (other s) = false
valid _ = true

-- AllStepStatuses
abbrev pub all_step_statuses : List StepStatus
all_step_statuses = pending ∷ processing ∷ completed ∷ failed ∷ suspended ∷ skipped ∷ []

-- A value of the type `any`: its dynamic type, and which value of it.
pub record Any : Type 0 where
  pub type_id : ℕ
  pub value : ℕ

-- Times are in nanoseconds; 0 is the zero time.
pub record StepState : Type 0 where
  pub previous_stage : Option Bytes
  pub previous_step : Option Bytes
  pub current_stage : Bytes
  pub current_step : Bytes
  pub next_stage : Option Bytes
  pub next_step : Option Bytes
  pub start_time : Option ℕ
  pub end_time : Option ℕ
  pub status : StepStatus
  pub error : Option Err
  pub args : Option (Dict Any)

-- NewStepState
abbrev pub new_step_state : StepState
new_step_state = record {
  previous_stage = none;
  previous_step = none;
  current_stage = [];
  current_step = [];
  next_stage = none;
  next_step = none;
  start_time = none;
  end_time = none;
  status = other [];
  error = none;
  args = none;
}

abbrev pub set_previous_stage : Bytes → StepState → StepState
set_previous_stage [] s = s
set_previous_stage (c ∷ n) s = record s { previous_stage = some (c ∷ n) }

abbrev pub set_previous_step : Bytes → StepState → StepState
set_previous_step [] s = s
set_previous_step (c ∷ n) s = record s { previous_step = some (c ∷ n) }

abbrev pub set_current : Bytes → Bytes → StepState → StepState
set_current stage step s = record s { current_stage = stage; current_step = step }

abbrev pub set_next_stage : Bytes → StepState → StepState
set_next_stage [] s = s
set_next_stage (c ∷ n) s = record s { next_stage = some (c ∷ n) }

abbrev pub set_next_step : Bytes → StepState → StepState
set_next_step [] s = s
set_next_step (c ∷ n) s = record s { next_step = some (c ∷ n) }

abbrev pub set_start_time : ℕ → StepState → StepState
set_start_time t s = record s { start_time = if t == 0 then s.start_time else some t }

abbrev pub set_end_time : ℕ → StepState → StepState
set_end_time t s = record s { end_time = if t == 0 then s.end_time else some t }

abbrev pub set_status : StepStatus → StepState → StepState
set_status status s = record s { status = status }

-- StepState.SetError
abbrev pub set_error : Option Err → StepState → StepState
set_error err s = record s { error = err }

-- SetArg; a nil map is made first.
unfoldable pub set_arg : Bytes → Any → StepState → StepState
set_arg key v s = record s { args = some (insert key v (elim s.args [ none ↦ [] | some m ↦ m ])) }

-- StepState.SetArgs
abbrev pub set_args : Option (Dict Any) → StepState → StepState
set_args args s = record s { args = args }

-- WorkflowState; the custom error is a JSON text.
pub record WorkflowState : Type 0 where
  pub is_suspended : Bool
  pub is_completed : Bool
  pub is_failed : Bool
  pub custom_error : Bytes
  pub error : Option Err
  pub next_stage : Bytes
  pub next_step : Bytes

abbrev pub set_completed : Bool → WorkflowState → WorkflowState
set_completed b w = record w { is_completed = b }

abbrev pub set_suspended : Bool → WorkflowState → WorkflowState
set_suspended b w = record w { is_suspended = b }

abbrev pub set_failed : Bool → WorkflowState → WorkflowState
set_failed b w = record w { is_failed = b }

-- WorkflowState.SetError
abbrev pub set_workflow_error : Option Err → WorkflowState → WorkflowState
set_workflow_error none w = w
set_workflow_error (some err) w = record w { error = some err }

abbrev pub set_custom_error : Bytes → WorkflowState → WorkflowState
set_custom_error value w = record w { custom_error = value }

-- SetErrorMsg; the message is what the error prints, and "" where there is none.
abbrev pub set_error_msg : Option Err → WorkflowState → WorkflowState
set_error_msg msg w = record w { error = msg }

abbrev pub go_to_stage : Bytes → WorkflowState → WorkflowState
go_to_stage name w = record w { next_stage = name }

abbrev pub go_to_step : Bytes → WorkflowState → WorkflowState
go_to_step name w = record w { next_step = name }
