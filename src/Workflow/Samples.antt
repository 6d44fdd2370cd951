-- ===== src/Workflow/Samples.antt =====
-- A concrete workflow: two stages, a compensation, and a world that counts the calls.
use xutils.Prelude.{ℕ, suc, pos, List, [], ◌∷◌, false, Option, none, some, if◌then◌else◌, ◌==◌, ltb}
use xutils.Bytes.{Bytes, codes}
use xutils.Workflow.Errors.{opaque}
use xutils.Workflow.State.{
  StepState, WorkflowState, completed, new_step_state, set_current, set_status,
}
use xutils.Workflow.Model.{
  Live, Action, Step, Stage, ReadyStep, ReadyStage, run_with_backoff, Workflow, Snapshot,
}

abbrev pub fresh_state : WorkflowState
fresh_state = record {
  is_suspended = false;
  is_completed = false;
  is_failed = false;
  custom_error = [];
  error = none;
  next_stage = [];
  next_step = [];
}

abbrev pub live_of : (ℕ → Option StepState) → Live ℕ
live_of cells = record {
  world = 0;
  state = fresh_state;
  cells = cells;
  vars = none;
  is_stopped = false;
  execution_started = false;
  prev_step = none;
  is_skip_error = false;
}

abbrev pub fresh : Live ℕ
fresh = live_of (λ p. none)

-- It fails on the first two calls.
abbrev pub third_time : Action ℕ
third_time s = ((if ltb s.world 2 then some (opaque 7) else none), record s { world = suc s.world })

abbrev pub count_call : Action ℕ
count_call s = (none, record s { world = suc s.world })

abbrev pub sample_step : ℕ → Bytes → Action ℕ → Step ℕ
sample_step p name f = record {
  pointer = p;
  name = name;
  func = some f;
  timeout = pos 5;
  max_retries = pos 3;
  retry_policy = some run_with_backoff;
  before_fn = none;
  after_fn = none;
  finish_workflow = false;
}

abbrev pub sample_ready : ℕ → Bytes → Action ℕ → ReadyStep ℕ
sample_ready p name f = record {
  pointer = p;
  name = name;
  func = f;
  timeout = pos 5;
  max_retries = pos 3;
  retry_policy = run_with_backoff;
  before_fn = none;
  after_fn = none;
  finish_workflow = false;
}

abbrev pub load_name : Bytes
load_name = codes "load"

abbrev pub save_name : Bytes
save_name = codes "save"

abbrev pub undo_name : Bytes
undo_name = codes "undo"

abbrev pub main_name : Bytes
main_name = codes "main"

abbrev pub back_name : Bytes
back_name = codes "back"

abbrev pub main_stage : Stage ℕ
main_stage = record {
  name = main_name;
  steps =
      some (sample_step 1 load_name third_time) ∷ some (sample_step 2 save_name count_call) ∷ [];
  before_fn = none;
  after_fn = some count_call;
}

abbrev pub back_stage : Stage ℕ
back_stage = record {
  name = back_name;
  steps = some (sample_step 3 undo_name count_call) ∷ [];
  before_fn = none;
  after_fn = none;
}

abbrev pub main_ready : ReadyStage ℕ
main_ready = record {
  name = main_name;
  steps = sample_ready 1 load_name third_time ∷ sample_ready 2 save_name count_call ∷ [];
  before_fn = none;
  after_fn = some count_call;
}

abbrev pub ready_stages : List (ReadyStage ℕ)
ready_stages =
    main_ready
    ∷ record {
      name = back_name;
      steps = sample_ready 3 undo_name count_call ∷ [];
      before_fn = none;
      after_fn = none;
    }
    ∷ []

-- The snapshots go to the world, which does not show them.
abbrev pub keep_snapshot : Snapshot → Action ℕ
keep_snapshot sh s = (none, s)

abbrev pub workflow_of : List (Option (Stage ℕ)) → Workflow ℕ
workflow_of stages = record {
  stages = stages;
  before_fn = some count_call;
  after_fn = none;
  on_failure_fn = some (λ e. count_call);
  before_all_steps_fn = none;
  after_all_steps_fn = none;
  snapshot_fn = some keep_snapshot;
  compensation_stage = some back_name;
  compensation_step = some undo_name;
  context_error = λ n. none;
  cancelled = λ n. (false, n);
  now = λ n. (9, n);
  sleep_with_context = λ d n. (none, n);
}

abbrev pub two_stages : Workflow ℕ
two_stages = workflow_of (some main_stage ∷ some back_stage ∷ [])

-- The step "load" is done.
abbrev pub loaded : StepState
loaded = set_status completed (set_current main_name load_name new_step_state)

abbrev pub resumed : Live ℕ
resumed = live_of (λ p. if p == 1 then some loaded else none)
