-- ===== src/Pipeline/Samples.antt =====
-- Concrete executors, definitions and states of the package pipeline/.
use xutils.Prelude.{ℕ, pos, List, [], ◌∷◌, true, false, Option, none, some, if◌then◌else◌, ◌==◌}
use xutils.Bytes.{Bytes, codes}
use xutils.Pipeline.Errors.{opaque}
use xutils.Pipeline.State.{RunState, no_run, running, compensating}
use xutils.Pipeline.Definition.{
  Executor, Pipeline, ActionFunc, Step, step, no_branch, branch, no_repeat, Steps, end, then_step,
  no_paths, path, compact,
}
use xutils.Pipeline.Machine.{Machine}
use xutils.Pipeline.Helpers.Accepted.{Blueprint, of_repeat}
use xutils.Pipeline.Helpers.{StepOption, max_iterations, repeat_history, retry, compensate}

-- The world is 0 while the context is live; every snapshot succeeds.
abbrev pub calm : Executor ℕ ℕ
calm = record {
  now = λ w. (pos 0, w);
  ctx_err = λ w. (if w == 0 then none else some (opaque 0), w);
  sleep = λ d w. (none, w);
  snapshot_fn = some (λ r w. (none, w));
  cas_snapshot_fn = none;
  state_migrator = none;
  marshal = λ v. some (v ∷ []);
  marshal_error = λ v. opaque 1;
  error_text = λ err. codes "failed";
}

abbrev pub ok_action : ActionFunc ℕ ℕ
ok_action d w = (none, d, w)

abbrev pub bad_action : ActionFunc ℕ ℕ
bad_action d w = (some (opaque 7), d, w)

-- The context is cancelled while the action runs.
abbrev pub cancelled_action : ActionFunc ℕ ℕ
cancelled_action d w = (some (opaque 0), d, 1)

abbrev pub action_step : Bytes → ActionFunc ℕ ℕ → Option (ActionFunc ℕ ℕ) → Step ℕ ℕ
action_step n f undo =
    step
      (record {
        name = n;
        action = some (record { action = some f; compensate = undo });
        poll = none;
        on_enter = none;
        retry = none;
      })
      no_branch no_repeat

abbrev pub branch_step : Bytes → Bytes → Steps ℕ ℕ → Step ℕ ℕ
branch_step n key steps =
    step (record { name = n; action = none; poll = none; on_enter = none; retry = none })
      (branch (some (λ d w. (key, none, d, w))) (path key steps no_paths)) no_repeat

abbrev pub pipeline_of : Steps ℕ ℕ → Pipeline ℕ ℕ
pipeline_of steps = record {
  name = codes "p";
  steps = steps;
  version = pos 1;
  min_resume_version = none;
}

-- Two steps with compensators, and one that fails.
abbrev pub saga : Pipeline ℕ ℕ
saga = pipeline_of (
    then_step (action_step (codes "a") ok_action (some ok_action)) (
      then_step (action_step (codes "b") ok_action (some ok_action))
        (then_step (action_step (codes "c") bad_action none) end)))

-- A branch in whose first child the context is cancelled, with a second child to follow.
abbrev pub nested_two : Pipeline ℕ ℕ
nested_two = pipeline_of (
    then_step
      (branch_step (codes "b") (codes "left") (
        then_step (action_step (codes "x") cancelled_action none)
          (then_step (action_step (codes "y") ok_action none) end)))
      end)

-- The state of the saga before its compensation: `a` and `b` are completed.
abbrev pub before_rollback : Machine ℕ ℕ
before_rollback = record {
  run = record no_run {
    status = compensating;
    completed_steps =
        record { path = codes "a" ∷ []; has_compensator = true }
        ∷ record { path = codes "b" ∷ []; has_compensator = true }
        ∷ [];
    compensation_index = pos 1;
  };
  store = [];
  world = 0;
  calls = [];
}

-- A branch whose decision is in the journal, in a context that has been cancelled.
abbrev pub cancelled_branch : Machine ℕ ℕ
cancelled_branch = record {
  run = record no_run {
    status = running;
    completed_steps = record { path = codes "b" ∷ []; has_compensator = false } ∷ [];
    current_path = codes "b" ∷ codes "left" ∷ codes "x" ∷ [];
  };
  store = [];
  world = 1;
  calls = [];
}

-- A repeat over one action, with options of all kinds.
abbrev pub one_child : Steps ℕ ℕ
one_child = then_step (action_step (codes "x") ok_action none) end

abbrev pub repeat_options : List (StepOption ℕ ℕ)
repeat_options =
    max_iterations (pos 3)
    ∷ repeat_history compact
    ∷ retry (pos 2) (pos 1000) true
    ∷ compensate (some ok_action)
    ∷ []

abbrev pub repeat_of_one : Blueprint ℕ ℕ
repeat_of_one = of_repeat one_child (λ i d w. (false, pos 0, none, d, w))

-- Two steps with compensators, and between them one of the first iteration of a repeat.
abbrev pub repeated : RunState
repeated = record no_run {
  status = running;
  completed_steps =
      record { path = codes "a" ∷ []; has_compensator = true }
      ∷ record { path = codes "r" ∷ codes "0" ∷ codes "x" ∷ []; has_compensator = false }
      ∷ record { path = codes "b" ∷ []; has_compensator = true }
      ∷ [];
}
