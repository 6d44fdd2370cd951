-- ===== src/Workflow/Preserving.antt =====
-- What handleStep leaves alone (workflow/workflow.go): a predicate of the state that the callbacks
-- and the single writes of handleStep preserve.
pub mod Steps
pub mod Stages
pub mod Repeats
pub mod Agreement
pub mod Resumes
use xutils.Prelude.{
  ℕ, zero, suc, ℤ, pos, negsuc, List, [], ◌∷◌, Bool, true, false, Option, none, some, if◌then◌else◌,
}
use xutils.Bytes.{Bytes, same}
use xutils.Workflow.Errors.{Err, is_control_flow_error}
use xutils.Workflow.State.{
  StepState, StepStatus, WorkflowState, pending, processing, completed, failed, suspended, skipped,
  other, set_start_time, set_end_time, set_status, set_error, set_previous_stage, set_previous_step,
  go_to_stage, go_to_step, set_completed,
}
use xutils.Workflow.Model.{
  Live, Action, RetryPolicy, run_with_linear, run_with_backoff, custom, ReadyStep, ReadyStage,
  Snapshot, Workflow, cell, update, set_state, check_status, call,
}
use xutils.Workflow.Policies.{
  Outcome, ok, err, unfinished, after_attempt, after_sleep, sleep_then, bounded, unbounded, retry,
  apply_policy,
}
use xutils.Workflow.Snapshots.{get_snapshot}
use xutils.Workflow.Steps.{
  Run, save_snapshot, read_clock, then_run, hook, after_hooks, after_policy, work, failed_state,
  completed_state, deferred, close_step, set_previous, open_step, run_step, skip_or_run,
  by_step_status, take_next_step, handle_step,
}

-- The writes of handleStep to the state of its step.
pub data Change : Type 0 where
  starts : ℕ → Change
  ends : ℕ → Change
  becomes : StepStatus → Change
  follows : Bytes → Bytes → Change
  completes : Change
  fails : Err → Change

abbrev pub change : Change → StepState → StepState
change (starts t) c = set_start_time t c
change (ends t) c = set_end_time t c
change (becomes x) c = set_status x c
change (follows stage step) c = set_previous_step step (set_previous_stage stage c)
change completes c = completed_state c
change (fails e) c = set_error (some e) (set_status failed c)

-- A predicate of what is there.
abbrev pub Each : {A : Type 0} → Option A → (A → Type 0) → Type 0
Each none q = Unit {0}
Each (some a) q = q a

module _ {W : Type 0} (P : Live W → Type 0) where
  abbrev pub Safe : Action W → Type 0
  Safe f = (s : Live W) → P s → P (f s).1

  abbrev pub SafePolicy : RetryPolicy W → Type 0
  SafePolicy (custom f) = Safe f
  SafePolicy _ = Unit {0}

  -- The callbacks of a workflow that a run calls once execution has started.
  pub record CallbacksSafe (m : Workflow W) : Type 0 where
    pub snapshot : Each m.snapshot_fn (λ f. (sh : Snapshot) → Safe (f sh))
    pub before_all : Each m.before_all_steps_fn (λ f. (n : Bytes) (p : ℕ) → Safe (f n p))
    pub after_all : Each m.after_all_steps_fn (λ f. (n : Bytes) (p : ℕ) → Safe (f n p))
    pub after_run : Each m.after_fn Safe

  -- The callbacks, and what a run writes outside the states of the steps.
  pub record WorkflowSafe (m : Workflow W) : Type 0 where
    pub callbacks : CallbacksSafe m
    pub by_world : (w : W) (s : Live W) → P s → P (record s { world = w })
    pub by_stop : (b : Bool) (s : Live W) → P s → P (record s { is_stopped = b })
    pub by_link : (p : ℕ) (s : Live W) → P s → P (record s { prev_step = some p })
    pub by_state : (f : WorkflowState → WorkflowState) (s : Live W) → P s → P (set_state f s)

  -- The callbacks of a step.
  pub record StepCallbacks (step : ReadyStep W) : Type 0 where
    pub func : Safe step.func
    pub policy : SafePolicy step.retry_policy
    pub before : Each step.before_fn Safe
    pub after : Each step.after_fn Safe

  -- The callbacks of a step, and the writes to its state.
  pub record StepSafe (step : ReadyStep W) : Type 0 where
    pub callbacks : StepCallbacks step
    pub by_change : (c : Change) (s : Live W) → P s → P (update step.pointer (change c) s)

  -- A result whose state is as the predicate says.
  pub record Kept {X : Type 0} (r : X × Live W) : Type 0 where
    pub kept : P r.1

  pub if-Kept :
      {X : Type 0} {x y : X × Live W} (b : Bool) → Kept x → Kept y → Kept (if b then x else y)
  if-Kept true hx hy = hx
  if-Kept false hx hy = hy

  pub call-Kept : (o : Option (Action W)) (s : Live W) → Each o Safe → P s → Kept (call o s)
  unfolding call
  call-Kept none s h g = record { kept = g }
  call-Kept (some f) s h g = record { kept = h s g }

  module _ (m : Workflow W) (all : List ℕ) (fuel : ℕ) (safe : WorkflowSafe m) where
    pub then_run-Kept :
        (r : Option Err × Live W) (next : Run m all fuel)
        → Kept r
        → ((t : Live W) → P t → Kept (next t))
        → Kept (then_run m all fuel r next)
    unfolding then_run
    then_run-Kept (none, s) next g h = h s g.kept
    then_run-Kept (some e, s) next g h = record { kept = g.kept }

    snapshot-kept :
        (o : Option (Snapshot → Action W)) (s : Live W)
        → Each o (λ f. (sh : Snapshot) → Safe (f sh))
        → P s
        → P (elim o [ none ↦ s | some f ↦ (f (get_snapshot all s) s).1 ])
    snapshot-kept none s h g = g
    snapshot-kept (some f) s h g = h _ s g

    pub save_snapshot-kept : (s : Live W) → P s → P (save_snapshot m all fuel s)
    unfolding save_snapshot
    save_snapshot-kept s g = snapshot-kept m.snapshot_fn s safe.callbacks.snapshot g

    pub hook-Kept :
        (o : Option (Bytes → ℕ → Action W)) (stage : Bytes) (step : ReadyStep W) (s : Live W)
        → Each o (λ f. (n : Bytes) (p : ℕ) → Safe (f n p))
        → P s
        → Kept (hook m all fuel o stage step s)
    unfolding hook
    hook-Kept none stage step s h g = record { kept = g }
    hook-Kept (some f) stage step s h g = record { kept = h stage step.pointer s g }

    after_attempt-Kept :
        (r : Option Err × Live W) (again : Err → Run m all fuel)
        → Kept r
        → ((e : Err) (t : Live W) → P t → Kept (again e t))
        → Kept (after_attempt m r again)
    unfolding after_attempt
    after_attempt-Kept (none, s) again g h = record { kept = g.kept }
    after_attempt-Kept (some e, s) again g h =
        if-Kept (is_control_flow_error e) (record { kept = g.kept }) (h e s g.kept)

    after_sleep-Kept :
        (o : Option Err) (next : Run m all fuel) (s : Live W)
        → P s
        → ((t : Live W) → P t → Kept (next t))
        → Kept (after_sleep m o next s)
    unfolding after_sleep
    after_sleep-Kept none next s g h = h s g
    after_sleep-Kept (some e) next s g h = record { kept = g }

    sleep_then-Kept :
        (d : ℤ) (next : Run m all fuel) (s : Live W)
        → P s
        → ((t : Live W) → P t → Kept (next t))
        → Kept (sleep_then m d next s)
    unfolding sleep_then
    sleep_then-Kept d next s g h =
        after_sleep-Kept (m.sleep_with_context d s.world).0 next _ (safe.by_world _ s g) h

    module _ (fn : Action W) (calls : Safe fn) where
      bounded-Kept :
          (grow : ℤ → ℤ) (left : ℕ) (delay : ℤ) (s : Live W)
          → P s
          → Kept (bounded m grow fn left delay s)
      unfolding bounded
      bounded-Kept grow zero delay s g =
          after_attempt-Kept (fn s) _ (record { kept = calls s g }) (λ e t k. record { kept = k })
      bounded-Kept grow (suc left) delay s g =
          after_attempt-Kept (fn s) _ (record { kept = calls s g })
            (λ e t k.
              sleep_then-Kept delay (bounded m grow fn left (grow delay)) t k
                (bounded-Kept grow left (grow delay)))

      unbounded-Kept :
          (grow : ℤ → ℤ) (left : ℕ) (delay : ℤ) (s : Live W)
          → P s
          → Kept (unbounded m grow fn left delay s)
      unfolding unbounded
      unbounded-Kept grow zero delay s g = record { kept = g }
      unbounded-Kept grow (suc left) delay s g =
          after_attempt-Kept (fn s) _ (record { kept = calls s g })
            (λ e t k.
              sleep_then-Kept delay (unbounded m grow fn left (grow delay)) t k
                (unbounded-Kept grow left (grow delay)))

      retry-Kept :
          (grow : ℤ → ℤ) (n delay : ℤ) (s : Live W) → P s → Kept (retry m grow fn n fuel delay s)
      unfolding retry
      retry-Kept grow (pos zero) delay s g = record { kept = g }
      retry-Kept grow (pos (suc left)) delay s g = bounded-Kept grow left delay s g
      retry-Kept grow (negsuc n) delay s g = unbounded-Kept grow fuel delay s g

    pub apply_policy-Kept :
        (step : ReadyStep W) (p : RetryPolicy W) (s : Live W)
        → Safe step.func
        → SafePolicy p
        → P s
        → Kept (apply_policy m fuel step p s)
    unfolding apply_policy
    apply_policy-Kept step run_with_linear s f h g = retry-Kept step.func f _ _ _ s g
    apply_policy-Kept step run_with_backoff s f h g = retry-Kept step.func f _ _ _ s g
    apply_policy-Kept step (custom policy) s f h g = record { kept = h s g }
