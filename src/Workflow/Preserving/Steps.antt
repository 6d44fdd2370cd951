-- ===== src/Workflow/Preserving/Steps.antt =====
-- What handleStep leaves alone, from the retries up (workflow/workflow.go).
use xutils.Prelude.{ℕ, List, [], ◌∷◌, Bool, true, false, Option, none, some, if◌then◌else◌}
use xutils.Bytes.{Bytes, same}
use xutils.Workflow.Errors.{Err, is_control_flow_error}
use xutils.Workflow.State.{
  StepState, StepStatus, pending, processing, completed, failed, suspended, skipped, other,
  set_status, set_error, set_previous_stage, set_previous_step, go_to_step,
}
use xutils.Workflow.Model.{Live, ReadyStep, Workflow, cell, update, set_state, check_status, call}
use xutils.Workflow.Policies.{Outcome, ok, err, unfinished, apply_policy}
use xutils.Workflow.Steps.{
  read_clock, hook, after_hooks, after_policy, work, failed_state, completed_state, deferred,
  close_step, set_previous, open_step, run_step, skip_or_run, by_step_status, take_next_step,
  handle_step,
}
use xutils.Workflow.Preserving.{
  starts, ends, becomes, follows, completes, fails, WorkflowSafe, StepSafe, Kept, if-Kept,
  call-Kept, then_run-Kept, save_snapshot-kept, hook-Kept, apply_policy-Kept,
}

module _ {W : Type 0} (P : Live W → Type 0) (m : Workflow W) (all : List ℕ) (fuel : ℕ)
    (safe : WorkflowSafe P m) where
  -- The step is `step`, with what its writes and its callbacks preserve.
  module _ (stage : Bytes) (step : ReadyStep W) (own : StepSafe P step) where
    after_hooks-Kept :
        (o : Outcome) (s : Live W) → P s → Kept P (after_hooks m all fuel stage step o s)
    unfolding after_hooks
    after_hooks-Kept o s g =
        then_run-Kept P m all fuel safe (call step.after_fn s) _
          (call-Kept P step.after_fn s own.callbacks.after g)
          (λ t k.
            then_run-Kept P m all fuel safe (hook m all fuel m.after_all_steps_fn stage step t) _
              (hook-Kept P m all fuel safe m.after_all_steps_fn stage step t
                safe.callbacks.after_all k)
              (λ u l. record { kept = l }))

    after_policy-Kept :
        (o : Outcome) (s : Live W) → P s → Kept P (after_policy m all fuel stage step o s)
    unfolding after_policy
    after_policy-Kept unfinished s g = record { kept = g }
    after_policy-Kept ok s g = after_hooks-Kept ok s g
    after_policy-Kept (err e) s g = after_hooks-Kept (err e) s g

    pub work-Kept : (s : Live W) → P s → Kept P (work m all fuel stage step s)
    unfolding work
    work-Kept s g =
        then_run-Kept P m all fuel safe (hook m all fuel m.before_all_steps_fn stage step s) _
          (hook-Kept P m all fuel safe m.before_all_steps_fn stage step s safe.callbacks.before_all
            g)
          (λ t k.
            then_run-Kept P m all fuel safe (call step.before_fn t) _
              (call-Kept P step.before_fn t own.callbacks.before k)
              (λ u l.
                let r = apply_policy m fuel step step.retry_policy u in
                after_policy-Kept r.0 r.1
                  (apply_policy-Kept P m all fuel safe step step.retry_policy u own.callbacks.func
                    own.callbacks.policy l).kept))

    deferred-kept :
        (f : StepState → StepState) (s : Live W)
        → ((t : Live W) → P t → P (update step.pointer f t))
        → P s
        → P (deferred m all fuel step.pointer f s)
    unfolding deferred read_clock
    deferred-kept f s h g =
        save_snapshot-kept P m all fuel safe _
          (h _ (own.by_change (ends _) _ (safe.by_world _ s g)))

    failed_state-kept : (e : Err) (t : Live W) → P t → P (update step.pointer (failed_state e) t)
    unfolding failed_state
    failed_state-kept e t g = choose (is_control_flow_error e)
      where
        choose :
            (b : Bool)
            → P (
                update step.pointer
                  (λ c.
                    if b then set_status skipped c else set_error (some e) (set_status failed c))
                  t)
        choose true = own.by_change (becomes skipped) t g
        choose false = own.by_change (fails e) t g

    close_step-Kept : (r : Outcome × Live W) → Kept P r → Kept P (close_step m all fuel step r)
    unfolding close_step
    close_step-Kept (ok, s) g = record {
      kept = deferred-kept completed_state s (own.by_change completes) g.kept;
    }
    close_step-Kept (err e, s) g = record {
      kept = deferred-kept (failed_state e) s (failed_state-kept e) g.kept;
    }
    close_step-Kept (unfinished, s) g = record { kept = g.kept }

    set_previous-kept : (s : Live W) → P s → P (set_previous m all fuel step.pointer s)
    unfolding set_previous
    set_previous-kept s g = at_step s.prev_step
      where
        at_state :
            (c : Option StepState)
            → P (elim c [
              | none ↦ s
              | some d ↦
                  update step.pointer
                    (λ e. set_previous_step d.current_step (set_previous_stage d.current_stage e))
                    s
            ])
        at_state none = g
        at_state (some d) = own.by_change (follows d.current_stage d.current_step) s g

        at_step :
            (q : Option ℕ)
            → P (elim q [
              | none ↦ s
              | some p ↦ elim (s.cells p) [
                | none ↦ s
                | some d ↦
                    update step.pointer
                      (λ e. set_previous_step d.current_step (set_previous_stage d.current_stage e))
                      s
              ]
            ])
        at_step none = g
        at_step (some p) = at_state (s.cells p)

    open_step-kept : (s : Live W) → P s → P (open_step m all fuel step.pointer s)
    unfolding open_step read_clock
    open_step-kept s g = save_snapshot-kept P m all fuel safe _ (
        own.by_change (becomes processing) _ (
          safe.by_link step.pointer _ (
            set_previous-kept _ (
              own.by_change (becomes pending) _
                (own.by_change (starts _) _ (safe.by_world _ s g))))))

    pub run_step-Kept : (s : Live W) → P s → Kept P (run_step m all fuel stage step s)
    unfolding run_step
    run_step-Kept s g =
        close_step-Kept _ (work-Kept (open_step m all fuel step.pointer s) (open_step-kept s g))

    skip_or_run-Kept :
        (next : Bytes) (s : Live W) → P s → Kept P (skip_or_run m all fuel stage step next s)
    unfolding skip_or_run
    skip_or_run-Kept [] s g = run_step-Kept s g
    skip_or_run-Kept (c ∷ next) s g =
        if-Kept P (same (c ∷ next) step.name) (run_step-Kept _ (safe.by_state (go_to_step []) s g))
          (record { kept = own.by_change (becomes skipped) s g })

    by_step_status-Kept :
        (next : Bytes) (x : StepStatus) (s : Live W)
        → P s
        → Kept P (by_step_status m all fuel stage step next x s)
    unfolding by_step_status
    by_step_status-Kept next completed s g = record { kept = g }
    by_step_status-Kept next skipped s g = record { kept = g }
    by_step_status-Kept next suspended s g = record { kept = g }
    by_step_status-Kept next pending s g = skip_or_run-Kept next s g
    by_step_status-Kept next processing s g = skip_or_run-Kept next s g
    by_step_status-Kept next failed s g = skip_or_run-Kept next s g
    by_step_status-Kept next (other x) s g = skip_or_run-Kept next s g

    take_next_step-kept : (s : Live W) → P s → P (take_next_step m all fuel step.name s)
    unfolding take_next_step
    take_next_step-kept s g = choose (same s.state.next_step step.name)
      where
        choose : (b : Bool) → P (if b then set_state (go_to_step []) s else s)
        choose true = safe.by_state (go_to_step []) s g
        choose false = g

    pub handle_step-Kept : (s : Live W) → P s → Kept P (handle_step m all fuel stage step s)
    unfolding handle_step
    handle_step-Kept s g =
        let t = take_next_step m all fuel step.name s in
        let k = take_next_step-kept s g in
        if-Kept P (check_status t) (record { kept = k })
          (by_step_status-Kept s.state.next_step (cell step.pointer t).status t k)
