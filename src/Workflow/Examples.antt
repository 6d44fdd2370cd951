-- ===== src/Workflow/Examples.antt =====
-- The theorems on the package workflow/ at a concrete workflow.
use xutils.Prelude.{
  ℕ, [], ◌∷◌, Bool, true, false, Option, none, some, if◌then◌else◌, ◌==◌, ==_iff, ◌≡◌, ◌≢◌, refl,
  arith, ap, sym, ◌∙◌,
}
use xutils.Bytes.{Bytes, same}
use xutils.Workflow.Current.{
  found, current_step, current_stage, step_in, last_stage, last_valid, or_search,
}
use xutils.Workflow.Current.Latest.{Answer, current_step-Answer}
use xutils.Workflow.Errors.{Err, opaque}
use xutils.Workflow.State.{StepState, new_step_state, valid}
use xutils.Workflow.Model.{Live, Action, cell, run_with_backoff}
use xutils.Workflow.Policies.{apply_policy, err}
use xutils.Workflow.Init.{init}
use xutils.Workflow.Init.Sound.{Sound}
use xutils.Workflow.Init.Accepting.{init-Sound}
use xutils.Workflow.Snapshots.{pointers, set_snapshot, get_snapshot}
use xutils.Workflow.Snapshots.Places.{saved}
use xutils.Workflow.Snapshots.RoundTrip.{among, set_snapshot-get_snapshot}
use xutils.Workflow.Steps.{handle_step}
use xutils.Workflow.Runs.{execute, execute_ready, run, finish, crashed, returned}
use xutils.Workflow.Returning.{finished}
use xutils.Workflow.Returning.Declared.{execute_returns}
use xutils.Workflow.Preserving.{StepCallbacks, Safe}
use xutils.Workflow.Preserving.Repeats.{Done, swap_stages}
use xutils.Workflow.Preserving.Resumes.{execute_ready-done}
use xutils.Workflow.Reporting.{Report, handle_step-Report}
use xutils.Workflow.Failing.{Routing, finish-Routing}
use xutils.Workflow.Crashing.{run-crashes}
use xutils.Workflow.Attempts.{Tallied, apply_policy-attempts}
use xutils.Workflow.Samples.{
  sample_step, live_of, fresh, third_time, count_call, sample_ready, ready_stages, workflow_of,
  two_stages, resumed, loaded, main_stage, main_name, load_name, save_name, back_name, undo_name,
  keep_snapshot,
}

execute_returns_example : finished (execute two_stages 0 fresh).0 ≡ true
execute_returns_example =
    execute_returns two_stages 0 fresh ((omega arith, (omega arith, tt)), ((omega arith, tt), tt))

init-Sound_example : Sound two_stages ready_stages
unfolding init
init-Sound_example = init-Sound two_stages fresh ready_stages refl

execute_ready-done_example :
    execute_ready two_stages
      (1 ∷ 2 ∷ 3 ∷ [])
      0
      (swap_stages (sample_ready 1 load_name count_call) ready_stages)
      resumed
    ≡ execute_ready two_stages (1 ∷ 2 ∷ 3 ∷ []) 0 ready_stages resumed
execute_ready-done_example =
    execute_ready-done two_stages (1 ∷ 2 ∷ 3 ∷ []) 0 (sample_ready 1 load_name count_call)
      ready_stages resumed
      (record { snapshot = λ sh s g. g; before_all = tt; after_all = tt; after_run = tt })
      (λ s g. record { done = g.done })
      (
        tt,
        (λ s g. record { done = g.done }),
        (
          other 1 load_name third_time (λ s g. record { done = g.done }),
          (other 2 save_name count_call (λ s g. record { done = g.done }), tt),
        ),
        (tt, tt, (other 3 undo_name count_call (λ s g. record { done = g.done }), tt), tt),
      )
      (record { done = refl })
  where
    other :
        (p : ℕ) (name : Bytes) (f : Action ℕ)
        → Safe (Done 1) f
        → p ≢ 1
        → StepCallbacks (Done 1) (sample_ready p name f)
    other p name f k h = record { func = k; policy = tt; before = tt; after = tt }

handle_step-Report_example :
    Report
      (sample_ready 1 load_name third_time)
      (cell 1 fresh)
      (handle_step two_stages (1 ∷ []) 0 main_name (sample_ready 1 load_name third_time) fresh).0
      (cell 1
        (handle_step two_stages (1 ∷ []) 0 main_name (sample_ready 1 load_name third_time) fresh).1)
handle_step-Report_example =
    handle_step-Report two_stages (1 ∷ []) 0 main_name (sample_ready 1 load_name third_time) fresh
      (λ sh s. refl)

finish-Routing_example :
    (r : Option Err) × (t : Live ℕ) × (finish two_stages (err (opaque 7)) fresh ≡ returned r t)
    × Routing two_stages (opaque 7) fresh r t
unfolding pointers
finish-Routing_example =
    finish-Routing two_stages (opaque 7) (1 ∷ 2 ∷ 3 ∷ []) fresh refl (λ sh s. refl) (λ e s. refl)

run-crashes_example : run (workflow_of (some main_stage ∷ none ∷ [])) (λ s. true) 0 fresh ≡ crashed
unfolding pointers
run-crashes_example =
    run-crashes (workflow_of (some main_stage ∷ none ∷ [])) (λ s. true) 0 fresh keep_snapshot refl
      refl refl

apply_policy-attempts_example :
    Tallied
      (λ s. s.world)
      3
      0
      (apply_policy two_stages 0 (sample_ready 1 load_name third_time) run_with_backoff fresh)
apply_policy-attempts_example =
    apply_policy-attempts two_stages 0 (sample_ready 1 load_name third_time) run_with_backoff
      (λ s. s.world) 2 fresh tt
      (record { by_call = λ s. refl; by_sleep = λ d s. refl; awake = λ d w. refl }) refl

-- The labels of the steps of the workflow, and of every other pointer.
abbrev label_by : Bool → Bool → Bytes × Bytes
label_by is_one is_two =
    if is_one
    then (main_name, load_name)
    else if is_two
    then (main_name, save_name)
    else (back_name, undo_name)

abbrev label : ℕ → Bytes × Bytes
label p = label_by (p == 1) (p == 2)

resumed-named :
    (b d : Bool) (c : StepState)
    → (if b then some loaded else none) ≡ some c
    → (c.current_stage ≡ (label_by b d).0) × (c.current_step ≡ (label_by b d).1)
resumed-named false d c e = cc
resumed-named true d c e = (
  ap (λ o. elim o [ none ↦ main_name | some x ↦ x.current_stage ]) (sym e),
  ap (λ o. elim o [ none ↦ load_name | some x ↦ x.current_step ]) (sym e),
)

true_false : (A : Type 0) → true ≡ false → A
true_false A h = cc

resumed-apart :
    (q p : ℕ) (a x b d : Bool) (c : StepState)
    → (q == 1) ≡ a
    → (p == 1) ≡ b
    → (if a then some loaded else none) ≡ some c
    → (label_by a x).1 ≡ (label_by b d).1
    → q ≡ p
resumed-apart q p false x b d c f g e l = cc
resumed-apart q p true x true d c f g e l = (==_iff q 1).0 f ∙ sym ((==_iff p 1).0 g)
resumed-apart q p true x false true c f g e l = true_false (q ≡ p) (ap (same load_name) l)
resumed-apart q p true x false false c f g e l = true_false (q ≡ p) (ap (same load_name) l)

set_snapshot-get_snapshot_example :
    ((set_snapshot two_stages.stages (get_snapshot (1 ∷ 2 ∷ 3 ∷ []) resumed) fresh).state
      ≡ resumed.state)
    × ((set_snapshot two_stages.stages (get_snapshot (1 ∷ 2 ∷ 3 ∷ []) resumed) fresh).vars ≡ none)
    × ((p : ℕ)
        → among p (1 ∷ 2 ∷ 3 ∷ []) ≡ true
        → (set_snapshot two_stages.stages (get_snapshot (1 ∷ 2 ∷ 3 ∷ []) resumed) fresh).cells p
          ≡ saved (resumed.cells p) (fresh.cells p))
unfolding pointers
set_snapshot-get_snapshot_example =
    set_snapshot-get_snapshot label two_stages.stages (1 ∷ 2 ∷ 3 ∷ []) resumed fresh refl
      (refl, refl, (refl, refl, (refl, refl, tt)))
      (record {
        named = λ p c e. resumed-named (p == 1) (p == 2) c e;
        apart =
            λ q p c h e f g. resumed-apart q p (q == 1) (q == 2) (p == 1) (p == 2) c refl refl e g;
      })

-- The step "load" is completed, and the others have not begun.
abbrev begun : Live ℕ
begun = live_of (λ p. some (if p == 1 then loaded else new_step_state))

current_step-Answer_example :
    Answer begun two_stages.stages (found (sample_step 1 load_name third_time))
unfolding current_step current_stage step_in last_stage last_valid or_search valid
current_step-Answer_example = current_step-Answer begun two_stages.stages
