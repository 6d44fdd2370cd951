-- ===== src/Pipeline/Rollback/Entry.antt =====
-- What the failure of a step undoes (executeSteps in pipeline/executor.go).
use xutils.Prelude.{
  ℕ, zero, suc, List, [], Option, none, some, ◌≡◌, refl, length, if◌then◌else◌, sub_ℕ, ◌∙◌, ap,
  arith, is_some,
}
use xutils.Bytes.{StepPath}
use xutils.Pipeline.Errors.{Err, as_repeat_timeout}
use xutils.Pipeline.Definition.{Executor, Steps}
use xutils.Pipeline.Machine.{Machine, M, return, or_return, marshal_data, snapshot}
use xutils.Pipeline.Engine.Compensate.{indices_left, run_compensation}
use xutils.Pipeline.Engine.Sequence.{enter_compensation, fail_and_compensate}
use xutils.Pipeline.Protocol.Compensation.{Sticky}
use xutils.Pipeline.Rollback.Plan.{
  due, undone_then, plan, Quiet, plan-Quiet, marshal-Quiet, snapshot-Quiet,
}
use xutils.Pipeline.Rollback.Loop.{run_compensation_complete}

-- The index at which compensation begins covers all completed steps.
indices_left-last : (n : ℕ) → indices_left (sub_ℕ n 1) ≡ n
indices_left-last zero = refl
indices_left-last (suc n) = ground arith

module _ {W V : Type 0} (e : Executor W V) (steps : Steps W V) (sticky : Sticky e) where
  -- A nil result undoes the plan of `m`.
  record Undoes (ps : List StepPath) (out : Option Err × Machine W V) : Type 0 where
    pub when_nil : out.0 ≡ none → undone_then out.1.calls [] ≡ ps

  stop-Undoes : (ps : List StepPath) (err : Err) (m : Machine W V) → Undoes ps (some err, m)
  stop-Undoes ps err m = record { when_nil = λ h. cc }

  next-Undoes :
      (m : Machine W V) (ps : List StepPath) (out : Option Err × Machine W V)
      (k : M W V (Option Err))
      → Quiet m out.1
      → ((m' : Machine W V) → Quiet m m' → Undoes ps (k m'))
      → Undoes ps (or_return out.0 k out.1)
  unfolding or_return
  next-Undoes m ps (none, m') k q h = h m' q
  next-Undoes m ps (some err, m') k q h = stop-Undoes ps err m'

  after_rollback-Undoes :
      (ps : List StepPath) (err : Err) (out : Option Err × Machine W V)
      → (out.0 ≡ none → undone_then out.1.calls [] ≡ ps)
      → Undoes ps (
          or_return out.0
            (return (if is_some (as_repeat_timeout err) then some err else none))
            out.1)
  unfolding or_return
  after_rollback-Undoes ps err (none, m) h = record { when_nil = λ _. h refl }
  after_rollback-Undoes ps err (some failure, m) h = stop-Undoes ps failure m

  fail_and_compensate-Undoes :
      (path : StepPath) (err : Err) (m : Machine W V)
      → Undoes
          (undone_then m.calls (due steps m.run.completed_steps (length m.run.completed_steps)))
          (fail_and_compensate e steps path err m)
  unfolding fail_and_compensate enter_compensation
  fail_and_compensate-Undoes path err m =
      let entered : Machine W V = record m {
        run = enter_compensation (e.error_text err) path err m.run;
      } in
      let all : plan steps entered
          ≡ undone_then m.calls (due steps m.run.completed_steps (length m.run.completed_steps)) =
        ap (λ n. undone_then m.calls (due steps m.run.completed_steps n))
          (indices_left-last (length m.run.completed_steps)) in
      next-Undoes entered _ (marshal_data e entered) _
        (marshal-Quiet e entered entered (record { index = refl; done = refl; undone = λ r. refl }))
        (λ m1 q1.
          next-Undoes entered _ (snapshot e "step failure before compensation" m1) _
            (snapshot-Quiet e "step failure before compensation" entered m1 q1)
            (λ m2 q2. after_rollback-Undoes _ err (run_compensation e steps m2) (λ nil.
              run_compensation_complete e steps m2 sticky nil
              ∙ plan-Quiet steps entered m2 q2
              ∙ all)))

-- A step has failed with an error that calls for compensation. If its scope returns nil, every
-- completed step of the run that was recorded with a compensator, and still has one in the definition,
-- has been compensated, exactly once and from the last one completed to the first. The context, once cancelled, is taken to stay cancelled.
pub fail_and_compensate-undoes_all :
    {W V : Type 0} (e : Executor W V) (steps : Steps W V) (path : StepPath) (err : Err)
    (m : Machine W V)
    → Sticky e
    → (fail_and_compensate e steps path err m).0 ≡ none
    → undone_then (fail_and_compensate e steps path err m).1.calls []
      ≡ undone_then m.calls (due steps m.run.completed_steps (length m.run.completed_steps))
fail_and_compensate-undoes_all e steps path err m sticky nil =
    (fail_and_compensate-Undoes e steps sticky path err m).when_nil nil
