-- ===== src/Pipeline/Rollback/Loop.antt =====
-- The plan of what to undo, through runCompensation (pipeline/executor.go).
use xutils.Prelude.{
  ℕ, zero, suc, ℤ, pos, negsuc, [], ◌∷◌, Option, none, some, ◌≡◌, refl, Bool, ◌&&◌, get_elem?,
  if◌then◌else◌, subst, ◌∙◌, sym, ap, arith, is_some,
}
use xutils.Bytes.{Bytes}
use xutils.Pipeline.Errors.{Err}
use xutils.Pipeline.State.{CompletedStep, failed}
use xutils.Pipeline.Definition.{Executor, Steps, ActionFunc}
use xutils.Pipeline.Machine.{Machine, M, call_action, marshal_data, now}
use xutils.Pipeline.Engine.Lookup.{find_step}
use xutils.Pipeline.Engine.Compensate.{
  compensator_of, compensate_step, compensate_found, compensate_at, compensate_index,
  finish_compensation, compensate_from, indices_left, run_compensation,
}
use xutils.Pipeline.Protocol.Compensation.{Sticky}
use xutils.Pipeline.Protocol.Rules.{when-elim}
use xutils.Pipeline.Rollback.Plan.{
  due_at, due, undone_then, plan, Outcome, Planned, Quiet, stop-Planned, next-Planned, last-Planned,
  snapshot-Quiet, marshal-Quiet,
}
use xutils.Pipeline.Rollback.Compensators.{
  Rest, unless_cancelled-Planned, remaining-Planned, indices_left-sub, after_compensator-Planned,
}

module _ {W V : Type 0} (e : Executor W V) (steps : Steps W V) where
  module _ (sticky : Sticky e) where
    compensate_found-Planned :
        (original : Bytes) (i : ℕ) (c : CompletedStep) (found : Option (Bytes × ActionFunc W V))
        (rest : M W V (Option Err)) (m0 m : Machine W V)
        → Rest e steps sticky i rest
        → m0.run.compensation_index ≡ pos i
        → plan steps m0
          ≡ undone_then m0.calls (
              if is_some found
              then c.path ∷ due steps m0.run.completed_steps i
              else due steps m0.run.completed_steps i)
        → Quiet m0 m
        → Planned steps (plan steps m0) (compensate_found e steps original i c.path found rest m)
    unfolding compensate_found compensate_step call_action now
    compensate_found-Planned original i c none rest m0 m h at eq q =
        remaining-Planned e steps sticky i rest m0 _ h (indices_left-sub e steps sticky i) (
          q.undone _
          ∙ ap (undone_then m0.calls) (
              ap (due steps m.run.completed_steps) (indices_left-sub e steps sticky i)
              ∙ ap (λ d. due steps d i) q.done)
          ∙ sym eq)
    compensate_found-Planned original i c (some (name, f)) rest m0 m h at eq q =
        after_compensator-Planned e steps sticky (f m.store (e.now m.world).1).0 original i name
          c.path rest m0 m _ h at eq q refl refl

    compensate_at-Planned :
        (original : Bytes) (i : ℕ) (c : CompletedStep) (rest : M W V (Option Err)) (m : Machine W V)
        → Rest e steps sticky i rest
        → m.run.compensation_index ≡ pos i
        → get_elem? m.run.completed_steps i ≡ some c
        → Planned steps (plan steps m) (compensate_at e steps original i c rest m)
    unfolding compensate_at
    compensate_at-Planned original i c rest m h at here =
        let eq : plan steps m
            ≡ undone_then m.calls (due_at steps (some c) (due steps m.run.completed_steps i)) =
          ap (λ j. undone_then m.calls (due steps m.run.completed_steps (indices_left j))) at
          ∙ ap (λ o. undone_then m.calls (due_at steps o (due steps m.run.completed_steps i)))
              here in
        when-elim (Planned steps (plan steps m)) c.has_compensator _ _ m
          (λ yes.
            unless_cancelled-Planned e steps sticky m m _
              (record { index = refl; done = refl; undone = λ r. refl })
              (λ m1 q1.
                compensate_found-Planned original i c (compensator_of (find_step steps c.path)) rest
                  m m1 h at
                  (eq
                    ∙ ap
                        (λ (b : Bool). undone_then m.calls (
                          if b && is_some (compensator_of (find_step steps c.path))
                          then c.path ∷ due steps m.run.completed_steps i
                          else due steps m.run.completed_steps i))
                        yes)
                  q1))
          (λ no. remaining-Planned e steps sticky i rest m _ h (indices_left-sub e steps sticky i) (
            ap (λ j. undone_then m.calls (due steps m.run.completed_steps j))
              (indices_left-sub e steps sticky i)
            ∙ sym (
                eq
                ∙ ap
                    (λ (b : Bool). undone_then m.calls (
                      if b && is_some (compensator_of (find_step steps c.path))
                      then c.path ∷ due steps m.run.completed_steps i
                      else due steps m.run.completed_steps i))
                    no)))

    compensate_index-Planned :
        (original : Bytes) (i : ℕ) (c : Option CompletedStep) (rest : M W V (Option Err))
        (m : Machine W V)
        → Rest e steps sticky i rest
        → m.run.compensation_index ≡ pos i
        → get_elem? m.run.completed_steps i ≡ c
        → Planned steps (plan steps m) (compensate_index e steps original i c rest m)
    unfolding compensate_index
    compensate_index-Planned original i none rest m h at here =
        stop-Planned steps m m _ (record { index = refl; done = refl; undone = λ r. refl })
    compensate_index-Planned original i (some c) rest m h at here =
        compensate_at-Planned original i c rest m h at here

    finish_compensation-Planned :
        (m : Machine W V)
        → indices_left m.run.compensation_index ≡ 0
        → Planned steps (plan steps m) (finish_compensation e steps m)
    unfolding finish_compensation
    finish_compensation-Planned m left =
        let m2 : Machine W V = record m {
          run = record m.run { status = failed; compensation_index = negsuc 0 };
        } in
        subst (λ ps. Planned steps ps (finish_compensation e steps m))
          (ap (λ n. undone_then m.calls (due steps m.run.completed_steps n)) (sym left))
          (next-Planned steps m2 (marshal_data e m2) _
            (marshal-Quiet e m2 m2 (record { index = refl; done = refl; undone = λ r. refl }))
            (λ m3 q3.
              last-Planned steps m2 _ (snapshot-Quiet e "compensation completion" m2 m3 q3) refl))

    pos_of_left : (z : ℤ) (i : ℕ) → indices_left z ≡ suc i → z ≡ pos i
    pos_of_left (pos j) i h = ap pos (omega (arith, h))
    pos_of_left (negsuc j) i h = cc

    compensate_from-Planned :
        (original : Bytes) (n : ℕ) → Rest e steps sticky n (compensate_from e steps original n)
    unfolding compensate_from
    compensate_from-Planned original zero m left = finish_compensation-Planned m left
    compensate_from-Planned original (suc i) m left =
        compensate_index-Planned original i (get_elem? m.run.completed_steps i) _ m
          (compensate_from-Planned original i) (pos_of_left _ i left) refl

    run_compensation-Planned :
        (m : Machine W V) → Planned steps (plan steps m) (run_compensation e steps m)
    unfolding run_compensation
    run_compensation-Planned m =
        compensate_from-Planned m.run.error (indices_left m.run.compensation_index) m refl

index_of_nil :
    {W V : Type 0} (e : Executor W V) (steps : Steps W V) (r : Option Err) (m : Machine W V)
    → Outcome r m
    → r ≡ none
    → m.run.compensation_index ≡ negsuc 0
index_of_nil e steps none m o h = o
index_of_nil e steps (some err) m o h = cc

-- Whatever runCompensation returns (nil, a compensator's error, a deferral, a cancellation or a
-- failed snapshot), the steps compensated with success so far, in the order of the calls, followed
-- by those still due by the compensation index of the state it leaves, the last completed first,
-- are those compensated before it followed by those that were due: no compensator is skipped,
-- repeated or run out of order. The context, once cancelled, is taken to stay cancelled.
pub run_compensation-order :
    {W V : Type 0} (e : Executor W V) (steps : Steps W V) (m : Machine W V)
    → Sticky e
    → undone_then (run_compensation e steps m).1.calls (
        due steps
          (run_compensation e steps m).1.run.completed_steps
          (indices_left (run_compensation e steps m).1.run.compensation_index))
      ≡ undone_then m.calls
          (due steps m.run.completed_steps (indices_left m.run.compensation_index))
run_compensation-order e steps m sticky = (run_compensation-Planned e steps sticky m).same

-- If runCompensation returns nil, under the same condition on the context, every compensator that
-- was due has been called with success, exactly once, from the last completed step to the first.
pub run_compensation_complete :
    {W V : Type 0} (e : Executor W V) (steps : Steps W V) (m : Machine W V)
    → Sticky e
    → (run_compensation e steps m).0 ≡ none
    → undone_then (run_compensation e steps m).1.calls []
      ≡ undone_then m.calls
          (due steps m.run.completed_steps (indices_left m.run.compensation_index))
run_compensation_complete e steps m sticky ended =
    let out = run_compensation e steps m in
    let planned = run_compensation-Planned e steps sticky m in
    let index : out.1.run.compensation_index ≡ negsuc 0 =
      index_of_nil e steps out.0 out.1 planned.outcome ended in
    ap (λ i. undone_then out.1.calls (due steps out.1.run.completed_steps (indices_left i)))
      (sym index)
    ∙ planned.same
