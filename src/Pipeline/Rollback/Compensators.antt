-- ===== src/Pipeline/Rollback/Compensators.antt =====
-- The plan of what to undo, through the call of one compensator (pipeline/executor.go).
use xutils.Prelude.{
  ℕ, zero, suc, pos, List, ◌∷◌, Option, none, some, ◌≡◌, refl, true, false, sub_ℕ, subst, ◌∙◌, sym,
  ap, arith, is_some, String,
}
use xutils.Bytes.{Bytes, StepPath}
use xutils.Pipeline.Errors.{Err}
use xutils.Pipeline.Definition.{Executor, Steps}
use xutils.Pipeline.Machine.{
  compensate, called, Machine, M, ◌>>=◌, on_result, unless_cancelled, now, ctx_err,
}
use xutils.Pipeline.Engine.Journal.{record_error, persist_deferred, record_next_run}
use xutils.Pipeline.Engine.Compensate.{compensation_error, step_compensated, indices_left}
use xutils.Pipeline.Protocol.Compensation.{Sticky}
use xutils.Pipeline.Protocol.Rules.{when-elim}
use xutils.Pipeline.Rollback.Plan.{
  due, undone_then, plan, Planned, Quiet, plan-Quiet, stop-Planned, save-Planned,
}

module _ {W V : Type 0} (e : Executor W V) (steps : Steps W V) where
  persist_deferred-Planned :
      (path : StepPath) (err : Err) (op : String) (m0 m : Machine W V)
      → Quiet m0 m
      → Planned steps (plan steps m0) (persist_deferred e path err false op m)
  unfolding persist_deferred record_next_run now
  persist_deferred-Planned path err op m0 m q =
      save-Planned e steps op m0 _ _ (record { index = q.index; done = q.done; undone = q.undone })
        (λ m1 q1. stop-Planned steps m0 m1 _ q1)

  module _ (sticky : Sticky e) where
    ended-Planned :
        (m0 m : Machine W V) (r : Option Err)
        → Quiet m0 m
        → is_some r ≡ true
        → Planned steps (plan steps m0) (r, m)
    ended-Planned m0 m none q h = cc
    ended-Planned m0 m (some err) q h = stop-Planned steps m0 m err q

    pub unless_cancelled-Planned :
        (m0 m : Machine W V) (rest : M W V (Option Err))
        → Quiet m0 m
        → ((m' : Machine W V) → Quiet m0 m' → Planned steps (plan steps m0) (rest m'))
        → Planned steps (plan steps m0) (unless_cancelled e (ctx_err e) rest m)
    unfolding unless_cancelled ctx_err
    unless_cancelled-Planned m0 m rest q h =
        let q1 : Quiet m0 (record m { world = (e.ctx_err m.world).1 }) = record {
          index = q.index;
          done = q.done;
          undone = q.undone;
        } in
        when-elim (Planned steps (plan steps m0)) (is_some (e.ctx_err m.world).0) _ rest _
          (λ c.
            ended-Planned m0 _ _ (record { index = q.index; done = q.done; undone = q.undone })
              (sticky m.world c))
          (λ _. h _ q1)

    -- only the world has changed since
    pub timed-Quiet : (m0 m : Machine W V) (w : W) → Quiet m0 m → Quiet m0 (record m { world = w })
    timed-Quiet m0 m w q = record { index = q.index; done = q.done; undone = q.undone }

    compensation_error-Planned :
        (original : Bytes) (i : ℕ) (name : Bytes) (path : StepPath) (err : Err) (m0 m : Machine W V)
        → m0.run.compensation_index ≡ pos i
        → Quiet m0 m
        → Planned steps (plan steps m0) (compensation_error e steps original i name path err m)
    unfolding compensation_error record_error now
    compensation_error-Planned original i name path err m0 m at q =
        unless_cancelled-Planned m0 _ _
          (record { index = sym at; done = q.done; undone = q.undone })
          (λ m1 q1.
            when-elim (Planned steps (plan steps m0)) _ _ _ m1
              (λ _. persist_deferred-Planned path err _ m0 m1 q1)
              (λ _.
                save-Planned e steps _ m0 (record m1 { world = (e.now m1.world).1 }) _
                  (timed-Quiet m0 m1 _ q1) (λ m2 q2. stop-Planned steps m0 m2 _ q2)))

    -- What is left to do from index i on, without the step at it.
    abbrev pub Rest : ℕ → M W V (Option Err) → Type 0
    Rest i rest =
        (m : Machine W V)
        → indices_left m.run.compensation_index ≡ i
        → Planned steps (plan steps m) (rest m)

    pub indices_left-sub : (i : ℕ) → indices_left (sub_ℕ i 1) ≡ i
    indices_left-sub zero = refl
    indices_left-sub (suc i) = ground arith

    -- The rest at a machine with the plan of another one.
    pub remaining-Planned :
        (i : ℕ) (rest : M W V (Option Err)) (m0 m : Machine W V)
        → Rest i rest
        → indices_left m.run.compensation_index ≡ i
        → plan steps m ≡ plan steps m0
        → Planned steps (plan steps m0) (rest m)
    remaining-Planned i rest m0 m h left same =
        subst (λ ps. Planned steps ps (rest m)) same (h m left)

    step_compensated-Planned :
        (i : ℕ) (rest : M W V (Option Err)) (path : StepPath) (m0 m : Machine W V)
        → Rest i rest
        → plan steps m0 ≡ undone_then m0.calls (path ∷ due steps m0.run.completed_steps i)
        → m.run.completed_steps ≡ m0.run.completed_steps
        → ((r : List StepPath) → undone_then m.calls r ≡ undone_then m0.calls (path ∷ r))
        → Planned steps (plan steps m0) (step_compensated e steps i rest m)
    unfolding step_compensated now
    step_compensated-Planned i rest path m0 m h eq done undone =
        let m2 : Machine W V = record m { run = record m.run { compensation_index = sub_ℕ i 1 } } in
        let same : plan steps m2 ≡ plan steps m0 =
          undone _
          ∙ ap (λ ps. undone_then m0.calls (path ∷ ps))
              (ap (due steps m.run.completed_steps) (indices_left-sub i)
                ∙ ap (λ d. due steps d i) done)
          ∙ sym eq in
        subst (λ ps. Planned steps ps (step_compensated e steps i rest m)) same
          (save-Planned e steps _ m2 m2 (do _ ← now e; rest)
            (record { index = refl; done = refl; undone = λ r. refl })
            (λ m' q.
              let later : Machine W V = record m' { world = (e.now m'.world).1 } in
              remaining-Planned i rest m2 later h (ap indices_left q.index ∙ indices_left-sub i)
                (plan-Quiet steps m2 later (timed-Quiet m2 m' _ q))))

    -- What follows a call of a compensator, with its result.
    pub after_compensator-Planned :
        (r : Option Err) (original : Bytes) (i : ℕ) (name : Bytes) (path : StepPath)
        (rest : M W V (Option Err)) (m0 m m1 : Machine W V)
        → Rest i rest
        → m0.run.compensation_index ≡ pos i
        → plan steps m0 ≡ undone_then m0.calls (path ∷ due steps m0.run.completed_steps i)
        → Quiet m0 m
        → m1.run ≡ m.run
        → m1.calls ≡ called compensate path r ∷ m.calls
        → Planned steps (plan steps m0) (
            on_result r
              (compensation_error e steps original i name path)
              (step_compensated e steps i rest)
              m1)
    unfolding on_result
    after_compensator-Planned none original i name path rest m0 m m1 h at eq q same calls =
        step_compensated-Planned i rest path m0 m1 h eq (ap (λ r. r.completed_steps) same ∙ q.done)
          (λ r. ap (λ cs. undone_then cs r) calls ∙ q.undone (path ∷ r))
    after_compensator-Planned (some err) original i name path rest m0 m m1 h at eq q same calls =
        compensation_error-Planned original i name path err m0 m1 at (record {
          index = ap (λ r. r.compensation_index) same ∙ q.index;
          done = ap (λ r. r.completed_steps) same ∙ q.done;
          undone = λ r. ap (λ cs. undone_then cs r) calls ∙ q.undone r;
        })
