-- ===== src/Pipeline/Protocol/Scopes.antt =====
-- The ledger through executeSteps (pipeline/executor.go), for steps that keep it.
use xutils.Prelude.{
  ℕ, ℤ, List, [], ◌∷◌, ◌++◌, Option, none, some, ◌≡◌, refl, true, false, ◌⊎◌, inl, inr, Bool,
  is_some, if◌then◌else◌, ◌∙◌, ap, drop, zero, suc,
}
use xutils.Bytes.{Bytes, StepPath}
use xutils.Pipeline.Errors.{Err, as_repeat_timeout, is_snapshot_failed, is_deferred}
use xutils.Pipeline.State.{RunStatus, failed, status_is_running}
use xutils.Pipeline.Definition.{Executor, Steps}
use xutils.Pipeline.Machine.{
  Machine, M, when◌then◌else◌, on_result, return, or_return, marshal_data_unchecked,
}
use xutils.Pipeline.Engine.Compensate.{run_compensation}
use xutils.Pipeline.Engine.Sequence.{
  StepExec, interrupted_at, fail_without_compensation, fail_and_compensate, enter_compensation,
  fresh_error, step_error, cancelled_before, run_in_sequence, sequence_step, sequence_from,
  execute_steps,
}
use xutils.Pipeline.Protocol.Ledger.{Verdict, Good}
use xutils.Pipeline.Protocol.Rules.{
  SoundAt, when-elim, fail-Good, snapshot-Good, marshal-Good, marshal_in_world-Good,
  unless_cancelled-Good, ctx_err-Good,
}
use xutils.Pipeline.Protocol.Compensation.{Sticky, Failed, run_compensation-Good}

-- A scope that returns nil is still running, or has failed and been compensated.
abbrev pub Live : RunStatus → Type 0
Live st = (status_is_running st ≡ true) ⊎ (st ≡ failed)

pub record Ready {W V : Type 0} (base : ℕ) (m : Machine W V) : Type 0 where
  pub sound : SoundAt base m
  pub is_running : status_is_running m.run.status ≡ true

-- The steps of a scope keep the ledger.
abbrev pub AllGood : {W V : Type 0} → ℕ → List (StepExec W V) → Type 0
AllGood base [] = Unit {0}
AllGood {W} {V} base (x ∷ xs) =
    ((path : StepPath) (m : Machine W V) → Ready base m → Good base Live (x.exec path m))
    × AllGood base xs

pub AllGood-drop :
    {W V : Type 0} (base n : ℕ) (xs : List (StepExec W V))
    → AllGood base xs
    → AllGood base (drop n xs)
AllGood-drop base zero xs h = h
AllGood-drop base (suc n) [] h = tt
AllGood-drop base (suc n) (x ∷ xs) h = AllGood-drop base n xs h.1

module _ {W V : Type 0} (e : Executor W V) (base : ℕ) (sticky : Sticky e) (steps : Steps W V) where
  interrupted_at-Good :
      (w : W) (path : StepPath) (m : Machine W V)
      → SoundAt base m
      → is_some (e.ctx_err w).0 ≡ true
      → m.world ≡ (e.ctx_err w).1
      → Good base Live (interrupted_at e steps path m)
  unfolding interrupted_at
  interrupted_at-Good w path m s h at =
      marshal_in_world-Good e base Live m _ s
        λ m1 s1 _ same. ctx_err-Good e base Live w _ sticky s1 h (same ∙ at)

  fail_without_compensation-Good :
      (path : StepPath) (err : Err) (m : Machine W V)
      → SoundAt base m
      → Good base Live (fail_without_compensation e steps path err m)
  unfolding fail_without_compensation
  fail_without_compensation-Good path err m s = marshal-Good e base Live m _ s λ m1 s1 _.
      snapshot-Good e base Live "step error without compensation" _ _ s1
        λ m2 s2 _. fail-Good e base Live err m2 s2

  -- A finished compensation ends the scope with nil, or with the timeout that began it.
  compensated-Good :
      (err : Err) (out : Option Err × Machine W V)
      → Good base Failed out
      → Good base Live (
          or_return out.0
            (return (if is_some (as_repeat_timeout err) then some err else none))
            out.1)
  unfolding or_return
  compensated-Good err (none, m) g = ended (as_repeat_timeout err)
    where
      ended : (t : Option (Bytes × ℤ)) → Good base Live ((if is_some t then some err else none), m)
      ended none = record { verdict = (g.verdict.0, inr g.verdict.1) }
      ended (some t) = fail-Good e base Live err m g.verdict.0
  compensated-Good err (some failure, m) g = record { verdict = g.verdict }

  fail_and_compensate-Good :
      (path : StepPath) (err : Err) (m : Machine W V)
      → SoundAt base m
      → Good base Live (fail_and_compensate e steps path err m)
  unfolding fail_and_compensate enter_compensation
  fail_and_compensate-Good path err m s = marshal-Good e base Live _ _ s λ m1 s1 _.
      snapshot-Good e base Live "step failure before compensation" m1 _ s1 λ m2 s2 _.
        compensated-Good err (run_compensation e steps m2)
          (run_compensation-Good e base sticky steps m2 s2)

  fresh_error-Good :
      (path : StepPath) (err : Err) (m : Machine W V)
      → SoundAt base m
      → Good base Live (fresh_error e steps path err m)
  unfolding fresh_error
  fresh_error-Good path err m s =
      when-elim (Good base Live) _ _ _ m (λ _. fail-Good e base Live err m s)
        (λ _.
          when-elim (Good base Live) _ _ _ m (λ _. fail_without_compensation-Good path err m s)
            (λ _. fail_and_compensate-Good path err m s))

  step_error-Good :
      (path : StepPath) (err : Err) (m : Machine W V)
      → Verdict base Live (some err) m
      → Good base Live (step_error e steps path err m)
  unfolding step_error
  step_error-Good path err m v =
      when-elim (Good base Live) (is_snapshot_failed err) _ _ m (λ _. record { verdict = v })
        (λ h. elim v [
          | inl s ↦
              when-elim (Good base Live) (is_deferred err) _ _ m
                (λ _. fail-Good e base Live err m s)
                (λ _.
                  unless_cancelled-Good e base Live m _ _ s
                    (λ c. interrupted_at-Good m.world path _ s c refl)
                    (λ m' s' _. fresh_error-Good path err m' s'))
          | inr broken ↦ cc (h, broken.1)
        ])

  cancelled_before-Good :
      (path : StepPath) (w : W) (m : Machine W V)
      → SoundAt base m
      → is_some (e.ctx_err w).0 ≡ true
      → m.world ≡ (e.ctx_err w).1
      → Good base Live (cancelled_before e steps path m)
  unfolding cancelled_before marshal_data_unchecked
  cancelled_before-Good path w m s h at = ctx_err-Good e base Live w _ sticky s h at

  -- What a scope does with the result of a step.
  after_step-Good :
      (path : StepPath) (rest : M W V (Option Err)) (out : Option Err × Machine W V)
      → ((m' : Machine W V) → Ready base m' → Good base Live (rest m'))
      → Good base Live out
      → Good base Live (
          on_result out.0
            (step_error e steps path)
            (λ s. (when status_is_running s.run.status then rest else return none) s)
            out.1)
  unfolding on_result
  after_step-Good path rest (none, m) hr g =
      when-elim (Good base Live) (status_is_running m.run.status) _ _ m
        (λ h. hr m (record { sound = g.verdict.0; is_running = h }))
        (λ _. record { verdict = g.verdict })
  after_step-Good path rest (some err, m) hr g = step_error-Good path err m g.verdict

  run_in_sequence-Good :
      (x : StepExec W V) (path entry : StepPath) (rest : M W V (Option Err)) (m : Machine W V)
      → ((p : StepPath) (m' : Machine W V) → Ready base m' → Good base Live (x.exec p m'))
      → ((m' : Machine W V) → Ready base m' → Good base Live (rest m'))
      → Ready base m
      → Good base Live (run_in_sequence e steps x path entry rest m)
  unfolding run_in_sequence
  run_in_sequence-Good x path entry rest m hx hr r =
      let m1 : Machine W V = record m { run = record m.run { current_path = entry } } in
      after_step-Good path rest (x.exec path m1) hr
        (hx path m1 (record { sound = r.sound; is_running = r.is_running }))

  sequence_step-Good :
      (x : StepExec W V) (path entry : StepPath) (rest : M W V (Option Err)) (m : Machine W V)
      → ((p : StepPath) (m' : Machine W V) → Ready base m' → Good base Live (x.exec p m'))
      → ((m' : Machine W V) → Ready base m' → Good base Live (rest m'))
      → Ready base m
      → Good base Live (sequence_step e steps x path entry rest m)
  unfolding sequence_step
  sequence_step-Good x path entry rest m hx hr r =
      unless_cancelled-Good e base Live m _ _ r.sound
        (λ c. cancelled_before-Good path m.world _ r.sound c refl)
        (λ m' s' same.
          run_in_sequence-Good x path entry rest m' hx hr
            (record { sound = s'; is_running = ap status_is_running same ∙ r.is_running }))

  sequence_from-Good :
      (first : Bool) (xs : List (StepExec W V)) (parent at : StepPath) (m : Machine W V)
      → AllGood base xs
      → Ready base m
      → Good base Live (sequence_from e steps first xs parent at m)
  unfolding sequence_from
  sequence_from-Good first [] parent at m h r = record { verdict = (r.sound, inl r.is_running) }
  sequence_from-Good first (x ∷ xs) parent at m h r =
      when-elim (Good base Live) _ _ _ m (λ _. sequence_from-Good false xs parent at m h.1 r)
        (λ _.
          sequence_step-Good x (parent ++ x.name ∷ []) _ _ m h.0
            (λ m' r'. sequence_from-Good false xs parent at m' h.1 r') r)

  -- executeSteps keeps the ledger if its steps do.
  pub execute_steps-Good :
      (scope : List (StepExec W V)) (start : ℕ) (parent : StepPath) (m : Machine W V)
      → AllGood base scope
      → Ready base m
      → Good base Live (execute_steps e steps scope start parent m)
  unfolding execute_steps
  execute_steps-Good scope start parent m h r =
      sequence_from-Good true (drop start scope) parent m.run.current_path m
        (AllGood-drop base start scope h) r
