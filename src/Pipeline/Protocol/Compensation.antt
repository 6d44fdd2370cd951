-- ===== src/Pipeline/Protocol/Compensation.antt =====
-- The ledger through persistDeferred and runCompensation (pipeline/executor.go).
use xutils.Prelude.{
  ℕ, zero, suc, Option, none, some, ◌≡◌, refl, true, false, Bool, is_some, String, get_elem?,
}
use xutils.Bytes.{Bytes, StepPath}
use xutils.Pipeline.Errors.{Err, is_deferred}
use xutils.Pipeline.State.{RunStatus, failed, CompletedStep}
use xutils.Pipeline.Definition.{Executor, Steps, ActionFunc}
use xutils.Pipeline.Machine.{Machine, M, call_action, compensate, ctx_err, now}
use xutils.Pipeline.Engine.Journal.{record_error, record_next_run, persist_deferred}
use xutils.Pipeline.Engine.Compensate.{
  compensation_error, step_compensated, compensate_step, compensate_found, compensate_at,
  compensate_index, finish_compensation, compensate_from, indices_left, run_compensation,
}
use xutils.Pipeline.Protocol.Ledger.{Good}
use xutils.Pipeline.Protocol.Rules.{
  SoundAt, on_result-elim, when-elim, call_action-SoundAt, fail-Good, snapshot-Good,
  snapshot_last-Good, marshal-Good, unless_cancelled-Good, ctx_err-Good,
}

-- A cancelled context stays cancelled.
abbrev pub Sticky : {W V : Type 0} → Executor W V → Type 0
Sticky {W} e =
    (v : W) → is_some (e.ctx_err v).0 ≡ true → is_some (e.ctx_err (e.ctx_err v).1).0 ≡ true

abbrev pub Failed : RunStatus → Type 0
Failed st = st ≡ failed

module _ {W V : Type 0} (e : Executor W V) (base : ℕ) (Done : RunStatus → Type 0) where
  pub persist_deferred-Good :
      (path : StepPath) (err : Err) (poll : Bool) (op : String) (m : Machine W V)
      → SoundAt base m
      → Good base Done (persist_deferred e path err poll op m)
  unfolding persist_deferred record_next_run now
  persist_deferred-Good path err true op m s =
      marshal-Good e base Done _ _ s
        λ m1 s1 _. snapshot-Good e base Done op m1 _ s1 λ m2 s2 _. fail-Good e base Done _ m2 s2
  persist_deferred-Good path err false op m s =
      marshal-Good e base Done _ _ s
        λ m1 s1 _. snapshot-Good e base Done op m1 _ s1 λ m2 s2 _. fail-Good e base Done _ m2 s2

module _ {W V : Type 0} (e : Executor W V) (base : ℕ) (sticky : Sticky e) where
  compensation_error-Good :
      (steps : Steps W V) (original : Bytes) (i : ℕ) (name : Bytes) (path : StepPath) (err : Err)
      (m : Machine W V)
      → SoundAt base m
      → Good base Failed (compensation_error e steps original i name path err m)
  unfolding compensation_error record_error now
  compensation_error-Good steps original i name path err m s =
      unless_cancelled-Good e base Failed _ (ctx_err e) _ s
        (λ h. ctx_err-Good e base Failed m.world _ sticky s h refl)
        (λ m' s' _.
          when-elim (Good base Failed) (is_deferred err) _ _ m'
            (λ _. persist_deferred-Good e base Failed path err false _ m' s')
            (λ _. marshal-Good e base Failed (now e m').1 _ s' λ m1 s1 _.
              snapshot-Good e base Failed _ m1 _ s1 λ m2 s2 _. fail-Good e base Failed _ m2 s2))

  compensate_step-Good :
      (steps : Steps W V) (original : Bytes) (i : ℕ) (path : StepPath)
      (found : Bytes × ActionFunc W V) (rest : M W V (Option Err)) (m : Machine W V)
      → SoundAt base m
      → ((m' : Machine W V) → SoundAt base m' → Good base Failed (rest m'))
      → Good base Failed (compensate_step e steps original i path found rest m)
  unfolding compensate_step step_compensated now
  compensate_step-Good steps original i path found rest m s next =
      let m0 : Machine W V = record m { world = (e.now m.world).1 } in
      let s' = call_action-SoundAt compensate path found.1 m0 s in
      on_result-elim (Good base Failed) _ _ _ (call_action compensate path found.1 m0).1
        (λ err.
          compensation_error-Good steps original i found.0 path err
            (call_action compensate path found.1 m0).1 s')
        (marshal-Good e base Failed _ _ s' λ m1 s1 _.
          snapshot-Good e base Failed _ m1 _ s1
            λ m2 s2 _. next (record m2 { world = (e.now m2.world).1 }) s2)

  compensate_found-Good :
      (steps : Steps W V) (original : Bytes) (i : ℕ) (path : StepPath)
      (found : Option (Bytes × ActionFunc W V)) (rest : M W V (Option Err)) (m : Machine W V)
      → SoundAt base m
      → ((m' : Machine W V) → SoundAt base m' → Good base Failed (rest m'))
      → Good base Failed (compensate_found e steps original i path found rest m)
  unfolding compensate_found
  compensate_found-Good steps original i path none rest m s next = next _ s
  compensate_found-Good steps original i path (some found) rest m s next =
      compensate_step-Good steps original i path found rest m s next

  compensate_at-Good :
      (steps : Steps W V) (original : Bytes) (i : ℕ) (cs : CompletedStep)
      (rest : M W V (Option Err)) (m : Machine W V)
      → SoundAt base m
      → ((m' : Machine W V) → SoundAt base m' → Good base Failed (rest m'))
      → Good base Failed (compensate_at e steps original i cs rest m)
  unfolding compensate_at
  compensate_at-Good steps original i cs rest m s next =
      when-elim (Good base Failed) cs.has_compensator _ _ m
        (λ _.
          unless_cancelled-Good e base Failed m (ctx_err e) _ s
            (λ h. ctx_err-Good e base Failed m.world _ sticky s h refl)
            (λ m' s' _. compensate_found-Good steps original i cs.path _ rest m' s' next))
        (λ _. next _ s)

  compensate_from-Good :
      (steps : Steps W V) (original : Bytes) (n : ℕ) (m : Machine W V)
      → SoundAt base m
      → Good base Failed (compensate_from e steps original n m)
  unfolding compensate_from finish_compensation
  compensate_from-Good steps original zero m s =
      marshal-Good e base Failed _ _ s λ m' s' same. snapshot_last-Good e base Failed _ m' s' same
  compensate_from-Good steps original (suc i) m s =
      step_back (get_elem? m.run.completed_steps i)
        (λ m' s'. compensate_from-Good steps original i m' s')
    where
      step_back :
          (found : Option CompletedStep)
          → ((m' : Machine W V)
              → SoundAt base m'
              → Good base Failed (compensate_from e steps original i m'))
          → Good base Failed
              (compensate_index e steps original i found (compensate_from e steps original i) m)
      step_back none next = fail-Good e base Failed _ m s
      step_back (some cs) next = compensate_at-Good steps original i cs _ m s next

  -- runCompensation, from any sound machine: nil only with the status failed.
  pub run_compensation-Good :
      (steps : Steps W V) (m : Machine W V)
      → SoundAt base m
      → Good base Failed (run_compensation e steps m)
  unfolding run_compensation
  run_compensation-Good steps m s =
      compensate_from-Good steps m.run.error (indices_left m.run.compensation_index) m s
