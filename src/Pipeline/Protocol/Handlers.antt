-- ===== src/Pipeline/Protocol/Handlers.antt =====
-- The ledger through runWithRetry, executeAction and executePoll (pipeline/executor.go).
use xutils.Prelude.{
  ℕ, ℤ, zero, suc, Option, none, some, ◌≡◌, refl, true, false, inl, Bool, ◌∙◌, ap, String,
}
use xutils.Bytes.{Bytes, StepPath}
use xutils.Pipeline.Errors.{Err}
use xutils.Pipeline.State.{RunStatus, status_is_running}
use xutils.Pipeline.Definition.{Executor, ActionFunc, ActionStep, PollFunc, PollStep, RetryConfig}
use xutils.Pipeline.Machine.{Machine, M, call_action, action, check, now, sleep}
use xutils.Pipeline.Engine.Journal.{record_attempt, record_error, record_completed}
use xutils.Pipeline.Engine.Retry.{
  attempts, wait_and_retry, run_with_retry, retries_of, first_delay, uses_backoff,
}
use xutils.Pipeline.Engine.Handlers.{
  attempt_action, defer_or_fail, execute_action, call_check, poll_failed, poll_not_done, poll_done,
  poll_timed_out, poll_check, execute_poll, seal_step,
}
use xutils.Pipeline.Protocol.Ledger.{Good}
use xutils.Pipeline.Protocol.Rules.{
  SoundAt, on_result-elim, or_return-elim, when-elim, fail-Good, snapshot_last-Good, marshal-Good,
  unless_cancelled-Good, called-Sound, call_action-SoundAt,
}
use xutils.Pipeline.Protocol.Compensation.{persist_deferred-Good}
use xutils.Pipeline.Protocol.Scopes.{Live, Ready}

-- An action that keeps the ledger and the status, whatever it returns.
pub record Kept {W V : Type 0} (base : ℕ) (m : Machine W V) (out : Option Err × Machine W V)
    : Type 0 where
  pub sound : SoundAt base out.1
  pub same : out.1.run.status ≡ m.run.status

module _ {W V : Type 0} (e : Executor W V) (base : ℕ) where
  -- What follows a failed attempt.
  wait_and_retry-Kept :
      (err : Err) (delay : ℤ) (again : M W V (Option Err)) (m m0 : Machine W V)
      → ((m' : Machine W V) → SoundAt base m' → Kept base m' (again m'))
      → SoundAt base m
      → m.run.status ≡ m0.run.status
      → Kept base m0 (wait_and_retry e err delay again m)
  unfolding wait_and_retry sleep
  wait_and_retry-Kept err delay again m m0 ha s eq =
      when-elim (Kept base m0) _ _ _ m (λ _. record { sound = s; same = eq })
        (λ _.
          let m1 = record m { world = (e.sleep delay m.world).1 } in
          or_return-elim (Kept base m0) _ _ m1 (λ stop. record { sound = s; same = eq })
            (record { sound = (ha m1 s).sound; same = (ha m1 s).same ∙ eq }))

  attempts-Kept :
      (left : ℕ) (delay : ℤ) (backoff : Bool) (fn : M W V (Option Err))
      → ((m' : Machine W V) → SoundAt base m' → Kept base m' (fn m'))
      → (m : Machine W V) → SoundAt base m
      → Kept base m (attempts e left delay backoff fn m)
  unfolding attempts
  attempts-Kept zero delay backoff fn h m s = h m s
  attempts-Kept (suc left) delay backoff fn h m s =
      on_result-elim (Kept base m) _ _ _ (fn m).1
        (λ err.
          wait_and_retry-Kept err delay _ (fn m).1 m (attempts-Kept left _ backoff fn h)
            (h m s).sound (h m s).same)
        (record { sound = (h m s).sound; same = (h m s).same })

  attempt_action-Kept :
      (path : StepPath) (f : Option (ActionFunc W V)) (m : Machine W V)
      → SoundAt base m
      → Kept base m (attempt_action e path f m)
  unfolding attempt_action record_attempt record_error now call_action
  attempt_action-Kept path none m s = record { sound = s; same = refl }
  attempt_action-Kept path (some f) m s =
      let m1 : Machine W V = (record_attempt e path m).1 in
      let s2 = call_action-SoundAt action path f m1 s in
      on_result-elim (Kept base m) _ _ _ (call_action action path f m1).1
        (λ err. record { sound = s2; same = refl }) (record { sound = s2; same = refl })

  pub defer_or_fail-Good :
      (Done : RunStatus → Type 0) (path : StepPath) (err : Err) (poll : Bool) (m : Machine W V)
      → SoundAt base m
      → Good base Done (defer_or_fail e path err poll m)
  unfolding defer_or_fail
  defer_or_fail-Good Done path err poll m s =
      when-elim (Good base Done) _ _ _ m
        (λ _. persist_deferred-Good e base Done path err poll "delayed continuation" m s)
        (λ _. fail-Good e base Done err m s)

  -- The common end of a step.
  pub seal_step-Good :
      (path : StepPath) (op : String) (m : Machine W V)
      → Ready base m
      → Good base Live (seal_step e path op m)
  unfolding record_completed now
  seal_step-Good path op m r = marshal-Good e base Live m _ r.sound λ m1 s1 same.
      snapshot_last-Good e base Live op _ s1 (inl (ap status_is_running same ∙ r.is_running))

  pub execute_action-Good :
      (name : Bytes) (a : ActionStep W V) (retry : Option RetryConfig) (path : StepPath)
      (m : Machine W V)
      → Ready base m
      → Good base Live (execute_action e name a retry path m)
  unfolding execute_action run_with_retry
  execute_action-Good name a retry path m r =
      let kept =
        attempts-Kept (retries_of retry) (first_delay retry) (uses_backoff retry)
          (attempt_action e path a.action) (attempt_action-Kept path a.action) m r.sound in
      on_result-elim (Good base Live) _ _ _ _
        (λ err. defer_or_fail-Good Live path _ false _ kept.sound)
        (seal_step-Good path "action completion" _ (record {
          sound = kept.sound;
          is_running = ap status_is_running kept.same ∙ r.is_running;
        }))

  poll_failed-Good :
      (name : Bytes) (path : StepPath) (err : Err) (m : Machine W V)
      → SoundAt base m
      → Good base Live (poll_failed e name path err m)
  unfolding poll_failed record_error
  poll_failed-Good name path err m s =
      when-elim (Good base Live) _ _ _ _
        (λ _. persist_deferred-Good e base Live path _ true "delayed continuation" _ s)
        (λ _.
          unless_cancelled-Good e base Live (record_error e path err m).1 _ _ s
            (λ c. fail-Good e base Live _ _ s) (λ m' s' _. fail-Good e base Live _ _ s'))

  poll_done-Good :
      (path : StepPath) (m : Machine W V) → SoundAt base m → Good base Live (poll_done e path m)
  unfolding poll_done
  poll_done-Good path m s =
      seal_step-Good path "poll completion" _ (record { sound = s; is_running = refl })

  poll_check-Good :
      (name : Bytes) (path : StepPath) (f : Option (PollFunc W V)) (m : Machine W V)
      → SoundAt base m
      → Good base Live (poll_check e name path f m)
  unfolding poll_check record_attempt now call_check poll_not_done
  poll_check-Good name path none m s = fail-Good e base Live _ m s
  poll_check-Good name path (some f) m s =
      let m1 : Machine W V = (record_attempt e path m).1 in
      let m2 : Machine W V = (call_check e path f m1).1 in
      let s2 : SoundAt base m2 = called-Sound check path (f m1.store m1.world).2 s in
      on_result-elim (Good base Live) _ _ _ m2 (λ err. poll_failed-Good name path err m2 s2)
        (when-elim (Good base Live) _ _ _ m2 (λ _. poll_done-Good path m2 s2)
          (λ _. persist_deferred-Good e base Live path _ true "delayed continuation" _ s2))

  pub execute_poll-Good :
      (name : Bytes) (p : PollStep W V) (path : StepPath) (m : Machine W V)
      → Ready base m
      → Good base Live (execute_poll e name p path m)
  unfolding execute_poll poll_timed_out record_attempt record_error now
  execute_poll-Good name p path m r =
      when-elim (Good base Live) _ _ _ _
        (λ _.
          when-elim (Good base Live) _ _ _ _ (λ _. fail-Good e base Live _ _ r.sound)
            (λ _. poll_check-Good name path p.check _ r.sound))
        (λ _. poll_check-Good name path p.check _ r.sound)
