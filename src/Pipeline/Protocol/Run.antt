-- ===== src/Pipeline/Protocol/Run.antt =====
-- The ledger through Run (pipeline/executor.go).
use xutils.Prelude.{ℕ, ℤ, [], Option, none, some, ◌≡◌, refl, true, false, inl, inr, ap}
use xutils.Bytes.{Bytes}
use xutils.Pipeline.Errors.{Err}
use xutils.Pipeline.State.{
  RunState, RunStatus, RepeatTimeoutState, failed, is_terminal, status_is_terminal,
  status_is_running,
}
use xutils.Pipeline.Validate.{validate}
use xutils.Pipeline.Definition.{Executor, Pipeline}
use xutils.Pipeline.Machine.{now, Machine, or_return, marshal_data_unchecked}
use xutils.Pipeline.Engine.Compensate.{run_compensation}
use xutils.Pipeline.Engine.Execute.{scope_of}
use xutils.Pipeline.Engine.Start.{
  timeout_error, check_version, restore_store, resume_compensation, complete, run_steps,
  top_level_index, run_from_store, resume_checked, after_migration, resume_old, resume, run,
  run_state,
}
use xutils.Pipeline.Engine.Sequence.{execute_steps}
use xutils.Pipeline.Protocol.Ledger.{Good, Verdict}
use xutils.Pipeline.Protocol.Rules.{
  SoundAt, or_return-elim, when-elim, fail-Good, snapshot-Good, snapshot_last-Good,
  unless_cancelled-Good, ctx_err-Good,
}
use xutils.Pipeline.Protocol.Compensation.{Sticky, Failed, run_compensation-Good}
use xutils.Pipeline.Protocol.Scopes.{Live, execute_steps-Good}
use xutils.Pipeline.Protocol.Execute.{scope_of-Good}

-- The statuses of a run that has ended.
abbrev pub Ended : RunStatus → Type 0
Ended st = status_is_terminal st ≡ true

module _ {W V : Type 0} (e : Executor W V) (base : ℕ) (sticky : Sticky e) (p : Pipeline W V) where
  timeout_error-Good :
      (t : Option RepeatTimeoutState) (m : Machine W V)
      → SoundAt base m
      → m.run.status ≡ failed
      → Good base Ended (timeout_error t, m)
  timeout_error-Good none m s h = record { verdict = (s, ap status_is_terminal h) }
  timeout_error-Good (some t) m s h = fail-Good e base Ended _ m s

  after_compensation-Good :
      (out : Option Err × Machine W V)
      → Good base Failed out
      → Good base Ended (or_return out.0 (λ m. (timeout_error m.run.repeat_timeout, m)) out.1)
  unfolding or_return
  after_compensation-Good (none, m) g =
      timeout_error-Good m.run.repeat_timeout m g.verdict.0 g.verdict.1
  after_compensation-Good (some err, m) g = record { verdict = g.verdict }

  resume_compensation-Good :
      (m : Machine W V) → SoundAt base m → Good base Ended (resume_compensation e p m)
  unfolding resume_compensation marshal_data_unchecked
  resume_compensation-Good m s = snapshot-Good e base Ended "resume compensation" _ _ s λ m1 s1 _.
      after_compensation-Good (run_compensation e p.steps m1)
        (run_compensation-Good e base sticky p.steps m1 s1)

  complete-Good :
      (m : Machine W V) → SoundAt base m → Live m.run.status → Good base Ended (complete e p m)
  unfolding complete marshal_data_unchecked
  complete-Good m s h =
      when-elim (Good base Ended) (status_is_running m.run.status) _ _ m
        (λ _. snapshot_last-Good e base Ended "pipeline completion" _ s refl)
        (λ stopped. record { verdict = (s, ended m.run.status h stopped) })
    where
      ended : (st : RunStatus) → Live st → status_is_running st ≡ false → Ended st
      ended st (inl is) stopped = cc
      ended st (inr is) stopped = ap status_is_terminal is

  after_steps-Good :
      (out : Option Err × Machine W V)
      → Good base Live out
      → Good base Ended (or_return out.0 (complete e p) out.1)
  unfolding or_return
  after_steps-Good (none, m) g = complete-Good m g.verdict.0 g.verdict.1
  after_steps-Good (some err, m) g = record { verdict = g.verdict }

  run_steps-Good : (m : Machine W V) → SoundAt base m → Good base Ended (run_steps e p m)
  unfolding run_steps marshal_data_unchecked
  run_steps-Good m s =
      let scope = scope_of e p.steps p.steps in
      snapshot-Good e base Ended _ _ _ s λ m1 s1 same.
        after_steps-Good
          (execute_steps e p.steps scope (top_level_index scope m1.run.current_path) [] m1)
          (execute_steps-Good e base sticky p.steps scope _ [] m1
            (scope_of-Good e base sticky p.steps p.steps)
            (record { sound = s1; is_running = ap status_is_running same }))

  run_from_store-Good : (m : Machine W V) → SoundAt base m → Good base Ended (run_from_store e p m)
  unfolding run_from_store restore_store
  run_from_store-Good m s =
      unless_cancelled-Good e base Ended _ _ _ s
        (λ c. ctx_err-Good e base Ended m.world _ sticky s c refl)
        (λ m1 s1 _.
          when-elim (Good base Ended) _ _ _ m1 (λ _. resume_compensation-Good m1 s1)
            (λ _. run_steps-Good m1 s1))

  resume_checked-Good : (m : Machine W V) → SoundAt base m → Good base Ended (resume_checked e p m)
  unfolding resume_checked is_terminal
  resume_checked-Good m s =
      or_return-elim (Good base Ended) (check_version e p m.run) _ m
        (λ err. fail-Good e base Ended err m s)
        (when-elim (Good base Ended) (is_terminal m.run) _ _ m (λ h. record { verdict = (s, h) })
          (λ _. run_from_store-Good m s))

  after_migration-Good :
      (r : RunState) (result : Option Err) (w : W) (m : Machine W V)
      → SoundAt base m
      → Good base Ended (after_migration e p r result w m)
  unfolding after_migration now
  after_migration-Good r (some err) w m s =
      fail-Good e base Ended _ _
        (record { clean = s.clean; sequential = s.sequential; current = s.current })
  after_migration-Good r none w m s =
      snapshot-Good e base Ended "state migration" _ _
        (record { clean = s.clean; sequential = s.sequential; current = refl })
        (λ m1 s1 _. resume_checked-Good (record m1 { world = (e.now m1.world).1 }) s1)

  resume_old-Good :
      (f : Option (Bytes → ℤ → ℤ → RunState → W → RunState × Option Err × W)) (m : Machine W V)
      → SoundAt base m
      → Good base Ended (resume_old e p f m)
  unfolding resume_old
  resume_old-Good none m s = resume_checked-Good m s
  resume_old-Good (some f) m s =
      when-elim (Good base Ended) _ _ _ m (λ _. resume_checked-Good m s)
        (λ _. after_migration-Good _ _ _ m s)

  resume-Good : (m : Machine W V) → SoundAt base m → Good base Ended (resume e p m)
  unfolding resume
  resume-Good m s =
      when-elim (Good base Ended) _ _ _ m (λ _. fail-Good e base Ended _ m s)
        (λ _. resume_old-Good e.state_migrator m s)

  run-Good : (m : Machine W V) → SoundAt base m → Good base Ended (run e p m)
  unfolding run is_terminal
  run-Good m s =
      or_return-elim (Good base Ended) (validate p) _ m (λ err. fail-Good e base Ended err m s)
        (when-elim (Good base Ended) (is_terminal m.run) _ _ m (λ h. record { verdict = (s, h) })
          (λ _.
            unless_cancelled-Good e base Ended m _ _ s
              (λ c. ctx_err-Good e base Ended m.world _ sticky s c refl)
              (λ m1 s1 _.
                when-elim (Good base Ended) _ _ _ m1
                  (λ _.
                    run_from_store-Good (record m1 { run = record m1.run { version = p.version } })
                      s1)
                  (λ _. resume-Good m1 s1))))

-- For an executor whose context, once cancelled, stays cancelled, and a `RunState` of any status:
-- if `Run` returns nil, the status is terminal, no snapshot failed, every snapshot handed to the
-- persistence callback carried the revision that follows the last durable one (modulo 2^64; a migrated state brings its own), and
-- the state in memory carries the durable revision; if it returns an error, the same holds of the
-- snapshots, or the error wraps ErrSnapshotFailed, the failed snapshot was the last call of all,
-- and the state in memory kept the revision from before it.
pub run_state-Verdict :
    {W V : Type 0} (e : Executor W V) (p : Pipeline W V) (r : RunState) (w : W)
    → Sticky e
    → Verdict r.revision Ended (run_state e p r w).0 (run_state e p r w).1
unfolding run_state
run_state-Verdict {W} {V} e p r w sticky =
    let m : Machine W V = record { run = r; store = []; world = w; calls = [] } in
    let s : SoundAt r.revision m = record { clean = tt; sequential = tt; current = refl } in
    (run-Good e r.revision sticky p m s).verdict
