-- ===== src/Pipeline/Protocol/Repeating.antt =====
-- The ledger through executeRepeat (pipeline/executor.go).
use xutils.Prelude.{
  ℕ, ℤ, pos, List, [], ◌∷◌, ◌++◌, Option, none, some, true, false, Bool, ltb_ℤ, leb_ℤ, wrap64, ◌+ℤ◌,
  ◌&&◌, if◌then◌else◌,
}
use xutils.Bytes.{Bytes, StepPath}
use xutils.Bytes.Decimal.{itoa}
use xutils.Pipeline.Errors.{Err}
use xutils.Pipeline.State.{RunState, RepeatState, Time, status_is_running}
use xutils.Pipeline.Compact.{compact_repeat_iteration}
use xutils.Pipeline.Definition.{Executor, Steps, RepeatParts, RepeatFunc}
use xutils.Pipeline.Machine.{Machine, M, return, when◌then◌else◌, now, until, or_return}
use xutils.Pipeline.Engine.Journal.{record_attempt, record_error}
use xutils.Pipeline.Engine.Sequence.{StepExec, execute_steps}
use xutils.Pipeline.Engine.Repeating.{
  repeat_state, set_repeat, Entry, entry_of, is_compact, saved_iteration, late_since,
  repeat_timed_out, time_out, call_until, repeat_done, repeat_limited, next_iteration, after_until,
  ask_until, check_condition, run_children, run_iteration, start_iteration, execute_repeat,
}
use xutils.Pipeline.Protocol.Ledger.{Good}
use xutils.Pipeline.Protocol.Rules.{SoundAt, on_result-elim, when-elim, fail-Good, called-Sound}
use xutils.Pipeline.Protocol.Compensation.{Sticky, persist_deferred-Good}
use xutils.Pipeline.Protocol.Scopes.{Live, Ready, AllGood, execute_steps-Good}
use xutils.Pipeline.Protocol.Handlers.{defer_or_fail-Good, seal_step-Good}

module _ {W V : Type 0} (e : Executor W V) (base : ℕ) where
  pub time_out-Good :
      (name : Bytes) (p : RepeatParts W V) (path : StepPath) (m : Machine W V)
      → SoundAt base m
      → Good base Live (time_out e name p path m)
  unfolding time_out record_attempt record_error now
  time_out-Good name p path m s = fail-Good e base Live _ _ s

  -- The test of the deadline reads the clock and changes the world alone.
  late_since-elim :
      (P : Bool × Machine W V → Type 0) (limit : ℤ) (t : Option Time) (m : Machine W V)
      → ((late : Bool) (w : W) → P (late, record m { world = w }))
      → P (late_since e limit t m)
  unfolding late_since now
  late_since-elim P limit none m h = h false m.world
  late_since-elim P limit (some t) m h = h _ _

  deadline-elim :
      (P : Bool × Machine W V → Type 0) (b : Bool) (limit : ℤ) (t : Option Time) (m : Machine W V)
      → ((late : Bool) (w : W) → P (late, record m { world = w }))
      → P ((when b then late_since e limit t else return false) m)
  unfolding when◌then◌else◌
  deadline-elim P true limit t m h = late_since-elim P limit t m h
  deadline-elim P false limit t m h = h false m.world

  pub repeat_timed_out-elim :
      (P : Bool × Machine W V → Type 0) (p : RepeatParts W V) (s : RepeatState) (m : Machine W V)
      → ((late : Bool) (w : W) → P (late, record m { world = w }))
      → P (repeat_timed_out e p s m)
  unfolding repeat_timed_out
  repeat_timed_out-elim P p s m h = deadline-elim P _ p.max_duration s.started_at m h

  repeat_done-Good :
      (path : StepPath) (s : RepeatState) (m : Machine W V)
      → Ready base m
      → Good base Live (repeat_done e path s m)
  unfolding repeat_done set_repeat
  repeat_done-Good path s m r =
      seal_step-Good e base path "repeat completion" _
        (record { sound = r.sound; is_running = r.is_running })

  repeat_limited-Good :
      (name : Bytes) (p : RepeatParts W V) (path : StepPath) (m : Machine W V)
      → SoundAt base m
      → Good base Live (repeat_limited e name p path m)
  unfolding repeat_limited record_error
  repeat_limited-Good name p path m s = fail-Good e base Live _ _ s

  next_iteration-Good :
      (p : RepeatParts W V) (path : StepPath) (s : RepeatState) (delay : ℤ) (m : Machine W V)
      → SoundAt base m
      → Good base Live (next_iteration e p path s delay m)
  unfolding next_iteration set_repeat
  next_iteration-Good p path s delay m h = persist_deferred-Good e base Live _ _ false _ _ h

  -- Compaction leaves the revision and the status.
  compacted-elim :
      (P : RunState → Type 0) (b : Bool) (path : StepPath) (i : ℤ) (r : RunState)
      → P r
      → P (compact_repeat_iteration path i r)
      → P (if b then compact_repeat_iteration path i r else r)
  compacted-elim P true path i r h hc = hc
  compacted-elim P false path i r h hc = h

  after_compaction-Good :
      (name : Bytes) (p : RepeatParts W V) (path : StepPath) (s : RepeatState) (done stop : Bool)
      (delay : ℤ) (m : Machine W V)
      → Ready base m
      → Good base Live (
          (when done
              then repeat_done e path s
              else when stop
              then repeat_limited e name p path
              else next_iteration e p path s delay)
            m)
  after_compaction-Good name p path s done stop delay m r =
      when-elim (Good base Live) done _ _ m (λ _. repeat_done-Good path s m r)
        (λ _.
          when-elim (Good base Live) stop _ _ m (λ _. repeat_limited-Good name p path m r.sound)
            (λ _. next_iteration-Good p path s delay m r.sound))

  after_until-Good :
      (name : Bytes) (p : RepeatParts W V) (path : StepPath) (s : RepeatState) (done : Bool)
      (delay : ℤ) (m : Machine W V)
      → Ready base m
      → Good base Live (after_until e name p path s done delay m)
  unfolding after_until compact_repeat_iteration
  after_until-Good name p path s done delay m r =
      compacted-elim
        (λ run. Good base Live (
          (when done
              then repeat_done e path s
              else when ltb_ℤ (pos 0) p.max_iterations
                  && leb_ℤ p.max_iterations (wrap64 (s.iteration +ℤ pos 1))
              then repeat_limited e name p path
              else next_iteration e p path s delay)
            (record m { run = run })))
        (is_compact p.history) path s.iteration m.run
        (after_compaction-Good name p path s done _ delay m r)
        (after_compaction-Good name p path s done _ delay _
          (record { sound = r.sound; is_running = r.is_running }))

  ask_until-Good :
      (name : Bytes) (p : RepeatParts W V) (path : StepPath) (s : RepeatState)
      (f : Option (RepeatFunc W V)) (m : Machine W V)
      → Ready base m
      → Good base Live (ask_until e name p path s f m)
  unfolding ask_until record_attempt record_error now call_until
  ask_until-Good name p path s none m r = fail-Good e base Live _ m r.sound
  ask_until-Good name p path s (some f) m r =
      let m1 : Machine W V = (record_attempt e path m).1 in
      let answer = f s.iteration m1.store m1.world in
      let m2 : Machine W V = (call_until e path f s.iteration m1).1 in
      let s2 : SoundAt base m2 = called-Sound until path answer.2 r.sound in
      on_result-elim (Good base Live) _ _ _ m2
        (λ err. defer_or_fail-Good e base Live path _ false _ s2)
        (after_until-Good name p path s answer.0 answer.1 m2
          (record { sound = s2; is_running = r.is_running }))

  check_condition-Good :
      (name : Bytes) (p : RepeatParts W V) (path : StepPath) (s : RepeatState) (m : Machine W V)
      → Ready base m
      → Good base Live (check_condition e name p path s m)
  unfolding check_condition
  check_condition-Good name p path s m r =
      repeat_timed_out-elim
        (λ out.
          Good base Live
            ((when out.0 then time_out e name p path else ask_until e name p path s p.until) out.1))
        p s m
        (λ late w.
          when-elim (Good base Live) late _ _ _ (λ _. time_out-Good name p path _ r.sound)
            (λ _.
              ask_until-Good name p path s p.until _
                (record { sound = r.sound; is_running = r.is_running })))

module _ {W V : Type 0} (e : Executor W V) (base : ℕ) (sticky : Sticky e) (steps : Steps W V) where
  after_children-Good :
      (rest : M W V (Option Err)) (out : Option Err × Machine W V)
      → ((m : Machine W V) → Ready base m → Good base Live (rest m))
      → Good base Live out
      → Good base Live (
          or_return out.0
            (λ m. (when status_is_running m.run.status then rest else return none) m)
            out.1)
  unfolding or_return
  after_children-Good rest (none, m) h g =
      when-elim (Good base Live) (status_is_running m.run.status) _ _ m
        (λ r. h m (record { sound = g.verdict.0; is_running = r }))
        (λ _. record { verdict = g.verdict })
  after_children-Good rest (some err, m) h g = record { verdict = g.verdict }

  run_children-Good :
      (name : Bytes) (p : RepeatParts W V) (scope : List (StepExec W V)) (path : StepPath)
      (s : RepeatState) (start : ℕ) (m : Machine W V)
      → AllGood base scope
      → Ready base m
      → Good base Live (run_children e steps name p scope path s start m)
  unfolding run_children set_repeat
  run_children-Good name p scope path s start m h r =
      after_children-Good _ (execute_steps e steps scope start (path ++ itoa s.iteration ∷ []) m)
        (λ m' r'.
          check_condition-Good e base name p path _ _
            (record { sound = r'.sound; is_running = r'.is_running }))
        (execute_steps-Good e base sticky steps scope start _ m h r)

  run_iteration-Good :
      (name : Bytes) (p : RepeatParts W V) (scope : List (StepExec W V)) (path : StepPath)
      (old : RepeatState) (entry : Entry) (m : Machine W V)
      → AllGood base scope
      → Ready base m
      → Good base Live (run_iteration e steps name p scope path old entry m)
  unfolding run_iteration set_repeat
  run_iteration-Good name p scope path old entry m h r =
      let s : RepeatState = record old { iteration = entry.0; completed = false } in
      when-elim (Good base Live) _ _ _ _
        (λ _.
          check_condition-Good e base name p path s _
            (record { sound = r.sound; is_running = r.is_running }))
        (λ _.
          run_children-Good name p scope path s entry.1 _ h
            (record { sound = r.sound; is_running = r.is_running }))

  start_iteration-Good :
      (name : Bytes) (p : RepeatParts W V) (scope : List (StepExec W V)) (path : StepPath)
      (saved : List Bytes) (old : RepeatState) (entry : Option Entry) (m : Machine W V)
      → AllGood base scope
      → Ready base m
      → Good base Live (start_iteration e steps name p scope path saved old entry m)
  unfolding start_iteration
  start_iteration-Good name p scope path saved old none m h r = fail-Good e base Live _ m r.sound
  start_iteration-Good name p scope path saved old (some entry) m h r =
      run_iteration-Good name p scope path old entry m h r

  pub execute_repeat-Good :
      (name : Bytes) (p : RepeatParts W V) (scope : List (StepExec W V)) (path : StepPath)
      (m : Machine W V)
      → AllGood base scope
      → Ready base m
      → Good base Live (execute_repeat e steps name p scope path m)
  unfolding execute_repeat
  execute_repeat-Good name p scope path m h r =
      start_iteration-Good name p scope path (saved_iteration path m.run) (repeat_state path m.run)
        (entry_of scope path (repeat_state path m.run) m.run) m h r
