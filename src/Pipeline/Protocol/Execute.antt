-- ===== src/Pipeline/Protocol/Execute.antt =====
-- The ledger through executeStep, for every step of a definition (pipeline/executor.go).
use xutils.Prelude.{ℕ, Option, none, some, refl, false, ◌∙◌, ap}
use xutils.Bytes.{Bytes, StepPath}
use xutils.Pipeline.Errors.{Err}
use xutils.Pipeline.State.{status_is_running}
use xutils.Pipeline.Definition.{
  Executor, Step, step, StepParts, ActionFunc, ActionStep, PollStep, BranchField, no_branch, branch,
  RepeatField, no_repeat, repeat, Steps, end, then_step, Paths, no_paths, path,
}
use xutils.Pipeline.Machine.{Machine, M, when◌then◌else◌, or_return, call_action, on_enter, now}
use xutils.Pipeline.Engine.Journal.{record_attempt, record_error}
use xutils.Pipeline.Engine.Repeating.{repeat_state, set_repeat, time_out, ensure_repeat_started}
use xutils.Pipeline.Engine.Execute.{
  BranchExec, not_branch, branching, RepeatExec, not_repeat, repeating, dispatch_repeat,
  dispatch_branch, dispatch_poll, dispatch, check_deadline, start_repeat, enter_failed,
  run_on_enter, execute_step, scope_of, step_of, branch_of, repeat_of, paths_of,
}
use xutils.Pipeline.Protocol.Ledger.{Good}
use xutils.Pipeline.Protocol.Rules.{
  SoundAt, on_result-elim, when-elim, fail-Good, snapshot-Good, call_action-SoundAt, Continues,
  Next,
}
use xutils.Pipeline.Protocol.Compensation.{Sticky}
use xutils.Pipeline.Protocol.Scopes.{Live, Ready, AllGood}
use xutils.Pipeline.Protocol.Handlers.{execute_action-Good, execute_poll-Good, defer_or_fail-Good}
use xutils.Pipeline.Protocol.Branching.{PathsGood, execute_branch-Good}
use xutils.Pipeline.Protocol.Repeating.{time_out-Good, repeat_timed_out-elim, execute_repeat-Good}

-- The sub-pipelines of a step keep the ledger.
abbrev BranchGood : {W V : Type 0} → ℕ → BranchExec W V → Type 0
BranchGood base not_branch = Unit {0}
BranchGood base (branching f paths) = PathsGood base paths

abbrev RepeatGood : {W V : Type 0} → ℕ → RepeatExec W V → Type 0
RepeatGood base not_repeat = Unit {0}
RepeatGood base (repeating p scope) = AllGood base scope

-- A method that keeps the ledger wherever it starts.
abbrev Keeps : {W V : Type 0} → ℕ → M W V (Option Err) → Type 0
Keeps {W} {V} base k = (m : Machine W V) → Ready base m → Good base Live (k m)

module _ {W V : Type 0} (e : Executor W V) (base : ℕ) (sticky : Sticky e) (steps : Steps W V) where
  dispatch_repeat-Good :
      (p : StepParts W V) (r : RepeatExec W V) (at : StepPath)
      → RepeatGood base r
      → Keeps base (dispatch_repeat e steps p r at)
  unfolding dispatch_repeat
  dispatch_repeat-Good p not_repeat at h m ready = fail-Good e base Live _ m ready.sound
  dispatch_repeat-Good p (repeating q scope) at h m ready =
      execute_repeat-Good e base sticky steps p.name q scope at m h ready

  dispatch_branch-Good :
      (p : StepParts W V) (b : BranchExec W V) (r : RepeatExec W V) (at : StepPath)
      → BranchGood base b
      → RepeatGood base r
      → Keeps base (dispatch_branch e steps p b r at)
  unfolding dispatch_branch
  dispatch_branch-Good p not_branch r at hb hr m = dispatch_repeat-Good p r at hr m
  dispatch_branch-Good p (branching f paths) r at hb hr m =
      execute_branch-Good e base sticky steps p.name f paths at m hb

  dispatch_poll-Good :
      (p : StepParts W V) (q : Option (PollStep W V)) (b : BranchExec W V) (r : RepeatExec W V)
      (at : StepPath)
      → BranchGood base b
      → RepeatGood base r
      → Keeps base (dispatch_poll e steps p q b r at)
  unfolding dispatch_poll
  dispatch_poll-Good p none b r at hb hr m = dispatch_branch-Good p b r at hb hr m
  dispatch_poll-Good p (some q) b r at hb hr m = execute_poll-Good e base p.name q at m

  dispatch-Good :
      (p : StepParts W V) (a : Option (ActionStep W V)) (b : BranchExec W V) (r : RepeatExec W V)
      (at : StepPath)
      → BranchGood base b
      → RepeatGood base r
      → Keeps base (dispatch e steps p a b r at)
  unfolding dispatch
  dispatch-Good p none b r at hb hr m = dispatch_poll-Good p p.poll b r at hb hr m
  dispatch-Good p (some a) b r at hb hr m = execute_action-Good e base p.name a p.retry at m

  check_deadline-Good :
      (name : Bytes) (r : RepeatExec W V) (at : StepPath) (rest : M W V (Option Err))
      → Keeps base rest
      → Keeps base (check_deadline e steps name r at rest)
  unfolding check_deadline
  check_deadline-Good name not_repeat at rest h m ready = h m ready
  check_deadline-Good name (repeating q scope) at rest h m ready =
      when-elim (Good base Live) _ _ _ m
        (λ _.
          repeat_timed_out-elim e base
            (λ out. Good base Live ((when out.0 then time_out e name q at else rest) out.1)) q
            (repeat_state at m.run) m
            (λ late w.
              when-elim (Good base Live) late _ _ _
                (λ _. time_out-Good e base name q at _ ready.sound)
                (λ _. h _ (record { sound = ready.sound; is_running = ready.is_running }))))
        (λ _. h m ready)

  enter_failed-Good :
      (name : Bytes) (at : StepPath) (err : Err) (m : Machine W V)
      → SoundAt base m
      → Good base Live (enter_failed e steps name at err m)
  unfolding enter_failed record_attempt record_error now
  enter_failed-Good name at err m s = defer_or_fail-Good e base Live at _ false _ s

  run_on_enter-Good :
      (name : Bytes) (f : Option (ActionFunc W V)) (r : RepeatExec W V) (at : StepPath)
      (rest : M W V (Option Err))
      → Keeps base rest
      → Keeps base (run_on_enter e steps name f r at rest)
  unfolding run_on_enter call_action
  run_on_enter-Good name none r at rest h m ready = h m ready
  run_on_enter-Good name (some f) r at rest h m ready =
      let m1 : Machine W V = (call_action on_enter at f m).1 in
      let s1 : SoundAt base m1 = call_action-SoundAt on_enter at f m ready.sound in
      on_result-elim (Good base Live) _ _ _ m1 (λ err. enter_failed-Good name at err m1 s1)
        (check_deadline-Good name r at rest h m1
          (record { sound = s1; is_running = ready.is_running }))

  ensure_repeat_started-Good :
      (at : StepPath) (k : M W V (Option Err)) (m : Machine W V)
      → SoundAt base m
      → Continues e base Live m k
      → Next e base Live k (ensure_repeat_started e at m)
  unfolding ensure_repeat_started now set_repeat or_return
  ensure_repeat_started-Good at k m s h =
      when-elim (Next e base Live k) _ _ _ m (λ _. h m s refl)
        (λ _. snapshot-Good e base Live "repeat start" _ k s h)

  start_repeat-Good :
      (r : RepeatExec W V) (at : StepPath) (k : M W V (Option Err))
      → Keeps base k
      → (m : Machine W V) → Ready base m
      → Next e base Live k (start_repeat e steps r at m)
  unfolding start_repeat or_return
  start_repeat-Good not_repeat at k h m ready = h m ready
  start_repeat-Good (repeating q scope) at k h m ready =
      when-elim (Next e base Live k) _ _ _ m
        (λ _. ensure_repeat_started-Good at k m ready.sound (λ m' s' same.
          h m' (record { sound = s'; is_running = ap status_is_running same ∙ ready.is_running })))
        (λ _. h m ready)

  execute_step-Good :
      (p : StepParts W V) (b : BranchExec W V) (r : RepeatExec W V) (at : StepPath)
      → BranchGood base b
      → RepeatGood base r
      → Keeps base (execute_step e steps p b r at)
  unfolding execute_step
  execute_step-Good p b r at hb hr m ready =
      start_repeat-Good r at _
        (check_deadline-Good p.name r at _
          (run_on_enter-Good p.name p.on_enter r at _ (dispatch-Good p p.action b r at hb hr)))
        m ready

mutual
  unfolding scope_of step_of branch_of repeat_of paths_of

  pub scope_of-Good :
      {W V : Type 0} (e : Executor W V) (base : ℕ) (sticky : Sticky e) (root : Steps W V)
      (steps : Steps W V)
      → AllGood base (scope_of e root steps)
  scope_of-Good e base sticky root end = tt
  scope_of-Good e base sticky root (then_step s rest) =
      (step_of-Good e base sticky root s, scope_of-Good e base sticky root rest)

  step_of-Good :
      {W V : Type 0} (e : Executor W V) (base : ℕ) (sticky : Sticky e) (root : Steps W V)
      (s : Step W V)
      → (at : StepPath) → Keeps base (step_of e root s at)
  step_of-Good e base sticky root (step p b r) at =
      execute_step-Good e base sticky root p (branch_of e root b) (repeat_of e root r) at
        (branch_of-Good e base sticky root b) (repeat_of-Good e base sticky root r)

  branch_of-Good :
      {W V : Type 0} (e : Executor W V) (base : ℕ) (sticky : Sticky e) (root : Steps W V)
      (b : BranchField W V)
      → BranchGood base (branch_of e root b)
  branch_of-Good e base sticky root no_branch = tt
  branch_of-Good e base sticky root (branch f paths) = paths_of-Good e base sticky root paths

  repeat_of-Good :
      {W V : Type 0} (e : Executor W V) (base : ℕ) (sticky : Sticky e) (root : Steps W V)
      (r : RepeatField W V)
      → RepeatGood base (repeat_of e root r)
  repeat_of-Good e base sticky root no_repeat = tt
  repeat_of-Good e base sticky root (repeat p steps) = scope_of-Good e base sticky root steps

  paths_of-Good :
      {W V : Type 0} (e : Executor W V) (base : ℕ) (sticky : Sticky e) (root : Steps W V)
      (paths : Paths W V)
      → PathsGood base (paths_of e root paths)
  paths_of-Good e base sticky root no_paths = tt
  paths_of-Good e base sticky root (path k steps rest) =
      (scope_of-Good e base sticky root steps, paths_of-Good e base sticky root rest)
