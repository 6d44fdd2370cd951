-- ===== src/Pipeline/Protocol/Branching.antt =====
-- The ledger through executeBranch (pipeline/executor.go).
use xutils.Prelude.{
  ℕ, List, [], ◌∷◌, ◌++◌, Option, none, some, true, false, inl, Bool, if◌then◌else◌, ◌∙◌, ap,
  get_elem?, length, ◌+◌,
}
use xutils.Bytes.{Bytes, StepPath, same}
use xutils.Bytes.Dict.{Dict, lookup}
use xutils.Pipeline.State.{status_is_running}
use xutils.Pipeline.Definition.{Executor, Steps, BranchFunc}
use xutils.Pipeline.Machine.{Machine, now, decide}
use xutils.Pipeline.Engine.Journal.{record_attempt, record_error, record_completed}
use xutils.Pipeline.Engine.Sequence.{StepExec}
use xutils.Pipeline.Engine.Branching.{
  resume_branch, call_decide, enter_branch, enter_chosen, decide_branch, enter_or_resume,
  execute_branch,
}
use xutils.Pipeline.Protocol.Ledger.{Good}
use xutils.Pipeline.Protocol.Rules.{
  SoundAt, on_result-elim, fail-Good, snapshot-Good, snapshot_last-Good, marshal-Good, called-Sound,
}
use xutils.Pipeline.Protocol.Compensation.{Sticky}
use xutils.Pipeline.Protocol.Scopes.{Live, Ready, AllGood, execute_steps-Good}
use xutils.Pipeline.Protocol.Handlers.{defer_or_fail-Good}

-- Every path of a branch keeps the ledger.
abbrev pub PathsGood : {W V : Type 0} → ℕ → Dict (List (StepExec W V)) → Type 0
PathsGood base [] = Unit {0}
PathsGood base ((k, scope) ∷ m) = AllGood base scope × PathsGood base m

abbrev FoundGood : {W V : Type 0} → ℕ → Option (List (StepExec W V)) → Type 0
FoundGood base none = Unit {0}
FoundGood base (some scope) = AllGood base scope

lookup-FoundGood :
    {W V : Type 0} (base : ℕ) (k : Bytes) (m : Dict (List (StepExec W V)))
    → PathsGood base m
    → FoundGood base (lookup k m)
unfolding lookup
lookup-FoundGood base k [] h = tt
lookup-FoundGood base k ((j, scope) ∷ m) h = pick (same j k) (lookup-FoundGood base k m h.1)
  where
    pick :
        (b : Bool)
        → FoundGood base (lookup k m)
        → FoundGood base (if b then some scope else lookup k m)
    pick true _ = h.0
    pick false rest = rest

module _ {W V : Type 0} (e : Executor W V) (base : ℕ) (sticky : Sticky e) (steps : Steps W V) where
  resume_branch-Good :
      (name : Bytes) (path : StepPath) (chosen : Bytes) (child : Option Bytes)
      (scope : Option (List (StepExec W V))) (m : Machine W V)
      → FoundGood base scope
      → Ready base m
      → Good base Live (resume_branch e steps name path chosen child scope m)
  unfolding resume_branch
  resume_branch-Good name path chosen child none m h r = fail-Good e base Live _ m r.sound
  resume_branch-Good name path chosen child (some scope) m h r =
      execute_steps-Good e base sticky steps scope _ (path ++ chosen ∷ []) m h r

  enter_branch-Good :
      (path : StepPath) (chosen : Bytes) (scope : List (StepExec W V)) (m : Machine W V)
      → AllGood base scope
      → Ready base m
      → Good base Live (enter_branch e steps path chosen scope m)
  unfolding enter_branch record_completed now
  enter_branch-Good path chosen [] m h r = marshal-Good e base Live _ _ r.sound λ m1 s1 same1.
      snapshot_last-Good e base Live "empty branch completion" m1 s1
        (inl (ap status_is_running same1 ∙ r.is_running))
  enter_branch-Good path chosen (x ∷ xs) m h r = marshal-Good e base Live _ _ r.sound λ m1 s1 same1.
      snapshot-Good e base Live "branch decision" m1 _ s1 λ m2 s2 same2.
        execute_steps-Good e base sticky steps (x ∷ xs) 0 (path ++ chosen ∷ []) m2 h
          (record { sound = s2; is_running = ap status_is_running (same2 ∙ same1) ∙ r.is_running })

  enter_chosen-Good :
      (name : Bytes) (paths : Dict (List (StepExec W V))) (path : StepPath) (chosen : Bytes)
      (scope : Option (List (StepExec W V))) (m : Machine W V)
      → FoundGood base scope
      → Ready base m
      → Good base Live (enter_chosen e steps name paths path chosen scope m)
  unfolding enter_chosen record_error
  enter_chosen-Good name paths path chosen none m h r = fail-Good e base Live _ _ r.sound
  enter_chosen-Good name paths path chosen (some scope) m h r =
      enter_branch-Good path chosen scope m h r

  decide_branch-Good :
      (name : Bytes) (f : Option (BranchFunc W V)) (paths : Dict (List (StepExec W V)))
      (path : StepPath) (m : Machine W V)
      → PathsGood base paths
      → Ready base m
      → Good base Live (decide_branch e steps name f paths path m)
  unfolding decide_branch record_attempt record_error now call_decide
  decide_branch-Good name none paths path m h r = fail-Good e base Live _ m r.sound
  decide_branch-Good name (some f) paths path m h r =
      let m1 : Machine W V = (record_attempt e path m).1 in
      let answer = f m1.store m1.world in
      let m2 : Machine W V = (call_decide e steps path f m1).1 in
      let s2 : SoundAt base m2 = called-Sound decide path answer.1 r.sound in
      on_result-elim (Good base Live) _ _ _ m2
        (λ err. defer_or_fail-Good e base Live path _ false _ s2)
        (enter_chosen-Good name paths path answer.0 (lookup answer.0 paths) m2
          (lookup-FoundGood base answer.0 paths h)
          (record { sound = s2; is_running = r.is_running }))

  enter_or_resume-Good :
      (name : Bytes) (f : Option (BranchFunc W V)) (paths : Dict (List (StepExec W V)))
      (path : StepPath) (saved child : Option Bytes) (m : Machine W V)
      → PathsGood base paths
      → Ready base m
      → Good base Live (enter_or_resume e steps name f paths path saved child m)
  unfolding enter_or_resume
  enter_or_resume-Good name f paths path none child m h r =
      decide_branch-Good name f paths path m h r
  enter_or_resume-Good name f paths path (some chosen) child m h r =
      resume_branch-Good name path chosen child (lookup chosen paths) m
        (lookup-FoundGood base chosen paths h) r

  pub execute_branch-Good :
      (name : Bytes) (f : Option (BranchFunc W V)) (paths : Dict (List (StepExec W V)))
      (path : StepPath) (m : Machine W V)
      → PathsGood base paths
      → Ready base m
      → Good base Live (execute_branch e steps name f paths path m)
  unfolding execute_branch
  execute_branch-Good name f paths path m h r =
      enter_or_resume-Good name f paths path (get_elem? m.run.current_path (length path))
        (get_elem? m.run.current_path (length path + 1)) m h r
