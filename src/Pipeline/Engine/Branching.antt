-- ===== src/Pipeline/Engine/Branching.antt =====
-- pipeline/executor.go: executeBranch.
use xutils.Prelude.{
  ℕ, ◌+◌, List, [], ◌∷◌, ◌++◌, false, Option, none, some, length, get_elem?, if◌then◌else◌,
}
use xutils.Bytes.{Bytes, StepPath, same}
use xutils.Bytes.Dict.{Dict, lookup}
use xutils.Pipeline.Errors.{Err, text, wrapped, step_failed, panicked}
use xutils.Pipeline.Definition.{Executor, Steps, BranchFunc}
use xutils.Pipeline.Machine.{
  M, ◌>>=◌, ◌>>◌, return, on_result, get_run, modify, or_return, set_path, marshal_data, snapshot,
  called, decide,
}
use xutils.Pipeline.Engine.Journal.{record_attempt, record_error, record_completed}
use xutils.Pipeline.Engine.Sequence.{StepExec, execute_steps}
use xutils.Pipeline.Engine.Handlers.{add_completed, defer_or_fail}

-- The first step of the name, counted from `i`; where there is none, 0.
unfoldable pub index_from : {W V : Type 0} → ℕ → List (StepExec W V) → Bytes → ℕ
index_from i [] name = 0
index_from i (x ∷ xs) name =
    let later = index_from (i + 1) xs name in if same x.name name then i else later

-- The index of the child step to resume at.
unfoldable pub child_index : {W V : Type 0} → List (StepExec W V) → Option Bytes → ℕ
unfolding index_from
child_index scope none = 0
child_index scope (some name) = index_from 0 scope name

-- The keys of the paths, for the error message.
unfoldable pub path_names : {A : Type 0} → Dict A → List Bytes
path_names [] = []
path_names ((k, _) ∷ m) = k ∷ path_names m

module _ {W V : Type 0} (e : Executor W V) (steps : Steps W V) where
  -- The run was saved inside the branch: `chosen` is the element behind the branch's own path.
  unfoldable pub resume_branch :
      Bytes → StepPath → Bytes → Option Bytes → Option (List (StepExec W V)) → M W V (Option Err)
  unfolding child_index
  resume_branch name path chosen child none =
      return (some (text "pipeline: branch %q: saved path %q not found" (name ∷ chosen ∷ [])))
  resume_branch name path chosen child (some scope) =
      execute_steps e steps scope (child_index scope child) (path ++ chosen ∷ [])

  unfoldable pub call_decide : StepPath → BranchFunc W V → M W V (Bytes × Option Err)
  call_decide path f s =
      let r = f s.store s.world in
      ((r.0, r.1), record s { store = r.2; world = r.3; calls = called decide path r.1 ∷ s.calls })

  -- The branch is recorded as completed when its path is chosen.
  unfoldable pub enter_branch : StepPath → Bytes → List (StepExec W V) → M W V (Option Err)
  enter_branch path chosen [] = do
    modify (add_completed path false)
    record_completed e path
    modify (set_path path)
    failure ← marshal_data e
    or_return failure (snapshot e "empty branch completion")
  enter_branch path chosen (x ∷ xs) = do
    modify (add_completed path false)
    record_completed e path
    modify (set_path (path ++ chosen ∷ []))
    failure ← marshal_data e
    or_return failure (do
      unsaved ← snapshot e "branch decision"
      or_return unsaved (execute_steps e steps (x ∷ xs) 0 (path ++ chosen ∷ [])))

  -- An unknown path is a failure of the step.
  unfoldable pub enter_chosen :
      Bytes
      → Dict (List (StepExec W V))
      → StepPath
      → Bytes
      → Option (List (StepExec W V))
      → M W V (Option Err)
  unfolding path_names enter_branch
  enter_chosen name paths path chosen none = do
    let unknown = text "branch returned unknown path %q (available: %v)" (chosen ∷ path_names paths)
    record_error e path unknown
    return (some (step_failed name path unknown))
  enter_chosen name paths path chosen (some scope) = enter_branch path chosen scope

  unfoldable pub decide_branch :
      Bytes → Option (BranchFunc W V) → Dict (List (StepExec W V)) → StepPath → M W V (Option Err)
  unfolding call_decide enter_chosen
  decide_branch name none paths path = return (some panicked)
  decide_branch name (some f) paths path = do
    record_attempt e path
    choice ← call_decide path f
    on_result choice.1
        (λ err. do
          record_error e path err
          defer_or_fail e path (step_failed name path (wrapped "decide: %w" err)) false)
        (enter_chosen name paths path choice.0 (lookup choice.0 paths))

  -- by the element of CurrentPath behind the branch's own path, if there is one
  unfoldable pub enter_or_resume :
      Bytes
      → Option (BranchFunc W V)
      → Dict (List (StepExec W V))
      → StepPath
      → Option Bytes
      → Option Bytes
      → M W V (Option Err)
  unfolding resume_branch decide_branch
  enter_or_resume name f paths path none child = decide_branch name f paths path
  enter_or_resume name f paths path (some chosen) child =
      resume_branch name path chosen child (lookup chosen paths)

  -- executeBranch
  unfoldable pub execute_branch :
      Bytes → Option (BranchFunc W V) → Dict (List (StepExec W V)) → StepPath → M W V (Option Err)
  unfolding enter_or_resume
  execute_branch name f paths path = do
    r ← get_run
    enter_or_resume name f paths path (get_elem? r.current_path (length path))
        (get_elem? r.current_path (length path + 1))
