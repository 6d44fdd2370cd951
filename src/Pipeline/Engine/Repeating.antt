-- ===== src/Pipeline/Engine/Repeating.antt =====
-- pipeline/executor.go: executeRepeat, ensureRepeatStarted, repeatTimedOut and repeatTimeout.
use xutils.Prelude.{
  ℕ, ◌+◌, ℤ, pos, List, [], ◌∷◌, ◌++◌, Bool, true, false, ◌&&◌, Option, none, some, length,
  get_elem?, if◌then◌else◌, ltb_ℤ, leb_ℤ, ◌+ℤ◌, ◌-ℤ◌, saturate, wrap64, is_some,
}
use xutils.Bytes.{Bytes, StepPath}
use xutils.Bytes.Dict.{lookup_or, insert}
use xutils.Bytes.Decimal.{itoa, atoi}
use xutils.Pipeline.Errors.{
  Err, text, wrapped, step_failed, repeat_limit, repeat_timeout, panicked, retry_after_of,
}
use xutils.Pipeline.State.{RunState, RepeatState, no_repeat_state, Time, status_is_running}
use xutils.Pipeline.Paths.{step_path_key}
use xutils.Pipeline.Compact.{compact_repeat_iteration}
use xutils.Pipeline.Definition.{Executor, Steps, RepeatParts, RepeatFunc, RepeatHistory, compact}
use xutils.Pipeline.Machine.{
  M, when◌then◌else◌, ◌>>=◌, ◌>>◌, return, on_result, get_run, modify, or_return, set_path, now,
  snapshot, called, until,
}
use xutils.Pipeline.Engine.Journal.{record_attempt, record_error, persist_deferred}
use xutils.Pipeline.Engine.Sequence.{StepExec, execute_steps}
use xutils.Pipeline.Engine.Handlers.{add_completed, defer_or_fail, seal_step}
use xutils.Pipeline.Engine.Branching.{child_index}

unfoldable pub repeat_state : StepPath → RunState → RepeatState
repeat_state path r = lookup_or no_repeat_state (step_path_key path) r.repeat_states

unfoldable pub set_repeat : StepPath → RepeatState → RunState → RunState
set_repeat path s r = record r { repeat_states = insert (step_path_key path) s r.repeat_states }

abbrev pub is_compact : RepeatHistory → Bool
is_compact compact = true
is_compact _ = false

-- Where an execution of the repeat starts: the iteration and the index of its first child.
abbrev pub Entry : Type 0
Entry = ℤ × ℕ

-- The saved iteration in CurrentPath, if any, comes before the one of the repeat's state.
unfoldable pub entry_of :
    {W V : Type 0} → List (StepExec W V) → StepPath → RepeatState → RunState → Option Entry
entry_of scope path s r = elim (get_elem? r.current_path (length path)) [
  | none ↦ some (s.iteration, 0)
  | some saved ↦ elim (atoi saved) [
    | none ↦ none
    | some parsed ↦
        if ltb_ℤ parsed (pos 0)
        then none
        else some (parsed, child_index scope (get_elem? r.current_path (length path + 1)))
  ]
]

abbrev pub saved_iteration : StepPath → RunState → List Bytes
saved_iteration path r = elim (get_elem? r.current_path (length path)) [
  | none ↦ []
  | some s ↦ s ∷ []
]

module _ {W V : Type 0} (e : Executor W V) where
  unfoldable pub late_since : ℤ → Option Time → M W V Bool
  late_since limit none = return false
  late_since limit (some start) = do t ← now e; return (leb_ℤ limit (saturate (t -ℤ start)))

  -- repeatTimedOut
  unfoldable pub repeat_timed_out : RepeatParts W V → RepeatState → M W V Bool
  unfolding late_since
  repeat_timed_out p s =
      when ltb_ℤ (pos 0) p.max_duration
      then late_since p.max_duration s.started_at
      else return false

  -- repeatTimeout, after an attempt is recorded as all its callers do
  unfoldable pub time_out : Bytes → RepeatParts W V → StepPath → M W V (Option Err)
  time_out name p path = do
    record_attempt e path
    record_error e path (repeat_timeout name p.max_duration)
    return (some (step_failed name path (repeat_timeout name p.max_duration)))

  -- ensureRepeatStarted
  unfoldable pub ensure_repeat_started : StepPath → M W V (Option Err)
  unfolding repeat_state set_repeat
  ensure_repeat_started path = do
    r ← get_run
    let s = repeat_state path r
    when is_some s.started_at then return none else (do
      t ← now e
      modify (set_repeat path (record s { started_at = some t }))
      snapshot e "repeat start")

  unfoldable pub call_until : StepPath → RepeatFunc W V → ℤ → M W V (Bool × ℤ × Option Err)
  call_until path f i s =
      let r = f i s.store s.world in
      (
        (r.0, r.1, r.2),
        record s { store = r.3; world = r.4; calls = called until path r.2 ∷ s.calls },
      )

  unfoldable pub repeat_done : StepPath → RepeatState → M W V (Option Err)
  unfolding set_repeat
  repeat_done path s = do
    modify (
        set_repeat path
          (record s { awaiting_condition = false; completed = true; started_at = none }))
    modify (set_path path)
    modify (add_completed path false)
    seal_step e path "repeat completion"

  unfoldable pub repeat_limited : Bytes → RepeatParts W V → StepPath → M W V (Option Err)
  repeat_limited name p path = do
    record_error e path (repeat_limit name p.max_iterations)
    return (some (step_failed name path (repeat_limit name p.max_iterations)))

  -- The next iteration is left to the caller's scheduler.
  unfoldable pub next_iteration : RepeatParts W V → StepPath → RepeatState → ℤ → M W V (Option Err)
  unfolding set_repeat
  next_iteration p path s delay = do
    let next = wrap64 (s.iteration +ℤ pos 1)
    modify (set_repeat path (record s { iteration = next; awaiting_condition = false }))
    modify (set_path (path ++ itoa next ∷ []))
    persist_deferred e path (retry_after_of delay none) false
        (if is_compact p.history then "repeat compaction" else "delayed continuation")

  -- After Until: the history is compacted, and the repeat ends, fails or goes on.
  unfoldable pub after_until :
      Bytes → RepeatParts W V → StepPath → RepeatState → Bool → ℤ → M W V (Option Err)
  unfolding repeat_done repeat_limited next_iteration
  after_until name p path s done delay = do
    modify (λ r. if is_compact p.history then compact_repeat_iteration path s.iteration r else r)
    when done
        then repeat_done path s
        else when ltb_ℤ (pos 0) p.max_iterations
            && leb_ℤ p.max_iterations (wrap64 (s.iteration +ℤ pos 1))
        then repeat_limited name p path
        else next_iteration p path s delay

  unfoldable pub ask_until :
      Bytes
      → RepeatParts W V
      → StepPath
      → RepeatState
      → Option (RepeatFunc W V)
      → M W V (Option Err)
  unfolding call_until after_until
  ask_until name p path s none = return (some panicked)
  ask_until name p path s (some f) = do
    record_attempt e path
    answer ← call_until path f s.iteration
    on_result answer.2
        (λ err. do
          record_error e path err
          defer_or_fail e path (step_failed name path (wrapped "until: %w" err)) false)
        (after_until name p path s answer.0 answer.1)

  -- The children of the iteration are done; `s` awaits the condition.
  unfoldable pub check_condition :
      Bytes → RepeatParts W V → StepPath → RepeatState → M W V (Option Err)
  unfolding ask_until
  check_condition name p path s = do
    late ← repeat_timed_out p s
    when late then time_out name p path else ask_until name p path s p.until

module _ {W V : Type 0} (e : Executor W V) (steps : Steps W V) where
  unfoldable pub run_children :
      Bytes
      → RepeatParts W V
      → List (StepExec W V)
      → StepPath
      → RepeatState
      → ℕ
      → M W V (Option Err)
  unfolding set_repeat check_condition
  run_children name p scope path s start = do
    result ← execute_steps e steps scope start (path ++ itoa s.iteration ∷ [])
    or_return result (do
      r ← get_run
      when status_is_running r.status
          then (do
            modify (set_repeat path (record s { awaiting_condition = true }))
            check_condition e name p path (record s { awaiting_condition = true }))
          else return none)

  unfoldable pub run_iteration :
      Bytes
      → RepeatParts W V
      → List (StepExec W V)
      → StepPath
      → RepeatState
      → Entry
      → M W V (Option Err)
  unfolding set_repeat run_children check_condition
  run_iteration name p scope path old entry = do
    let s : RepeatState = record old { iteration = entry.0; completed = false }
    modify (set_repeat path s)
    when s.awaiting_condition
        then check_condition e name p path s
        else run_children name p scope path s entry.1

  unfoldable pub start_iteration :
      Bytes
      → RepeatParts W V
      → List (StepExec W V)
      → StepPath
      → List Bytes
      → RepeatState
      → Option Entry
      → M W V (Option Err)
  unfolding run_iteration
  start_iteration name p scope path saved old none =
      return (some (step_failed name path (text "invalid saved repeat iteration %q" saved)))
  start_iteration name p scope path saved old (some entry) =
      run_iteration name p scope path old entry

  -- executeRepeat
  unfoldable pub execute_repeat :
      Bytes → RepeatParts W V → List (StepExec W V) → StepPath → M W V (Option Err)
  unfolding repeat_state entry_of start_iteration
  execute_repeat name p scope path = do
    r ← get_run
    start_iteration name p scope path (saved_iteration path r) (repeat_state path r)
        (entry_of scope path (repeat_state path r) r)
