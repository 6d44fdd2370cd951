-- ===== src/Pipeline/Engine/Handlers.antt =====
-- pipeline/executor.go: executeAction and executePoll.
use xutils.Prelude.{
  ℤ, pos, String, [], ◌∷◌, ◌++◌, Bool, true, false, Option, none, some, if◌then◌else◌, is_some,
  ltb_ℤ, leb_ℤ, ◌-ℤ◌, saturate,
}
use xutils.Bytes.{Bytes, StepPath}
use xutils.Pipeline.Errors.{
  Err, step_failed, snooze, poll_timeout, panicked, is_deferred, normalize_duration,
}
use xutils.Pipeline.State.{RunState, Time, running, polling}
use xutils.Pipeline.Definition.{Executor, ActionStep, PollStep, PollFunc, RetryConfig, ActionFunc}
use xutils.Pipeline.Machine.{
  M, when◌then◌else◌, ◌>>=◌, ◌>>◌, return, on_result, get_run, modify, or_return, set_status, now,
  unless_cancelled, marshal_data, snapshot, call_action, called, action, check,
}
use xutils.Pipeline.Engine.Journal.{
  record_attempt, record_error, record_completed, persist_deferred,
}
use xutils.Pipeline.Engine.Retry.{run_with_retry}

abbrev pub add_completed : StepPath → Bool → RunState → RunState
add_completed path compensator r = record r {
  completed_steps = r.completed_steps ++ record { path = path; has_compensator = compensator } ∷ [];
}

abbrev pub set_poll_start : Option Time → RunState → RunState
set_poll_start t r = record r { poll_started_at = t }

module _ {W V : Type 0} (e : Executor W V) where
  -- The common end of a step: `state.Data` from the store, the completion time, a snapshot.
  abbrev pub seal_step : StepPath → String → M W V (Option Err)
  seal_step path op = do
    failure ← marshal_data e
    or_return failure (do record_completed e path; snapshot e op)

  -- One attempt of an action step.
  unfoldable pub attempt_action : StepPath → Option (ActionFunc W V) → M W V (Option Err)
  attempt_action path none = return (some panicked)
  attempt_action path (some f) = do
    record_attempt e path
    result ← call_action action path f
    on_result result (λ err. do record_error e path err; return (some err)) (return none)

  -- A failed step: a deferral is persisted, any other error returned.
  unfoldable pub defer_or_fail : StepPath → Err → Bool → M W V (Option Err)
  defer_or_fail path err poll =
      when is_deferred err
      then persist_deferred e path err poll "delayed continuation"
      else return (some err)

  -- executeAction
  unfoldable pub execute_action :
      Bytes → ActionStep W V → Option RetryConfig → StepPath → M W V (Option Err)
  unfolding attempt_action
  execute_action name a retry path = do
    result ← run_with_retry e retry (attempt_action path a.action)
    on_result result (λ err. defer_or_fail path (step_failed name path err) false)
        (do modify (add_completed path (is_some a.compensate)); seal_step path "action completion")

  unfoldable pub call_check : StepPath → PollFunc W V → M W V (Bool × ℤ × Option Err)
  call_check path f s =
      let r = f s.store s.world in
      (
        (r.0, r.1, r.2),
        record s { store = r.3; world = r.4; calls = called check path r.2 ∷ s.calls },
      )

  unfoldable pub poll_failed : Bytes → StepPath → Err → M W V (Option Err)
  poll_failed name path err = do
    record_error e path err
    let failure = step_failed name path err
    when is_deferred failure
        then persist_deferred e path failure true "delayed continuation"
        else unless_cancelled e (return (some failure))
            (do modify (set_poll_start none); return (some failure))

  unfoldable pub poll_not_done : StepPath → ℤ → M W V (Option Err)
  poll_not_done path delay = do
    modify (set_status polling)
    persist_deferred e path (snooze (normalize_duration delay)) true "delayed continuation"

  unfoldable pub poll_done : StepPath → M W V (Option Err)
  poll_done path = do
    modify (set_poll_start none)
    modify (set_status running)
    modify (add_completed path false)
    seal_step path "poll completion"

  unfoldable pub poll_timed_out : Bytes → PollStep W V → StepPath → M W V (Option Err)
  poll_timed_out name p path = do
    modify (set_poll_start none)
    record_attempt e path
    record_error e path (poll_timeout name p.max_duration)
    return (some (step_failed name path (poll_timeout name p.max_duration)))

  unfoldable pub poll_check : Bytes → StepPath → Option (PollFunc W V) → M W V (Option Err)
  unfolding call_check poll_failed poll_not_done poll_done
  poll_check name path none = return (some panicked)
  poll_check name path (some f) = do
    record_attempt e path
    answer ← call_check path f
    on_result answer.2 (poll_failed name path)
        (when answer.0 then poll_done path else poll_not_done path answer.1)

  -- `state.PollStartedAt`, set to the present time where it is nil
  abbrev pub poll_start : Time → Option Time → Time
  poll_start t none = t
  poll_start t (some start) = start

  -- executePoll
  unfoldable pub execute_poll : Bytes → PollStep W V → StepPath → M W V (Option Err)
  unfolding poll_timed_out poll_check
  execute_poll name p path = do
    t ← now e
    r ← get_run
    let start = poll_start t r.poll_started_at
    modify (set_poll_start (some start))
    when ltb_ℤ (pos 0) p.max_duration
        then (when leb_ℤ p.max_duration (saturate (t -ℤ start))
            then poll_timed_out name p path
            else poll_check name path p.check)
        else poll_check name path p.check
