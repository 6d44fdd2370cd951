-- ===== src/Pipeline/Completion.antt =====
-- The journal of a step that returns nil (executeAction and executePoll in pipeline/executor.go).
use xutils.Prelude.{
  ℤ, pos, List, [], ◌∷◌, ◌++◌, Option, String, ltb_ℤ, leb_ℤ, ◌-ℤ◌, saturate, ◌⊎◌, inl, inr, none,
  some, ◌≡◌, refl, true, false, Bool, arith, ap, ◌∙◌,
}
use xutils.Bytes.{Bytes, StepPath, same_path_iff}
use xutils.Pipeline.Errors.{Err, panicked}
use xutils.Pipeline.State.{CompletedStep, Time}
use xutils.Pipeline.Definition.{Executor, ActionStep, PollStep, PollFunc, RetryConfig}
use xutils.Pipeline.Machine.{
  Machine, M, or_return, on_result, when◌then◌else◌, marshal_data, now, unless_cancelled,
}
use xutils.Pipeline.Engine.Journal.{record_attempt, record_completed, persist_deferred}
use xutils.Pipeline.Engine.Lookup.{is_step_completed}
use xutils.Pipeline.Engine.Handlers.{
  seal_step, defer_or_fail, execute_action, call_check, poll_failed, poll_not_done, poll_done,
  poll_timed_out, poll_check, poll_start, set_poll_start, execute_poll,
}
use xutils.Pipeline.Protocol.Rules.{on_result-elim, or_return-elim, when-elim}
use xutils.Pipeline.Rollback.Plan.{Quiet, marshal-Quiet, snapshot-Quiet}

-- The step just added is found.
added_last :
    (done : List CompletedStep) (c : CompletedStep)
    → is_step_completed (done ++ c ∷ []) c.path ≡ true
unfolding is_step_completed
added_last [] c = ground (arith, same_path_iff c.path c.path)
added_last (d ∷ done) c = ground (arith, added_last done c)

module _ {W V : Type 0} (e : Executor W V) (path : StepPath) where
  record Journaled (out : Option Err × Machine W V) : Type 0 where
    pub when_nil : out.0 ≡ none → is_step_completed out.1.run.completed_steps path ≡ true

  failed-Journaled : (err : Err) (m : Machine W V) → Journaled (some err, m)
  failed-Journaled err m = record { when_nil = λ h. cc }

  next-Journaled :
      (m : Machine W V) (out : Option Err × Machine W V) (k : M W V (Option Err))
      → Quiet m out.1
      → ((m' : Machine W V) → Quiet m m' → Journaled (k m'))
      → Journaled (or_return out.0 k out.1)
  unfolding or_return
  next-Journaled m (none, m') k q h = h m' q
  next-Journaled m (some err, m') k q h = failed-Journaled err m'

  persist_deferred-Journaled :
      (err : Err) (poll : Bool) (op : String) (m : Machine W V)
      → Journaled (persist_deferred e path err poll op m)
  unfolding persist_deferred
  persist_deferred-Journaled err poll op m =
      or_return-elim Journaled _ _ _ (λ failure. failed-Journaled failure _)
        (or_return-elim Journaled _ _ _ (λ failure. failed-Journaled failure _)
          (failed-Journaled _ _))

  seal_step-Journaled :
      (op : String) (m : Machine W V)
      → is_step_completed m.run.completed_steps path ≡ true
      → Journaled (seal_step e path op m)
  unfolding record_completed now
  seal_step-Journaled op m h =
      next-Journaled m (marshal_data e m) _
        (marshal-Quiet e m m (record { index = refl; done = refl; undone = λ r. refl }))
        (λ m1 q1.
          let m2 : Machine W V = (record_completed e path m1).1 in
          let q2 =
            snapshot-Quiet e op m m2
              (record { index = q1.index; done = q1.done; undone = q1.undone }) in
          record { when_nil = λ _. ap (λ d. is_step_completed d path) q2.done ∙ h })

  defer_or_fail-Journaled :
      (err : Err) (poll : Bool) (m : Machine W V) → Journaled (defer_or_fail e path err poll m)
  unfolding defer_or_fail
  defer_or_fail-Journaled err poll m =
      when-elim Journaled _ _ _ m
        (λ _. persist_deferred-Journaled err poll "delayed continuation" m)
        (λ _. failed-Journaled err m)

  execute_action-Journaled :
      (name : Bytes) (a : ActionStep W V) (retry : Option RetryConfig) (m : Machine W V)
      → Journaled (execute_action e name a retry path m)
  unfolding execute_action
  execute_action-Journaled name a retry m =
      on_result-elim Journaled _ _ _ _ (λ err. defer_or_fail-Journaled _ false _)
        (seal_step-Journaled "action completion" _ (added_last _ _))

  poll_done-Journaled : (m : Machine W V) → Journaled (poll_done e path m)
  unfolding poll_done
  poll_done-Journaled m = seal_step-Journaled "poll completion" _ (added_last _ _)

  poll_failed-Journaled :
      (name : Bytes) (err : Err) (m : Machine W V) → Journaled (poll_failed e name path err m)
  unfolding poll_failed unless_cancelled
  poll_failed-Journaled name err m =
      when-elim Journaled _ _ _ _ (λ _. persist_deferred-Journaled _ true "delayed continuation" _)
        (λ _. when-elim Journaled _ _ _ _ (λ _. failed-Journaled _ _) (λ _. failed-Journaled _ _))

  poll_check-Journaled :
      (name : Bytes) (f : Option (PollFunc W V)) (m : Machine W V)
      → Journaled (poll_check e name path f m)
  unfolding poll_check poll_not_done
  poll_check-Journaled name none m = failed-Journaled _ m
  poll_check-Journaled name (some f) m =
      on_result-elim Journaled _ _ _ _ (λ err. poll_failed-Journaled name err _)
        (when-elim Journaled _ _ _ _
          (λ _. poll_done-Journaled (call_check e path f (record_attempt e path m).1).1)
          (λ _. persist_deferred-Journaled _ true "delayed continuation" _))

  execute_poll-Journaled :
      (name : Bytes) (p : PollStep W V) (m : Machine W V) → Journaled (execute_poll e name p path m)
  unfolding execute_poll poll_timed_out
  execute_poll-Journaled name p m =
      when-elim Journaled _ _ _ _
        (λ _.
          when-elim Journaled _ _ _ _ (λ _. failed-Journaled _ _)
            (λ _. poll_check-Journaled name p.check _))
        (λ _. poll_check-Journaled name p.check _)

  -- An action step that returns nil, after whatever retries, is among the completed steps of the
  -- state it leaves.
  pub execute_action-journaled :
      (name : Bytes) (a : ActionStep W V) (retry : Option RetryConfig) (m : Machine W V)
      → (execute_action e name a retry path m).0 ≡ none
      → is_step_completed (execute_action e name a retry path m).1.run.completed_steps path ≡ true
  execute_action-journaled name a retry m = (execute_action-Journaled name a retry m).when_nil

  -- A result that is nil only where something holds.
  record NilOnly (A : Type 0) (out : Option Err × Machine W V) : Type 0 where
    pub when_nil : out.0 ≡ none → A

  module _ {A : Type 0} where
    failed-NilOnly : (err : Err) (m : Machine W V) → NilOnly A (some err, m)
    failed-NilOnly err m = record { when_nil = λ h. cc }

    persist_deferred-NilOnly :
        (err : Err) (poll : Bool) (op : String) (m : Machine W V)
        → NilOnly A (persist_deferred e path err poll op m)
    unfolding persist_deferred
    persist_deferred-NilOnly err poll op m =
        or_return-elim (NilOnly A) _ _ _ (λ failure. failed-NilOnly failure _)
          (or_return-elim (NilOnly A) _ _ _ (λ failure. failed-NilOnly failure _)
            (failed-NilOnly _ _))

    poll_failed-NilOnly :
        (name : Bytes) (err : Err) (m : Machine W V) → NilOnly A (poll_failed e name path err m)
    unfolding poll_failed unless_cancelled
    poll_failed-NilOnly name err m =
        when-elim (NilOnly A) _ _ _ _
          (λ _. persist_deferred-NilOnly _ true "delayed continuation" _)
          (λ _. when-elim (NilOnly A) _ _ _ _ (λ _. failed-NilOnly _ _) (λ _. failed-NilOnly _ _))

  -- The check of a poll has answered done, without an error, in the state that it is called in.
  abbrev pub AnsweredDone : Option (PollFunc W V) → Machine W V → Type 0
  AnsweredDone none m = ⊥
  AnsweredDone (some f) m = ((f m.store m.world).0 ≡ true) × ((f m.store m.world).2 ≡ none)

  poll_check-answered :
      (name : Bytes) (f : Option (PollFunc W V)) (m : Machine W V)
      → NilOnly (AnsweredDone f (record_attempt e path m).1) (poll_check e name path f m)
  unfolding poll_check poll_not_done call_check on_result when◌then◌else◌
  poll_check-answered name none m = failed-NilOnly panicked m
  poll_check-answered name (some f) m = by_error (answer.2) refl
    where
      asked : Machine W V
      asked = (record_attempt e path m).1

      answer : Bool × ℤ × Option Err
      answer = (call_check e path f asked).0

      by_error :
          (r : Option Err)
          → answer.2 ≡ r
          → NilOnly (AnsweredDone (some f) asked) (
              on_result r
                (poll_failed e name path)
                (when answer.0 then poll_done e path else poll_not_done e path answer.1)
                (call_check e path f asked).1)
      by_error (some err) h = poll_failed-NilOnly name err _
      by_error none h =
          when-elim (NilOnly (AnsweredDone (some f) asked)) _ _ _ _
            (λ done. record { when_nil = λ _. (done, h) })
            (λ _. persist_deferred-NilOnly _ true "delayed continuation" _)

  -- The time at which execute_poll runs, the start of the poll, and the state at its check.
  abbrev pub started_at : Machine W V → Time
  started_at m = poll_start e (now e m).0 m.run.poll_started_at

  abbrev pub at_check : Machine W V → Machine W V
  at_check m =
      (record_attempt e path
        (record (now e m).1 { run = set_poll_start (some (started_at m)) m.run })).1

  -- The poll has no limit, or has not reached it.
  abbrev pub InTime : PollStep W V → Machine W V → Type 0
  InTime p m =
      (ltb_ℤ (pos 0) p.max_duration ≡ false)
      ⊎ (leb_ℤ p.max_duration (saturate ((now e m).0 -ℤ started_at m)) ≡ false)

  execute_poll-answered :
      (name : Bytes) (p : PollStep W V) (m : Machine W V)
      → NilOnly (InTime p m × AnsweredDone p.check (at_check m)) (execute_poll e name p path m)
  unfolding execute_poll poll_timed_out now
  execute_poll-answered name p m =
      let asked = poll_check-answered name p.check _ in
      when-elim (NilOnly (InTime p m × AnsweredDone p.check (at_check m))) _ _ _ _
        (λ _.
          when-elim (NilOnly (InTime p m × AnsweredDone p.check (at_check m))) _ _ _ _
            (λ _. failed-NilOnly _ _)
            (λ early. record { when_nil = λ h. (inr early, asked.when_nil h) }))
        (λ unlimited. record { when_nil = λ h. (inl unlimited, asked.when_nil h) })

  -- A poll step that returns nil is among the completed steps of the state it leaves, its limit has not
  -- been reached, and its check has answered done without an error: a check that is not done, fails or
  -- comes too late never returns nil.
  pub execute_poll-journaled :
      (name : Bytes) (p : PollStep W V) (m : Machine W V)
      → (execute_poll e name p path m).0 ≡ none
      → (is_step_completed (execute_poll e name p path m).1.run.completed_steps path ≡ true)
        × InTime p m
        × AnsweredDone p.check (at_check m)
  execute_poll-journaled name p m h =
      let asked = (execute_poll-answered name p m).when_nil h in
      ((execute_poll-Journaled name p m).when_nil h, asked.0, asked.1)
