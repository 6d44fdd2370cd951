-- ===== src/Pipeline/Deferring.antt =====
-- What persistDeferred answers (pipeline/executor.go).
use xutils.Prelude.{String, Option, none, some, ◌∷◌, ◌≡◌, ◌⊎◌}
use xutils.Bytes.{Bytes, StepPath}
use xutils.Bytes.Dict.{Dict}
use xutils.Pipeline.Errors.{Err, snapshot_failed, Deferral, deferred_details}
use xutils.Pipeline.State.{RunState, Time}
use xutils.Pipeline.Definition.{Executor}
use xutils.Pipeline.Machine.{Machine, saved, ◌>>=◌}
use xutils.Pipeline.Engine.Journal.{diagnostic}

-- The next run of the step at a path is recorded for a time.
abbrev pub Due : StepPath → Time → RunState → Type 0
Due path t r = (diagnostic path r).next_run_at ≡ some t

-- What follows a deferral `d` of the step at `path`, whose next run is at `t` (`f` is the failure of
-- marshalling the data store, if it fails): the error that stands for `d`, after a snapshot with the
-- next run unless there is no persistence callback; or the failure `f`; or that of the snapshot.
abbrev pub Answer :
    {W V : Type 0}
    → Executor W V
    → StepPath
    → Time
    → Deferral
    → String
    → Option Err
    → Machine W V
    → Option Err × Machine W V
    → Type 0
Answer e path t d op f m out =
    Due path t out.1.run
    × (((f ≡ none)
          × (out.0 ≡ some d.error)
          × (deferred_details d.error ≡ some d)
          × (((e.cas_snapshot_fn ≡ none) × (e.snapshot_fn ≡ none) × (out.1.calls ≡ m.calls))
              ⊎ ((r : RunState) × (out.1.calls ≡ saved op r none ∷ m.calls) × Due path t r)))
        ⊎ ((failure : Err) × (f ≡ some failure) × (out.0 ≡ some failure) × (out.1.calls ≡ m.calls))
        ⊎ ((cause : Err) × (r : RunState) × (f ≡ none)
            × (out.0 ≡ some (snapshot_failed op cause))
            × (out.1.calls ≡ saved op r (some cause) ∷ m.calls)
            × Due path t r))
