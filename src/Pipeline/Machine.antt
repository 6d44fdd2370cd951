-- ===== src/Pipeline/Machine.antt =====
-- The state that a run of pipeline/executor.go threads: the RunState that is passed and returned, the
-- data store and the world, with the calls of user-supplied functions that were made, newest first.
-- A Go function (RunState, error) is an action that returns an `Option Err`, nil being `none`.
use xutils.Prelude.{
  ℤ, ◌+◌, ◌%◌, ◌^◌, List, [], ◌∷◌, Bool, true, false, Bool, true, false, Option, none, some, String,
  if◌then◌else◌, is_some,
}
use xutils.Bytes.{Bytes, StepPath}
use xutils.Bytes.Dict.{Dict}
use xutils.Pipeline.Errors.{Err, wrapped, snapshot_failed}
use xutils.Pipeline.State.{RunState, RunStatus, Time}
use xutils.Pipeline.Definition.{Value, raw, native, ActionFunc, Executor}

pub data Callback : Type 0 where
  on_enter action check decide until compensate : Callback

pub data Call : Type 0 where
  -- a callback of the step at a path, with the error that it returned
  called : Callback → StepPath → Option Err → Call
  -- a snapshot of a state for an operation, with the error of the persistence callback
  saved : String → RunState → Option Err → Call
  -- a migration from a version, with the state and the error that the migrator returned
  migrated : ℤ → RunState → Option Err → Call

pub record Machine (W V : Type 0) : Type 0 where
  pub run : RunState
  pub store : Dict (Value V)
  pub world : W
  pub calls : List Call

abbrev pub M : Type 0 → Type 0 → Type 0 → Type 0
M W V A = Machine W V → A × Machine W V

module _ {W V : Type 0} where
  infixl 5 ◌>>=◌ ◌>>◌
  abbrev pub ◌>>=◌ : {A B : Type 0} → M W V A → (A → M W V B) → M W V B
  ◌>>=◌ m f s = f (m s).0 (m s).1

  abbrev pub ◌>>◌ : {A B : Type 0} → M W V A → M W V B → M W V B
  ◌>>◌ m k s = k (m s).1

  abbrev pub return : {A : Type 0} → A → M W V A
  return a s = (a, s)

  abbrev pub get_run : M W V RunState
  get_run s = (s.run, s)

  abbrev pub modify : (RunState → RunState) → M W V (Unit {0})
  modify f s = (tt, record s { run = f s.run })

  -- `if err := m; err != nil { return err }`, then the rest
  unfoldable pub or_return : Option Err → M W V (Option Err) → M W V (Option Err)
  or_return none k = k
  or_return (some e) k = return (some e)

abbrev pub set_path : StepPath → RunState → RunState
set_path path r = record r { current_path = path }

abbrev pub set_status : RunStatus → RunState → RunState
set_status status r = record r { status = status }

-- the copy of the state that a persistence callback is handed
abbrev pub candidate : RunState → RunState
candidate r = record r { revision = (r.revision + 1) % 2 ^ 64 }

module _ {W V : Type 0} where
  -- what follows an error, and what follows nil
  unfoldable pub on_result :
      Option Err → (Err → M W V (Option Err)) → M W V (Option Err) → M W V (Option Err)
  on_result none bad good = good
  on_result (some err) bad good = bad err

-- A choice between two actions.
infix 1 when◌then◌else◌
unfoldable pub when◌then◌else◌ : {W V A : Type 0} → Bool → M W V A → M W V A → M W V A
when true then x else y = x
when false then x else y = y

-- A call of an ActionFunc-like callback, recorded.
unfoldable pub call_action :
    {W V : Type 0} → Callback → StepPath → ActionFunc W V → M W V (Option Err)
call_action kind path f s =
    let r = f s.store s.world in
    (r.0, record s { store = r.1; world = r.2; calls = called kind path r.0 ∷ s.calls })

module _ {W V : Type 0} (e : Executor W V) where
  unfoldable pub now : M W V Time
  now s = let r = e.now s.world in (r.0, record s { world = r.1 })

  unfoldable pub ctx_err : M W V (Option Err)
  ctx_err s = let r = e.ctx_err s.world in (r.0, record s { world = r.1 })

  -- `if ctx.Err() != nil { stop }`, and the rest
  unfoldable pub unless_cancelled : M W V (Option Err) → M W V (Option Err) → M W V (Option Err)
  unfolding ctx_err
  unless_cancelled stop rest = do stopped ← ctx_err; when is_some stopped then stop else rest

  unfoldable pub sleep : ℤ → M W V (Option Err)
  sleep d s = let r = e.sleep d s.world in (r.0, record s { world = r.1 })

  -- marshalData; the error is that of the first value that fails
  unfoldable pub marshal_store : Dict (Value V) → Option Err × Dict Bytes
  marshal_store [] = (none, [])
  marshal_store ((k, raw b) ∷ m) = let rest = marshal_store m in (rest.0, (k, b) ∷ rest.1)
  marshal_store ((k, native v) ∷ m) =
      let rest = marshal_store m in
      elim (e.marshal v) [
        | none ↦
            (some (wrapped "pipeline: failed to marshal data key %q: %w" (e.marshal_error v)), [])
        | some b ↦ (rest.0, (k, b) ∷ rest.1)
      ]

  unfoldable pub keep_data : Option Err → Dict Bytes → RunState → RunState
  keep_data none d r = record r { data_json = d }
  keep_data (some _) d r = r

  -- `data, err := ds.marshalData()`, and `state.Data = data` unless it failed
  unfoldable pub marshal_data : M W V (Option Err)
  unfolding marshal_store keep_data
  marshal_data s =
      let r = marshal_store s.store in (r.0, record s { run = keep_data r.0 r.1 s.run })

  -- `state.Data, _ = ds.marshalData()`: after an error the data is nil
  unfoldable pub marshal_data_unchecked : M W V (Unit {0})
  unfolding marshal_store
  marshal_data_unchecked s =
      let r = marshal_store s.store in
      let d : Dict Bytes = elim r.0 [ none ↦ r.1 | some _ ↦ [] ] in
      (tt, record s { run = record s.run { data_json = d } })

  -- the end of `snapshot`: the revision is committed only on success
  unfoldable pub commit : String → Option Err → W → Machine W V → Option Err × Machine W V
  commit op none w s = (
    none,
    record s {
      run = candidate s.run;
      world = w;
      calls = saved op (candidate s.run) none ∷ s.calls;
    },
  )
  commit op (some err) w s = (
    some (snapshot_failed op err),
    record s { world = w; calls = saved op (candidate s.run) (some err) ∷ s.calls },
  )

  unfoldable pub snapshot : String → M W V (Option Err)
  unfolding commit
  snapshot op s = elim e.cas_snapshot_fn [
    | some f ↦ let r = f s.run.revision (candidate s.run) s.world in commit op r.0 r.1 s
    | none ↦ elim e.snapshot_fn [
      | some f ↦ let r = f (candidate s.run) s.world in commit op r.0 r.1 s
      | none ↦ (none, s)
    ]
  ]
