-- ===== src/Pipeline/Resumption.antt =====
-- A step that is interrupted by a cancellation, and the resume after it (pipeline/executor.go).
use xutils.Prelude.{List, [], ◌∷◌, ◌++◌, none, ◌≡◌, refl, true, false, is_some, sym, subst}
use xutils.Bytes.{StepPath, same_path_iff}
use xutils.Pipeline.Errors.{Err, is_snapshot_failed, is_deferred}
use xutils.Pipeline.Definition.{Executor, Steps}
use xutils.Pipeline.Machine.{
  Machine, when◌then◌else◌, or_return, unless_cancelled, ctx_err, marshal_store, marshal_data,
  keep_data,
}
use xutils.Pipeline.Engine.Lookup.{is_step_completed}
use xutils.Pipeline.Engine.Sequence.{
  StepExec, interrupted_at, step_error, sequence_from, execute_steps,
}

module _ {W V : Type 0} (e : Executor W V) (steps : Steps W V) where
  -- The state that an interrupted step leaves.
  abbrev interrupted : StepPath → Machine W V → Machine W V
  interrupted path m = record m {
    run = record m.run { data_json = (marshal_store e m.store).1; current_path = path };
    world = (e.ctx_err (e.ctx_err m.world).1).1;
  }

  step_error-interrupted :
      (path : StepPath) (err : Err) (m : Machine W V)
      → is_snapshot_failed err ≡ false
      → is_deferred err ≡ false
      → is_some (e.ctx_err m.world).0 ≡ true
      → (marshal_store e m.store).0 ≡ none
      → (step_error e steps path err m).1 ≡ interrupted path m
  unfolding step_error when◌then◌else◌ unless_cancelled ctx_err interrupted_at marshal_data
      keep_data or_return
  step_error-interrupted path err m hs hd hc hm = rw (hs, hd, hc, hm)

  skip_completed :
      (x : StepExec W V) (xs : List (StepExec W V)) (parent : StepPath) (m : Machine W V)
      → m.run.current_path ≡ parent ++ x.name ∷ []
      → is_step_completed m.run.completed_steps (parent ++ x.name ∷ []) ≡ true
      → execute_steps e steps (x ∷ xs) 0 parent m
        ≡ sequence_from e steps false xs parent m.run.current_path m
  unfolding execute_steps sequence_from when◌then◌else◌
  skip_completed x xs parent m here done =
      rw ((same_path_iff (parent ++ x.name ∷ []) m.run.current_path).1 (sym here), done)

  -- A step already in the journal (a branch is, from its decision on) is interrupted by a
  -- cancellation: its error is neither a deferral nor a failed snapshot, the context is cancelled, and
  -- the data can be marshalled. Then a scope that is resumed with the state this leaves goes on
  -- with the steps after the interrupted one: what the step had left to do is never done.
  pub resume-skips_interrupted :
      (x : StepExec W V) (xs : List (StepExec W V)) (parent : StepPath) (err : Err)
      (m : Machine W V)
      → is_snapshot_failed err ≡ false
      → is_deferred err ≡ false
      → is_some (e.ctx_err m.world).0 ≡ true
      → (marshal_store e m.store).0 ≡ none
      → is_step_completed m.run.completed_steps (parent ++ x.name ∷ []) ≡ true
      → execute_steps e steps (x ∷ xs) 0 parent (step_error e steps (parent ++ x.name ∷ []) err m).1
        ≡ sequence_from e steps false xs parent
            (parent ++ x.name ∷ [])
            (step_error e steps (parent ++ x.name ∷ []) err m).1
  resume-skips_interrupted x xs parent err m hs hd hc hm done =
      let path = parent ++ x.name ∷ [] in
      subst
        (λ m'.
          execute_steps e steps (x ∷ xs) 0 parent m'
          ≡ sequence_from e steps false xs parent path m')
        (sym (step_error-interrupted path err m hs hd hc hm))
        (skip_completed x xs parent (interrupted path m) refl done)
