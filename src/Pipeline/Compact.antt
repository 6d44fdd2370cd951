-- ===== src/Pipeline/Compact.antt =====
-- pipeline/compact.go: a completed iteration of a Repeat with compact history leaves the journal.
use xutils.Prelude.{
  ℤ, List, [], ◌∷◌, ◌++◌, Bool, true, false, ◌&&◌, not, Option, none, some, length, drop,
  if◌then◌else◌, ltb_ℤ, leb_ℤ, ◌+ℤ◌, wrap64,
}
use xutils.Bytes.{Bytes, StepPath}
use xutils.Bytes.Dict.{Dict, lookup_or, insert, remove}
use xutils.Bytes.Decimal.{itoa}
use xutils.Pipeline.State.{
  RunState, CompletedStep, StepDiagnostics, no_diagnostics, RepeatState, Time,
}
use xutils.Pipeline.Paths.{step_path_key, step_path_from_key, has_path_prefix}

-- earlierTime
unfoldable pub earlier_time : Option Time → Option Time → Option Time
earlier_time none right = right
earlier_time (some l) none = some l
earlier_time (some l) (some r) = if ltb_ℤ l r then some l else some r

-- laterTime
unfoldable pub later_time : Option Time → Option Time → Bool
later_time none right = false
later_time (some l) none = true
later_time (some l) (some r) = leb_ℤ r l

abbrev pub is_empty : Bytes → Bool
is_empty [] = true
is_empty (_ ∷ _) = false

-- mergeDiagnostics
unfoldable pub merge_diagnostics : StepDiagnostics → StepDiagnostics → StepDiagnostics
unfolding earlier_time later_time
merge_diagnostics aggregate current =
    let newer = later_time current.last_started_at aggregate.last_started_at in
    record {
      attempts = wrap64 (aggregate.attempts +ℤ current.attempts);
      first_started_at = earlier_time aggregate.first_started_at current.first_started_at;
      last_started_at = if newer then current.last_started_at else aggregate.last_started_at;
      completed_at =
          if later_time current.completed_at aggregate.completed_at
          then current.completed_at
          else aggregate.completed_at;
      last_error =
          if newer && not (is_empty current.last_error)
          then current.last_error
          else aggregate.last_error;
      next_run_at = if newer then current.next_run_at else aggregate.next_run_at;
    }

-- The completed steps that do not lie in the iteration, in their order.
unfoldable pub keep_outside : StepPath → List CompletedStep → List CompletedStep
keep_outside prefix [] = []
keep_outside prefix (c ∷ cs) =
    let rest = keep_outside prefix cs in if has_path_prefix c.path prefix then rest else c ∷ rest

-- One round of the loop over the diagnostics: the entry of a step of the iteration is taken out and
-- merged into that of the step's path without the iteration's number.
unfoldable pub fold_diagnostic :
    StepPath → StepPath → Bytes → Dict StepDiagnostics → Dict StepDiagnostics
fold_diagnostic repeat_path prefix key m =
    let path = step_path_from_key key in
    let taken = remove key m in
    let target = step_path_key (repeat_path ++ drop (length prefix) path) in
    if has_path_prefix path prefix
    then insert target
        (merge_diagnostics (lookup_or no_diagnostics target taken) (lookup_or no_diagnostics key m))
        taken
    else m

-- The loop over the entries that the map has when it starts.
unfoldable pub fold_diagnostics :
    StepPath → StepPath → Dict StepDiagnostics → Dict StepDiagnostics → Dict StepDiagnostics
unfolding fold_diagnostic
fold_diagnostics repeat_path prefix [] m = m
fold_diagnostics repeat_path prefix ((key, d) ∷ entries) m =
    fold_diagnostics repeat_path prefix entries (fold_diagnostic repeat_path prefix key m)

unfoldable pub drop_repeat_states : StepPath → Dict RepeatState → Dict RepeatState
drop_repeat_states prefix [] = []
drop_repeat_states prefix ((key, s) ∷ m) =
    let rest = drop_repeat_states prefix m in
    if has_path_prefix (step_path_from_key key) prefix then rest else (key, s) ∷ rest

-- compactRepeatIteration
unfoldable pub compact_repeat_iteration : StepPath → ℤ → RunState → RunState
unfolding keep_outside fold_diagnostics drop_repeat_states
compact_repeat_iteration repeat_path iteration r =
    let prefix = repeat_path ++ itoa iteration ∷ [] in
    record r {
      completed_steps = keep_outside prefix r.completed_steps;
      step_diagnostics = fold_diagnostics repeat_path prefix r.step_diagnostics r.step_diagnostics;
      repeat_states = drop_repeat_states prefix r.repeat_states;
    }
