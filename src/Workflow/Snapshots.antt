-- ===== src/Workflow/Snapshots.antt =====
-- workflow/workflow_methods.go, snapshot.go and workflow_vars.go: snapshots of the states of the steps
-- and back, and the values that they carry.
pub mod Places
pub mod RoundTrip
use xutils.Prelude.{ℕ, List, [], ◌∷◌, ◌++◌, ◌&&◌, Option, none, some, if◌then◌else◌, ◌==◌}
use xutils.Bytes.{Bytes, same}
use xutils.Bytes.Dict.{Dict, lookup, insert}
use xutils.Workflow.Errors.{Err, text, wrapped, sentinel, not_found}
use xutils.Workflow.State.{Any, StepState, valid}
use xutils.Workflow.Model.{Live, Step, Stage, Snapshot, put_cell}

-- The pointers of the steps in order; `none` is a nil pointer among them, which is dereferenced.
unfoldable pub step_pointers {ℓ} : {A : Type ℓ} → (A → ℕ) → List (Option A) → Option (List ℕ)
step_pointers f [] = some []
step_pointers f (none ∷ xs) = none
step_pointers f (some x ∷ xs) = elim (step_pointers f xs) [
  | none ↦ none
  | some ps ↦ some (f x ∷ ps)
]

module _ {W : Type 0} where
  unfoldable pub pointers : List (Option (Stage W)) → Option (List ℕ)
  unfolding step_pointers
  pointers [] = some []
  pointers (none ∷ stages) = none
  pointers (some stage ∷ stages) = elim (step_pointers (λ s. s.pointer) stage.steps) [
    | none ↦ none
    | some ps ↦ elim (pointers stages) [ none ↦ none | some qs ↦ some (ps ++ qs) ]
  ]

  -- StepStates, over the pointers of the steps: a step without a state is passed over.
  unfoldable pub step_states : List ℕ → Live W → List StepState
  step_states [] s = []
  step_states (p ∷ ps) s =
      let rest = step_states ps s in
      elim (s.cells p) [ none ↦ rest | some c ↦ if valid c.status then c ∷ rest else rest ]

  -- GetSnapshot
  unfoldable pub get_snapshot : List ℕ → Live W → Snapshot
  unfolding step_states
  get_snapshot ps s = record {
    steps_states = step_states ps s;
    workflow_state = s.state;
    vars = s.vars;
  }

  -- The inner loops of SetSnapshot: `state` goes to every step of its name in the stage of its name.
  unfoldable pub restore_steps : Bytes → List (Option (Step W)) → StepState → Live W → Live W
  restore_steps stage [] c s = s
  restore_steps stage (none ∷ steps) c s = restore_steps stage steps c s
  restore_steps stage (some step ∷ steps) c s = restore_steps stage steps c (
      if same stage c.current_stage && same step.name c.current_step
      then put_cell step.pointer c s
      else s)

  unfoldable pub restore_state : List (Option (Stage W)) → StepState → Live W → Live W
  unfolding restore_steps
  restore_state [] c s = s
  restore_state (none ∷ stages) c s = restore_state stages c s
  restore_state (some stage ∷ stages) c s =
      restore_state stages c (restore_steps stage.name stage.steps c s)

  unfoldable pub restore_all : List (Option (Stage W)) → List StepState → Live W → Live W
  unfolding restore_state
  restore_all stages [] s = s
  restore_all stages (c ∷ cs) s = restore_all stages cs (restore_state stages c s)

  -- SetSnapshot, on stages without a nil pointer
  unfoldable pub set_snapshot : List (Option (Stage W)) → Snapshot → Live W → Live W
  unfolding restore_all
  set_snapshot stages sh s = record (restore_all stages sh.steps_states s) {
    state = sh.workflow_state;
    vars = sh.vars;
  }

  -- SetVar
  unfoldable pub set_var : Bytes → Any → Live W → Live W
  set_var key v s = record s { vars = some (insert key v (elim s.vars [ none ↦ [] | some d ↦ d ])) }

  -- GetVar at the type `type_id`; `none` is ok = false.
  unfoldable pub get_var : ℕ → Bytes → Live W → Option ℕ
  get_var type_id key s = elim s.vars [
    | none ↦ none
    | some d ↦ elim (lookup key d) [
      | none ↦ none
      | some v ↦ if v.type_id == type_id then some v.value else none
    ]
  ]

-- The result of GetArg.
pub data ArgResult : Type 0 where
  found : ℕ → ArgResult
  refused : Err → ArgResult

abbrev pub arg_of : Option (Dict Any) → Bytes → Option Any
arg_of none key = none
arg_of (some d) key = lookup key d

unfoldable pub typed_arg : ℕ → Bytes → Option Any → ArgResult
typed_arg type_id key none =
    refused (wrapped "value not found for key %s: %w" (key ∷ []) (sentinel not_found))
typed_arg type_id key (some v) =
    if v.type_id == type_id then found v.value else refused (text "type assertion failed" [])

unfoldable pub search_arg : ℕ → Bytes → Bytes → List StepState → ArgResult
unfolding typed_arg
search_arg type_id step key [] = refused (text "step not found" [])
search_arg type_id step key (c ∷ cs) =
    if same c.current_step step
    then typed_arg type_id key (arg_of c.args key)
    else search_arg type_id step key cs

-- GetArg at the type `type_id`
unfoldable pub get_arg : ℕ → Snapshot → Bytes → Bytes → ArgResult
unfolding search_arg
get_arg type_id sh [] key = refused (text "step is empty" [])
get_arg type_id sh (c ∷ step) [] = refused (text "key is empty" [])
get_arg type_id sh (c ∷ step) (k ∷ key) = search_arg type_id (c ∷ step) (k ∷ key) sh.steps_states
