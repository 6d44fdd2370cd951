-- ===== src/Pipeline/Rollback/Compaction.antt =====
-- Compaction and the steps to compensate (pipeline/compact.go, pipeline/executor.go).
use xutils.Prelude.{
  ℕ, zero, suc, ℤ, List, [], ◌∷◌, ◌++◌, false, some, ◌≡◌, refl, ap, sym, ◌∙◌, length, take,
  get_elem?, Bool-cases, inl, inr, ◌⊎◌,
}
use xutils.Bytes.{StepPath}
use xutils.Bytes.Decimal.{itoa}
use xutils.Pipeline.State.{RunState, CompletedStep}
use xutils.Pipeline.Definition.{Steps}
use xutils.Pipeline.Paths.{has_path_prefix}
use xutils.Pipeline.Compact.{keep_outside, compact_repeat_iteration}
use xutils.Pipeline.Rollback.Plan.{due_at, due}

-- No completed step below a path has a compensator.
abbrev pub FreeBelow : StepPath → List CompletedStep → Type 0
FreeBelow prefix [] = Unit {0}
FreeBelow prefix (c ∷ cs) =
    ((has_path_prefix c.path prefix ≡ false) ⊎ (c.has_compensator ≡ false)) × FreeBelow prefix cs

module _ {W V : Type 0} (steps : Steps W V) where
  -- The steps to compensate of a list, the last one first, and then `acc`.
  abbrev collect : List CompletedStep → List StepPath → List StepPath
  collect [] acc = acc
  collect (c ∷ cs) acc = collect cs (due_at steps (some c) acc)

  collect-snoc :
      (cs : List CompletedStep) (c : CompletedStep) (acc : List StepPath)
      → collect (cs ++ c ∷ []) acc ≡ due_at steps (some c) (collect cs acc)
  collect-snoc [] c acc = refl
  collect-snoc (d ∷ cs) c acc = collect-snoc cs c (due_at steps (some d) acc)

  -- One step more of a list, or none where the list has ended.
  collect-take :
      (cs : List CompletedStep) (n : ℕ) (acc : List StepPath)
      → collect (take (suc n) cs) acc ≡ due_at steps (get_elem? cs n) (collect (take n cs) acc)
  collect-take [] zero acc = refl
  collect-take [] (suc n) acc = refl
  collect-take (c ∷ cs) zero acc = refl
  collect-take (c ∷ cs) (suc n) acc = collect-take cs n (due_at steps (some c) acc)

  due-collect : (cs : List CompletedStep) (n : ℕ) → due steps cs n ≡ collect (take n cs) []
  due-collect cs zero = refl
  due-collect cs (suc n) =
      ap (due_at steps (get_elem? cs n)) (due-collect cs n) ∙ sym (collect-take cs n [])

  take-length : (cs : List CompletedStep) → take (length cs) cs ≡ cs
  take-length [] = refl
  take-length (c ∷ cs) = ap (λ s. c ∷ s) (take-length cs)

  due-all : (cs : List CompletedStep) → due steps cs (length cs) ≡ collect cs []
  due-all cs = due-collect cs (length cs) ∙ ap (λ s. collect s []) (take-length cs)

  collect-outside :
      (prefix : StepPath) (cs : List CompletedStep) (acc : List StepPath)
      → FreeBelow prefix cs
      → collect (keep_outside prefix cs) acc ≡ collect cs acc
  unfolding keep_outside
  collect-outside prefix [] acc h = refl
  collect-outside prefix (c ∷ cs) acc h = elim (Bool-cases (has_path_prefix c.path prefix)) [
    | inl below ↦
        let free : c.has_compensator ≡ false = elim h.0 [
          | inl outside ↦ cc (below, outside)
          | inr f ↦ f
        ] in
        rw (below, free) (collect-outside prefix cs acc h.1)
    | inr outside ↦ rw outside (collect-outside prefix cs (due_at steps (some c) acc) h.1)
  ]

-- After compactRepeatIteration the steps to compensate are the same as before, in the same order, if
-- no completed step of the iteration is recorded with a compensator.
pub compact_repeat_iteration-due :
    {W V : Type 0} (steps : Steps W V) (repeat_path : StepPath) (iteration : ℤ) (r : RunState)
    → FreeBelow (repeat_path ++ itoa iteration ∷ []) r.completed_steps
    → due steps
        (compact_repeat_iteration repeat_path iteration r).completed_steps
        (length (compact_repeat_iteration repeat_path iteration r).completed_steps)
      ≡ due steps r.completed_steps (length r.completed_steps)
unfolding compact_repeat_iteration
compact_repeat_iteration-due steps repeat_path iteration r h =
    due-all steps (keep_outside (repeat_path ++ itoa iteration ∷ []) r.completed_steps)
    ∙ collect-outside steps (repeat_path ++ itoa iteration ∷ []) r.completed_steps [] h
    ∙ sym (due-all steps r.completed_steps)
