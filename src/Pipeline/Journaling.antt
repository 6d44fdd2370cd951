-- ===== src/Pipeline/Journaling.antt =====
-- What compaction keeps of the journal (pipeline/compact.go).
use xutils.Prelude.{
  ℕ, zero, suc, take, drop, length, length-append, ℤ, List, [], ◌∷◌, ◌++◌, ◌≡◌, refl, true, false,
  Bool, sym, ◌&&◌, not, arith, ap, ◌∙◌, ◌↔◌,
}
use xutils.Bytes.{StepPath, same_path_iff}
use xutils.Bytes.Decimal.{itoa}
use xutils.Pipeline.State.{CompletedStep, RunState}
use xutils.Pipeline.Paths.{has_path_prefix}
use xutils.Pipeline.Compact.{keep_outside, compact_repeat_iteration}
use xutils.Pipeline.Engine.Lookup.{is_step_completed}

keep_outside-completed :
    (prefix p : StepPath) (cs : List CompletedStep)
    → is_step_completed (keep_outside prefix cs) p
      ≡ (is_step_completed cs p && not (has_path_prefix p prefix))
unfolding keep_outside is_step_completed
keep_outside-completed prefix p [] = refl
keep_outside-completed prefix p (c ∷ cs) =
    ground (arith, same_path_iff c.path p, keep_outside-completed prefix p cs)

take_all : (prefix rest : StepPath) → take (length prefix) (prefix ++ rest) ≡ prefix
take_all [] rest = refl
take_all (x ∷ prefix) rest = ap (λ s. x ∷ s) (take_all prefix rest)

take-drop : (n : ℕ) (p : StepPath) → take n p ++ drop n p ≡ p
take-drop zero p = refl
take-drop (suc n) [] = refl
take-drop (suc n) (x ∷ p) = ap (λ s. x ∷ s) (take-drop n p)

starts : (rest prefix : StepPath) → has_path_prefix (prefix ++ rest) prefix ≡ true
unfolding has_path_prefix
starts rest prefix = ground (
  arith,
  take_all prefix rest,
  length-append prefix rest,
  same_path_iff (take (length prefix) (prefix ++ rest)) prefix,
)

rest_of :
    (path prefix : StepPath)
    → has_path_prefix path prefix ≡ true
    → path ≡ prefix ++ drop (length prefix) path
unfolding has_path_prefix
rest_of path prefix h =
    ground (arith, take-drop (length prefix) path, same_path_iff (take (length prefix) path) prefix)

-- hasPathPrefix holds exactly of the paths that the prefix starts, the prefix itself included.
has_path_prefix_iff :
    (path prefix : StepPath)
    → (has_path_prefix path prefix ≡ true) ↔ ((rest : StepPath) × (path ≡ prefix ++ rest))
has_path_prefix_iff path prefix = (
  λ h. (drop (length prefix) path, rest_of path prefix h),
  λ found. ap (λ p. has_path_prefix p prefix) found.1 ∙ starts found.0 prefix,
)

split_test :
    (a b : Bool) (x : Type 0) → (b ≡ true) ↔ x → ((a && not b) ≡ true) ↔ ((a ≡ true) × (x → ⊥))
split_test true true x h = (λ e. cc, λ f. elim (f.1 (h.0 refl)) [ ])
split_test true false x h = (λ e. (refl, λ y. cc (h.1 y)), λ f. refl)
split_test false b x h = (λ e. cc, λ f. cc (f.0))

-- After compactRepeatIteration a path counts as completed exactly if it did before and does not lie in
-- the iteration that was compacted, which is to start with the path of the repeat and the number of the
-- iteration.
pub compact_repeat_iteration-completed :
    (repeat_path : StepPath) (iteration : ℤ) (r : RunState) (p : StepPath)
    → (is_step_completed (compact_repeat_iteration repeat_path iteration r).completed_steps p
        ≡ true)
      ↔ ((is_step_completed r.completed_steps p ≡ true)
          × (((rest : StepPath) × (p ≡ (repeat_path ++ itoa iteration ∷ []) ++ rest)) → ⊥))
unfolding compact_repeat_iteration
compact_repeat_iteration-completed repeat_path iteration r p =
    let prefix = repeat_path ++ itoa iteration ∷ [] in
    let kept = keep_outside-completed prefix p r.completed_steps in
    let both =
      split_test (is_step_completed r.completed_steps p) (has_path_prefix p prefix) _
        (has_path_prefix_iff p prefix) in
    (λ h. both.0 (sym kept ∙ h), λ f. kept ∙ both.1 f)
