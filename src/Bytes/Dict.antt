-- ===== src/Bytes/Dict.antt =====
-- Go's `map[string]V` as an association list. A nil map reads as an empty one; the code makes a
-- map before it writes to a nil one. The order of the entries is one order of iteration.
use xutils.Prelude.{
  ℕ, List, [], ◌∷◌, Option, none, some, ◌≡◌, refl, arith, equal, ◌==◌, if◌then◌else◌, equal_iff,
  equal_refl, ==_iff,
}

abbrev pub Dict {ℓ} : Type ℓ → Type ℓ
Dict V = List (List ℕ × V)

module _ {ℓ} {V : Type ℓ} where
  unfoldable pub lookup : List ℕ → Dict V → Option V
  lookup k [] = none
  lookup k ((j, v) ∷ m) = if equal ◌==◌ j k then some v else lookup k m

  -- `m[k] = v`
  unfoldable pub insert : List ℕ → V → Dict V → Dict V
  insert k v [] = (k, v) ∷ []
  insert k v ((j, w) ∷ m) = if equal ◌==◌ j k then (k, v) ∷ m else (j, w) ∷ insert k v m

  -- `delete(m, k)`
  unfoldable pub remove : List ℕ → Dict V → Dict V
  remove k [] = []
  remove k ((j, w) ∷ m) = let rest = remove k m in if equal ◌==◌ j k then rest else (j, w) ∷ rest

  -- `m[k]`, with the zero value where the key is missing
  unfoldable pub lookup_or : V → List ℕ → Dict V → V
  lookup_or d k m = elim (lookup k m) [ none ↦ d | some v ↦ v ]

  pub lookup-insert :
      (k j : List ℕ) (v : V) (m : Dict V)
      → lookup j (insert k v m) ≡ (if equal ◌==◌ k j then some v else lookup j m)
  unfolding lookup insert
  lookup-insert k j v [] = refl
  lookup-insert k j v ((i, w) ∷ m) = ground (
    arith,
    equal_iff ==_iff k j,
    equal_iff ==_iff i k,
    equal_iff ==_iff i j,
    lookup-insert k j v m,
  )

  pub lookup_or-insert :
      (d : V) (k : List ℕ) (v : V) (m : Dict V) → lookup_or d k (insert k v m) ≡ v
  unfolding lookup_or
  lookup_or-insert d k v m = ground (arith, lookup-insert k k v m, equal_refl ==_iff k)

  pub lookup-remove :
      (k j : List ℕ) (m : Dict V)
      → lookup j (remove k m) ≡ (if equal ◌==◌ k j then none else lookup j m)
  unfolding lookup remove
  lookup-remove k j [] = ground arith
  lookup-remove k j ((i, w) ∷ m) =
      ground (
        arith,
        equal_iff ==_iff k j,
        equal_iff ==_iff i k,
        equal_iff ==_iff i j,
        lookup-remove k j m,
      )
