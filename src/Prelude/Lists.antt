-- ===== src/Prelude/Lists.antt =====
-- Lists over the native numbers, and Go's `slices.Equal`.
use Prim.Native.Nat.{ℕ, zero, suc, ◌+◌}
use mathlib.Core.Path.{◌≡◌, refl}
use mathlib.Core.Logic.{◌↔◌}
use mathlib.Core.Bool.{Bool, true, false, ◌&&◌}
use mathlib.Core.Option.{Option, none, some}
use mathlib.Core.List.{List, [], ◌∷◌, ◌++◌}
use native.Mathlib.Omega.{arith}

module _ {ℓ} {A : Type ℓ} where
  abbrev pub length : List A → ℕ
  length [] = 0
  length (x ∷ xs) = suc (length xs)

  abbrev pub get_elem? : List A → ℕ → Option A
  get_elem? [] i = none
  get_elem? (x ∷ xs) zero = some x
  get_elem? (x ∷ xs) (suc i) = get_elem? xs i

  abbrev pub drop : ℕ → List A → List A
  drop zero xs = xs
  drop (suc n) [] = []
  drop (suc n) (x ∷ xs) = drop n xs

  abbrev pub take : ℕ → List A → List A
  take zero xs = []
  take (suc n) [] = []
  take (suc n) (x ∷ xs) = x ∷ take n xs

  pub length-append : (xs ys : List A) → length (xs ++ ys) ≡ length xs + length ys
  length-append [] ys = omega arith
  length-append (x ∷ xs) ys = omega (arith, length-append xs ys)

  -- `slices.Equal` at a test of the elements.
  abbrev pub equal : (A → A → Bool) → List A → List A → Bool
  equal eq [] [] = true
  equal eq (x ∷ xs) (y ∷ ys) = eq x y && equal eq xs ys
  equal eq _ _ = false

  module _ {eq : A → A → Bool} (iff : (a b : A) → (eq a b ≡ true) ↔ (a ≡ b)) where
    pub eq_of_equal : (xs ys : List A) → equal eq xs ys ≡ true → xs ≡ ys
    eq_of_equal [] [] h = refl
    eq_of_equal [] (y ∷ ys) h = cc
    eq_of_equal (x ∷ xs) [] h = cc
    eq_of_equal (x ∷ xs) (y ∷ ys) h = ground (arith, (iff x y).0, eq_of_equal xs ys)

    pub equal_refl : (xs : List A) → equal eq xs xs ≡ true
    equal_refl [] = refl
    equal_refl (x ∷ xs) = ground (arith, (iff x x).1 refl, equal_refl xs)

    pub equal_iff : (xs ys : List A) → (equal eq xs ys ≡ true) ↔ (xs ≡ ys)
    equal_iff xs ys = (eq_of_equal xs ys, λ p. ground (arith, equal_refl xs))
