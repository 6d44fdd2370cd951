-- ===== src/Randutil/Uniform.antt =====
-- The indices of random bytes (randutil/string.go).
use native.Mathlib.Nat.{mul-add-mod_self_right, mod-eq_of_lt, mod-add-div'}
use xutils.Prelude.{
  ℕ, zero, suc, ◌+◌, ◌*◌, ◌/◌, ◌%◌, ◌≤◌, ◌<◌, Bool, true, false, Option, none, some, leb, ltb, ◌==◌,
  ◌≡◌, arith, ap, ◌∙◌,
}
use xutils.Randutil.Strings.{accept_of, pick}

abbrev pub one_if_true : Bool → ℕ
one_if_true true = 1
one_if_true false = 0

-- How many numbers below `n` pass a test.
unfoldable pub count : (ℕ → Bool) → ℕ → ℕ
count p zero = 0
count p (suc n) = one_if_true (p n) + count p n

abbrev pub stands_for : Option ℕ → ℕ → Bool
stands_for none j = false
stands_for (some i) j = i == j

module _ (al_len j : ℕ) (below : j < al_len) where
  abbrev is_hit : ℕ → Bool
  is_hit b = stands_for (pick al_len b) j

  -- A byte that is used has its remainder as index.
  pick-used : (b : ℕ) → b < accept_of al_len → pick al_len b ≡ some (b % al_len)
  unfolding pick
  pick-used b h = let used : leb (accept_of al_len) b ≡ false = ground (arith, h) in rw used

  pick-discarded : (b : ℕ) → accept_of al_len ≤ b → pick al_len b ≡ none
  unfolding pick
  pick-discarded b h = let late : leb (accept_of al_len) b ≡ true = ground (arith, h) in rw late

  hit_test :
      (q r : ℕ)
      → r < al_len
      → q * al_len + r < accept_of al_len
      → is_hit (q * al_len + r) ≡ (r == j)
  hit_test q r h used =
      ap (λ o. stands_for o j) (pick-used (q * al_len + r) used)
      ∙ ap (λ i. i == j) (mul-add-mod_self_right q al_len r ∙ mod-eq_of_lt h)

  one_more :
      (q r : ℕ)
      → one_if_true (r == j) + (q + one_if_true (ltb j r)) ≡ q + one_if_true (ltb j (suc r))
  one_more q r = ground arith

  -- Among the first q whole rounds and r more, the index j comes up q times, and once more if it is
  -- below r.
  count-rounds :
      (q r n : ℕ)
      → n ≡ q * al_len + r
      → n ≤ accept_of al_len
      → r ≤ al_len
      → count is_hit n ≡ q + one_if_true (ltb j r)
  unfolding count
  count-rounds zero zero zero e used h = ground arith
  count-rounds zero zero (suc n) e used h = absurd (omega (arith, e))
  count-rounds (suc q) zero n e used h =
      let full : ltb j al_len ≡ true = ground (arith, below) in
      count-rounds q al_len n (omega (arith, e)) used (omega arith)
      ∙ ap (λ b. q + one_if_true b) full
      ∙ ground arith
  count-rounds q (suc r) zero e used h = absurd (omega (arith, e))
  count-rounds q (suc r) (suc n) e used h =
      let e' : n ≡ q * al_len + r = omega (arith, e) in
      let hit : is_hit n ≡ (r == j) =
        ap is_hit e' ∙ hit_test q r (omega (arith, h)) (omega (arith, e, used)) in
      ap (λ b. one_if_true b + count is_hit n) hit
      ∙ ap (λ m. one_if_true (r == j) + m)
          (count-rounds q r n e' (omega (arith, used)) (omega (arith, h)))
      ∙ one_more q r

  count-discarded : (n : ℕ) → count is_hit (n + accept_of al_len) ≡ count is_hit (accept_of al_len)
  unfolding count
  count-discarded zero = ap (count is_hit) (omega arith)
  count-discarded (suc n) =
      let miss : is_hit (n + accept_of al_len) ≡ false =
        ap (λ o. stands_for o j) (pick-discarded (n + accept_of al_len) (omega arith)) in
      let front : suc n + accept_of al_len ≡ suc (n + accept_of al_len) = omega arith in
      ap (count is_hit) front
      ∙ ap (λ b. one_if_true b + count is_hit (n + accept_of al_len)) miss
      ∙ omega (arith, count-discarded n)

  -- Of the 256 values of a random byte the same number stands for every index of the alphabet, so that
  -- each letter is as likely as any other.
  pub pick-uniform : count is_hit 256 ≡ 256 / al_len
  pick-uniform =
      let parts = mod-add-div' 256 al_len in
      let rounds : accept_of al_len ≡ 256 / al_len * al_len + 0 = omega (arith, parts) in
      let split : 256 ≡ 256 % al_len + accept_of al_len = omega (arith, parts) in
      ap (count is_hit) split
      ∙ count-discarded (256 % al_len)
      ∙ count-rounds (256 / al_len) 0 (accept_of al_len) rounds (omega arith) (omega arith)
      ∙ ground arith
