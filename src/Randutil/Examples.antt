-- ===== src/Randutil/Examples.antt =====
-- The theorems on randutil/ at a small alphabet.

use xutils.Prelude.{ℕ, pos, List, [], ◌∷◌, Option, some, ◌-◌, ◌/◌, ◌≡◌, refl, arith}
use xutils.Bytes.{Bytes, codes}
use xutils.Randutil.Strings.{apply_alphabets, generated, pick, generate_random_string}
use xutils.Randutil.Uniform.{count, stands_for, pick-uniform}
use xutils.Randutil.Drawing.{picks, batches, generate-letters}
use xutils.Randutil.Numbers.{
  number, generate_random_number, DrawsBelow, HasDigits, generate_random_number-HasDigits,
}

pick-uniform_example : count (λ b. stands_for (pick 68 b) 67) 256 ≡ 256 / 68
pick-uniform_example = pick-uniform 68 67 (omega arith)

abbrev three_letters : List Bytes
three_letters = [] ∷ codes "abc" ∷ []

-- The byte 255 is discarded.
abbrev source : ℕ → Option Bytes
source k = some (255 ∷ 4 ∷ 200 ∷ [])

generate-letters_example :
    generate_random_string (pos 3) three_letters source 2 ≡ generated (codes "bcb")
unfolding apply_alphabets picks pick batches
generate-letters_example =
    generate-letters three_letters source 2 2 (255 ∷ 4 ∷ 200 ∷ 255 ∷ 4 ∷ 200 ∷ []) (omega arith)
      refl (omega arith)

-- A choice of the largest number below the bound.
abbrev largest : ℕ → Option ℕ
largest span = some (span - 1)

largest-DrawsBelow : DrawsBelow largest
largest-DrawsBelow = record {
  chosen = λ span. span - 1;
  gives = λ span h. refl;
  bounded = λ span h. omega (arith, h);
}

generate_random_number-HasDigits_example :
    (v : ℕ) × (generate_random_number largest 19 ≡ number v) × HasDigits 19 v
generate_random_number-HasDigits_example =
    generate_random_number-HasDigits largest 18 largest-DrawsBelow (omega arith)
