-- ===== src/Randutil/Strings.antt =====
-- randutil/string.go: GenerateRandomString.
use xutils.Prelude.{
  ℕ, zero, suc, ◌-◌, ◌%◌, ℤ, pos, negsuc, List, [], ◌∷◌, ◌++◌, Option, none, some, length,
  get_elem?, leb, ltb, if◌then◌else◌,
}
use xutils.Bytes.{Bytes, codes}

abbrev pub default_alphabet : Bytes
default_alphabet = codes "abcdefghijklmnopqrstuvwxyzABCDEFGHIJKLMNOPQRSTUVWXYZ0123456789_-@#$%"

-- WithAlphabet
abbrev pub with_alphabet : Bytes → Bytes → Bytes
with_alphabet [] old = old
with_alphabet (c ∷ cs) old = c ∷ cs

-- The loop over the options, each the alphabet that WithAlphabet is given.
unfoldable pub apply_alphabets : List Bytes → Bytes → Bytes
apply_alphabets [] alphabet = alphabet
apply_alphabets (o ∷ opts) alphabet = apply_alphabets opts (with_alphabet o alphabet)

pub data StringResult : Type 0 where
  generated : Bytes → StringResult
  too_large : ℕ → StringResult
  read_failed : StringResult
  -- an index out of range
  out_of_range : StringResult
  -- the model ran out of batches
  unfinished : StringResult

-- The largest multiple of the alphabet's length that fits in a byte.
abbrev pub accept_of : ℕ → ℕ
accept_of al_len = 256 - 256 % al_len

-- The index that a random byte stands for; `none` where it is discarded.
unfoldable pub pick : ℕ → ℕ → Option ℕ
pick al_len rb = if leb (accept_of al_len) rb then none else some (rb % al_len)

-- A letter in front of what the rest of the loop gives; `none` is a panic.
abbrev pub put : Option ℕ → Option Bytes × ℕ → Option Bytes × ℕ
put (some c) (some text, left) = (some (c ∷ text), left)
put _ (text, left) = (none, left)

-- The inner loop, over a batch of random bytes: the letters it adds, and how many are left to find.
unfoldable pub fill : Bytes → ℕ → Bytes → Option Bytes × ℕ
unfolding pick
fill alphabet zero buf = (some [], 0)
fill alphabet (suc left) [] = (some [], suc left)
fill alphabet (suc left) (rb ∷ buf) =
    let skipped = fill alphabet (suc left) buf in
    let taken = fill alphabet left buf in
    elim (pick (length alphabet) rb) [ none ↦ skipped | some i ↦ put (get_elem? alphabet i) taken ]

abbrev pub after_batch : Option Bytes → StringResult → StringResult
after_batch none rest = out_of_range
after_batch (some text) (generated more) = generated (text ++ more)
after_batch (some text) rest = rest

-- The outer loop, for at most `fuel` batches; `read k` is the batch that the k-th rand.Read gives.
unfoldable pub draw : Bytes → (ℕ → Option Bytes) → ℕ → ℕ → ℕ → StringResult
unfolding fill
draw alphabet read fuel k zero = generated []
draw alphabet read zero k (suc left) = unfinished
draw alphabet read (suc fuel) k (suc left) = elim (read k) [
  | none ↦ read_failed
  | some buf ↦
      let batch = fill alphabet (suc left) buf in
      after_batch batch.0 (draw alphabet read fuel (suc k) batch.1)
]

-- From the check of the alphabet on
unfoldable pub generate_from : Bytes → (ℕ → Option Bytes) → ℕ → ℕ → StringResult
unfolding draw
generate_from alphabet read fuel n =
    if ltb 256 (length alphabet) then too_large (length alphabet) else draw alphabet read fuel 0 n

-- GenerateRandomString
unfoldable pub generate_random_string : ℤ → List Bytes → (ℕ → Option Bytes) → ℕ → StringResult
unfolding generate_from apply_alphabets
generate_random_string (negsuc n) opts read fuel = generated []
generate_random_string (pos zero) opts read fuel = generated []
generate_random_string (pos (suc n)) opts read fuel =
    generate_from (apply_alphabets opts default_alphabet) read fuel (suc n)
