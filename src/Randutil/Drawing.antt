-- ===== src/Randutil/Drawing.antt =====
-- What GenerateRandomString returns (randutil/string.go).
use native.Mathlib.Nat.{mod-lt}
use mathlib.Core.List.{map, map-append}
use xutils.Prelude.{
  ℕ, zero, suc, ◌-◌, ◌%◌, ◌≤◌, ◌<◌, pos, List, [], ◌∷◌, ◌++◌, Bool, true, false, Option, none, some,
  length, length-append, take, get_elem?, leb, ltb, if◌then◌else◌, ◌≡◌, refl, arith, ap, sym, ◌∙◌,
}
use xutils.Bytes.{Bytes}
use xutils.Randutil.Strings.{
  default_alphabet, apply_alphabets, generated, pick, put, fill, after_batch, draw, accept_of,
  generate_from, generate_random_string,
}

abbrev pub picked : Option ℕ → List ℕ → List ℕ
picked none rest = rest
picked (some i) rest = i ∷ rest

-- The indices that a sequence of random bytes gives.
unfoldable pub picks : ℕ → Bytes → List ℕ
picks al_len [] = []
picks al_len (rb ∷ rbs) = picked (pick al_len rb) (picks al_len rbs)

-- The letter at an index of the alphabet.
abbrev pub letter : Bytes → ℕ → ℕ
letter [] i = 0
letter (c ∷ cs) zero = c
letter (c ∷ cs) (suc i) = letter cs i

-- All the bytes of the batches from the k-th on, where none of them fails.
unfoldable pub batches : (ℕ → Option Bytes) → ℕ → ℕ → Option Bytes
batches read zero k = some []
batches read (suc fuel) k = elim (read k) [
  | none ↦ none
  | some buf ↦ elim (batches read fuel (suc k)) [ none ↦ none | some rest ↦ some (buf ++ rest) ]
]

picked-append : (o : Option ℕ) (xs ys : List ℕ) → picked o (xs ++ ys) ≡ picked o xs ++ ys
picked-append none xs ys = refl
picked-append (some i) xs ys = refl

picks-append : (n : ℕ) (xs ys : Bytes) → picks n (xs ++ ys) ≡ picks n xs ++ picks n ys
unfolding picks
picks-append n [] ys = refl
picks-append n (x ∷ xs) ys =
    ap (picked (pick n x)) (picks-append n xs ys)
    ∙ picked-append (pick n x) (picks n xs) (picks n ys)

take-append {ℓ} :
    {A : Type ℓ} (n : ℕ) (xs ys : List A) → take n (xs ++ ys) ≡ take n xs ++ take (n - length xs) ys
take-append zero xs ys = let none_left : 0 - length xs ≡ 0 = omega arith in rw none_left
take-append (suc n) [] ys = let all_left : suc n - 0 ≡ suc n = omega arith in rw all_left
take-append (suc n) (x ∷ xs) ys =
    let same_left : suc n - suc (length xs) ≡ n - length xs = omega arith in
    rw (same_left, take-append n xs ys)

-- The first batch and the others.
record Split (read : ℕ → Option Bytes) (fuel k : ℕ) (bytes : Bytes) : Type 0 where
  pub buf : Bytes
  pub rest : Bytes
  pub batch : read k ≡ some buf
  pub others : batches read fuel (suc k) ≡ some rest
  pub joined : buf ++ rest ≡ bytes

batches-Split :
    (read : ℕ → Option Bytes) (fuel k : ℕ) (bytes : Bytes)
    → batches read (suc fuel) k ≡ some bytes
    → Split read fuel k bytes
unfolding batches
batches-Split read fuel k bytes all = by_batch (read k) (batches read fuel (suc k)) refl refl all
  where
    by_batch :
        (o r : Option Bytes)
        → read k ≡ o
        → batches read fuel (suc k) ≡ r
        → (elim o [
          | none ↦ none
          | some buf ↦ elim r [ none ↦ none | some rest ↦ some (buf ++ rest) ]
        ])
          ≡ some bytes
        → Split read fuel k bytes
    by_batch none r e f h = cc
    by_batch (some buf) none e f h = cc
    by_batch (some buf) (some rest) e f h = record {
      buf = buf;
      rest = rest;
      batch = e;
      others = f;
      joined = cc;
    }

get-letter :
    (alphabet : Bytes) (i : ℕ)
    → i < length alphabet
    → get_elem? alphabet i ≡ some (letter alphabet i)
get-letter [] i h = absurd (omega (arith, h))
get-letter (c ∷ cs) zero h = refl
get-letter (c ∷ cs) (suc i) h = get-letter cs i (omega (arith, h))

module _ (alphabet : Bytes) (some_letter : 0 < length alphabet) where
  abbrev filled : ℕ → List ℕ → Option Bytes × ℕ
  filled left found = (some (map (letter alphabet) (take left found)), left - length found)

  pick-below : (rb i : ℕ) → pick (length alphabet) rb ≡ some i → i < length alphabet
  unfolding pick
  pick-below rb i h = by_test (leb (accept_of (length alphabet)) rb) h
    where
      by_test :
          (b : Bool)
          → (if b then none else some (rb % length alphabet)) ≡ some i
          → i < length alphabet
      by_test true g = cc
      by_test false g =
          let e : rb % length alphabet ≡ i = cc in omega (arith, mod-lt rb some_letter, e)

  by_pick :
      (left rb : ℕ) (buf : Bytes) (found : List ℕ) (o : Option ℕ)
      → pick (length alphabet) rb ≡ o
      → fill alphabet (suc left) buf ≡ filled (suc left) found
      → fill alphabet left buf ≡ filled left found
      → (elim o [
        | none ↦ fill alphabet (suc left) buf
        | some i ↦ put (get_elem? alphabet i) (fill alphabet left buf)
      ])
        ≡ filled (suc left) (picked o found)
  by_pick left rb buf found none e skipped taken = skipped
  by_pick left rb buf found (some i) e skipped taken =
      ap (λ c. put c (fill alphabet left buf)) (get-letter alphabet i (pick-below rb i e))
      ∙ ap (put (some (letter alphabet i))) taken
      ∙ ap (λ n. (some (letter alphabet i ∷ map (letter alphabet) (take left found)), n))
          (omega arith)

  fill-filled :
      (left : ℕ) (buf : Bytes) → fill alphabet left buf ≡ filled left (picks (length alphabet) buf)
  unfolding fill picks
  fill-filled zero buf = ap (λ n. (some [], n)) (omega arith)
  fill-filled (suc left) [] = ap (λ n. (some [], n)) (omega arith)
  fill-filled (suc left) (rb ∷ buf) =
      by_pick left rb buf (picks (length alphabet) buf) (pick (length alphabet) rb) refl
        (fill-filled (suc left) buf) (fill-filled left buf)

  after-append :
      (xs ys : List ℕ)
      → after_batch (some (map (letter alphabet) xs)) (generated (map (letter alphabet) ys))
        ≡ generated (map (letter alphabet) (xs ++ ys))
  after-append xs ys = ap generated (sym (map-append (letter alphabet) xs ys))

  draw-letters :
      (read : ℕ → Option Bytes) (fuel k left : ℕ) (bytes : Bytes)
      → batches read fuel k ≡ some bytes
      → left ≤ length (picks (length alphabet) bytes)
      → draw alphabet read fuel k left
        ≡ generated (map (letter alphabet) (take left (picks (length alphabet) bytes)))
  unfolding draw batches picks
  draw-letters read fuel k zero bytes all enough = refl
  draw-letters read zero k (suc left) [] all enough = absurd (omega (arith, enough))
  draw-letters read zero k (suc left) (b ∷ bytes) all enough = cc
  draw-letters read (suc fuel) k (suc left) bytes all enough =
      let b = batches-Split read fuel k bytes all in
      let found = picks (length alphabet) b.buf in
      let more = picks (length alphabet) b.rest in
      let parts : picks (length alphabet) bytes ≡ found ++ more =
        ap (picks (length alphabet)) (sym b.joined) ∙ picks-append (length alphabet) b.buf b.rest in
      let enough_more : suc left - length found ≤ length more =
        omega (arith, enough, ap length parts, length-append found more) in
      rw (b.batch, draw)
        (ap (λ f. after_batch f.0 (draw alphabet read fuel (suc k) f.1))
            (fill-filled (suc left) b.buf)
          ∙ ap (after_batch (some (map (letter alphabet) (take (suc left) found))))
              (draw-letters read fuel (suc k) (suc left - length found) b.rest b.others enough_more)
          ∙ after-append (take (suc left) found) (take (suc left - length found) more)
          ∙ ap (λ is. generated (map (letter alphabet) is))
              (sym (take-append (suc left) found more) ∙ ap (take (suc left)) (sym parts)))

apply_alphabets-nonempty :
    (opts : List Bytes) (alphabet : Bytes)
    → 0 < length alphabet
    → 0 < length (apply_alphabets opts alphabet)
unfolding apply_alphabets
apply_alphabets-nonempty [] alphabet h = h
apply_alphabets-nonempty ([] ∷ opts) alphabet h = apply_alphabets-nonempty opts alphabet h
apply_alphabets-nonempty ((c ∷ cs) ∷ opts) alphabet h =
    apply_alphabets-nonempty opts (c ∷ cs) (omega arith)

-- A string of n + 1 letters is the first n + 1 indices that the random bytes give, read in the
-- alphabet, with no index out of its range. The alphabet has at most 256 bytes, and the batches that
-- are read give as many indices without a failure.
pub generate-letters :
    (opts : List Bytes) (read : ℕ → Option Bytes) (fuel n : ℕ) (bytes : Bytes)
    → length (apply_alphabets opts default_alphabet) ≤ 256
    → batches read fuel 0 ≡ some bytes
    → n < length (picks (length (apply_alphabets opts default_alphabet)) bytes)
    → generate_random_string (pos (suc n)) opts read fuel
      ≡ generated (
          map
            (letter (apply_alphabets opts default_alphabet))
            (take (suc n) (picks (length (apply_alphabets opts default_alphabet)) bytes)))
unfolding generate_random_string generate_from
generate-letters opts read fuel n bytes small all enough =
    let alphabet = apply_alphabets opts default_alphabet in
    let fits : ltb 256 (length alphabet) ≡ false = ground (arith, small) in
    rw fits (
      draw-letters alphabet (apply_alphabets-nonempty opts default_alphabet (omega arith)) read fuel
        0 (suc n) bytes all enough)
