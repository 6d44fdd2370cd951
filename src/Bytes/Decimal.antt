-- ===== src/Bytes/Decimal.antt =====
-- `strconv.Itoa` and `strconv.Atoi`, with which pipeline/executor.go writes iterations into paths.
use xutils.Prelude.{
  ℕ, zero, suc, ◌+◌, ◌-◌, ◌*◌, ◌/◌, ◌%◌, ◌≤◌, ◌<◌, List, [], ◌∷◌, ◌||◌, ◌≡◌, refl, ◌∙◌, Option,
  none, some, arith, ltb, leb, ◌==◌, if◌then◌else◌, ℤ, pos, negsuc, max_int64, InRange64,
  Bool-cases, inl, inr,
}

-- The digits of `n` in front of `out`; the first argument bounds their number.
emit : ℕ → ℕ → List ℕ → List ℕ
emit zero n out = out
emit (suc fuel) n out =
    let more = emit fuel (n / 10) ((b'0' + n % 10) ∷ out) in if n == 0 then out else more

unsigned : ℕ → List ℕ
unfolding emit
unsigned n = if n == 0 then b'0' ∷ [] else emit (suc n) n []

-- strconv.Itoa
unfoldable pub itoa : ℤ → List ℕ
unfolding unsigned
itoa (pos n) = unsigned n
itoa (negsuc n) = b'-' ∷ unsigned (suc n)

scan : ℕ → List ℕ → Option ℕ
scan acc [] = some acc
scan acc (c ∷ s) =
    let rest = scan (acc * 10 + (c - b'0')) s in if ltb c b'0' || ltb b'9' c then none else rest

magnitude : List ℕ → Option ℕ
unfolding scan
magnitude [] = none
magnitude (c ∷ s) = scan 0 (c ∷ s)

positive : ℕ → Option ℤ
positive n = if leb n max_int64 then some (pos n) else none

negative : ℕ → Option ℤ
negative zero = some (pos 0)
negative (suc n) = if leb n max_int64 then some (negsuc n) else none

when_digits : Option ℕ → (ℕ → Option ℤ) → Option ℤ
when_digits none k = none
when_digits (some n) k = k n

-- strconv.Atoi; `none` is any error, of syntax or of range
unfoldable pub atoi : List ℕ → Option ℤ
unfolding magnitude positive negative when_digits
atoi [] = none
atoi (c ∷ s) =
    if c == b'-'
    then when_digits (magnitude s) negative
    else if c == b'+'
    then when_digits (magnitude s) positive
    else when_digits (magnitude (c ∷ s)) positive

scan-emit : (fuel n : ℕ) (out : List ℕ) → n < fuel → scan 0 (emit fuel n out) ≡ scan n out
unfolding scan emit
scan-emit zero n out h = absurd (omega arith)
scan-emit (suc fuel) n out h = elim (Bool-cases (n == 0)) [
  | inl z ↦ ground arith
  | inr s ↦ rw s (scan-emit fuel (n / 10) ((b'0' + n % 10) ∷ out) (ground arith) ∙ ground arith)
]

-- The text of a number is its first digit and the others.
abbrev Digits : List ℕ → Type 0
Digits [] = ⊥
Digits (c ∷ s) = (b'0' ≤ c) × (c ≤ b'9')

emit-Digits : (fuel n : ℕ) (out : List ℕ) → Digits out → Digits (emit fuel n out)
unfolding emit
emit-Digits zero n out h = h
emit-Digits (suc fuel) n out h = ground (arith, emit-Digits fuel (n / 10) ((b'0' + n % 10) ∷ out))

emit_first : (fuel n : ℕ) → 0 < n → Digits (emit (suc fuel) n [])
unfolding emit
emit_first fuel n h = ground (arith, emit-Digits fuel (n / 10) ((b'0' + n % 10) ∷ []))

unsigned-Digits : (n : ℕ) → Digits (unsigned n)
unfolding unsigned
unsigned-Digits n = ground (arith, emit_first n n)

magnitude-Digits : (s : List ℕ) → Digits s → magnitude s ≡ scan 0 s
unfolding magnitude
magnitude-Digits [] h = absurd h
magnitude-Digits (c ∷ s) h = refl

scan-unsigned : (n : ℕ) → scan 0 (unsigned n) ≡ some n
unfolding unsigned scan
scan-unsigned n = ground (arith, scan-emit (suc n) n [])

magnitude-unsigned : (n : ℕ) → magnitude (unsigned n) ≡ some n
magnitude-unsigned n = magnitude-Digits (unsigned n) (unsigned-Digits n) ∙ scan-unsigned n

atoi-Digits : (s : List ℕ) → Digits s → atoi s ≡ when_digits (magnitude s) positive
unfolding atoi
atoi-Digits [] h = absurd h
atoi-Digits (c ∷ s) h = ground arith

-- Every int survives being written and read back.
pub atoi-itoa : (z : ℤ) → InRange64 z → atoi (itoa z) ≡ some z
unfolding itoa
atoi-itoa (pos n) h =
    atoi-Digits (unsigned n) (unsigned-Digits n)
    ∙ unfold when_digits positive in rw (magnitude-unsigned n) (ground arith)
atoi-itoa (negsuc n) h =
    unfold atoi when_digits negative in rw (magnitude-unsigned (suc n)) (ground arith)
