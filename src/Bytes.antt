-- ===== src/Bytes.antt =====
-- Go strings as lists of bytes, slices of them, and maps keyed by strings.
-- `strconv.Itoa` and `strconv.Atoi` are in `Bytes.Decimal`.
pub mod Dict
pub mod Decimal
use Prim.Native.Char.{code}
use xutils.Prelude.{ℕ, List, [], ◌∷◌, String, Bool, true, ◌≡◌, ◌↔◌, equal, equal_iff, ◌==◌, ==_iff}

abbrev pub Bytes : Type 0
Bytes = List ℕ

-- The bytes of an ASCII literal.
abbrev pub codes : String → Bytes
codes String.[] = []
codes (String.◌∷◌ c s) = code c ∷ codes s

abbrev pub same : Bytes → Bytes → Bool
same = equal ◌==◌

abbrev pub StepPath : Type 0
StepPath = List Bytes

abbrev pub same_path : StepPath → StepPath → Bool
same_path = equal same

pub same_iff : (a b : Bytes) → (same a b ≡ true) ↔ (a ≡ b)
same_iff = equal_iff ==_iff

pub same_path_iff : (a b : StepPath) → (same_path a b ≡ true) ↔ (a ≡ b)
same_path_iff = equal_iff same_iff
