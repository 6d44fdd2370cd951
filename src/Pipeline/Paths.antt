-- ===== src/Pipeline/Paths.antt =====
-- The path keys and path tests of pipeline/executor.go and pipeline/compact.go.
pub mod RoundTrip
use xutils.Prelude.{
  ℕ, suc, List, [], ◌∷◌, ◌++◌, Bool, true, false, ◌&&◌, ◌==◌, if◌then◌else◌, leb, length, take,
  equal,
}
use xutils.Bytes.{Bytes, StepPath, same, same_path}
use mathlib.Core.List.{map}

-- strings.ReplaceAll of a one-byte pattern
replace_byte : ℕ → Bytes → Bytes → Bytes
replace_byte c by [] = []
replace_byte c by (x ∷ s) = if x == c then by ++ replace_byte c by s else x ∷ replace_byte c by s

-- strings.ReplaceAll of a two-byte pattern, from the left and without overlaps
replace_pair : ℕ → ℕ → ℕ → Bytes → Bytes
replace_pair a b by [] = []
replace_pair a b by (x ∷ []) = x ∷ []
replace_pair a b by (x ∷ y ∷ s) =
    let hit = by ∷ replace_pair a b by s in
    let miss = x ∷ replace_pair a b by (y ∷ s) in if (x == a) && (y == b) then hit else miss

-- one element of a key: `~` is written `~0`, and then `/` is written `~1`
escape : Bytes → Bytes
unfolding replace_byte
escape part = replace_byte b'/' (b'~' ∷ b'1' ∷ []) (replace_byte b'~' (b'~' ∷ b'0' ∷ []) part)

unescape : Bytes → Bytes
unfolding replace_pair
unescape part = replace_pair b'~' b'0' b'~' (replace_pair b'~' b'1' b'/' part)

-- `"/" + strings.Join(parts, "/")`
join_slash : List Bytes → Bytes
join_slash [] = []
join_slash (p ∷ ps) = b'/' ∷ (p ++ join_slash ps)

extend_head : ℕ → List Bytes → List Bytes
extend_head c [] = (c ∷ []) ∷ []
extend_head c (p ∷ ps) = (c ∷ p) ∷ ps

-- `strings.Split(s, "/")`
split_slash : Bytes → List Bytes
unfolding extend_head
split_slash [] = [] ∷ []
split_slash (c ∷ s) =
    let rest = split_slash s in if c == b'/' then [] ∷ rest else extend_head c rest

-- `strings.TrimPrefix(key, "/")`
trim_slash : Bytes → Bytes
trim_slash [] = []
trim_slash (c ∷ s) = if c == b'/' then s else c ∷ s

-- StepPathKey; of an empty path the key is empty
unfoldable pub step_path_key : StepPath → Bytes
unfolding escape join_slash
step_path_key path = join_slash (map escape path)

-- stepPathFromKey
unfoldable pub step_path_from_key : Bytes → StepPath
unfolding unescape split_slash trim_slash
step_path_from_key [] = []
step_path_from_key (c ∷ s) = map unescape (split_slash (trim_slash (c ∷ s)))

-- hasPathPrefix
unfoldable pub has_path_prefix : StepPath → StepPath → Bool
has_path_prefix path prefix =
    leb (length prefix) (length path) && same_path (take (length prefix) path) prefix

-- isPathPrefix: `prefix` starts `path`, and `path` is longer
unfoldable pub is_path_prefix : StepPath → StepPath → Bool
is_path_prefix [] [] = false
is_path_prefix [] (x ∷ path) = true
is_path_prefix (p ∷ prefix) [] = false
is_path_prefix (p ∷ prefix) (x ∷ path) = same x p && is_path_prefix prefix path
