-- ===== src/Pipeline/Paths/RoundTrip.antt =====
-- Step paths and their keys: reading a key back.
use xutils.Prelude.{ℕ, List, [], ◌∷◌, ◌++◌, append-nil, ◌≡◌, ◌≢◌, refl, sym, ap, ◌∙◌, arith}
use xutils.Bytes.{Bytes, StepPath}
use mathlib.Core.List.{map}
use xutils.Pipeline.Paths.{
  replace_byte, replace_pair, escape, unescape, join_slash, extend_head, split_slash, step_path_key,
  step_path_from_key,
}

-- No byte of the text is `/`.
abbrev NoSlash : Bytes → Type 0
NoSlash [] = Unit {0}
NoSlash (c ∷ s) = (c ≢ b'/') × NoSlash s

tildes : Bytes → Bytes
unfolding replace_byte
tildes = replace_byte b'~' (b'~' ∷ b'0' ∷ [])

slashes : Bytes → Bytes
unfolding replace_byte
slashes = replace_byte b'/' (b'~' ∷ b'1' ∷ [])

-- A byte that starts no pattern is copied.
replace_pair-skip :
    (a b by c : ℕ) (s : Bytes) → c ≢ a → replace_pair a b by (c ∷ s) ≡ c ∷ replace_pair a b by s
unfolding replace_pair
replace_pair-skip a b by c [] h = refl
replace_pair-skip a b by c (x ∷ s) h = ground arith

unescape_slashes : (s : Bytes) → replace_pair b'~' b'1' b'/' (slashes (tildes s)) ≡ tildes s
unfolding slashes tildes replace_pair
unescape_slashes [] = refl
unescape_slashes (c ∷ s) = ground (
  arith,
  unescape_slashes s,
  replace_pair-skip b'~' b'1' b'/' b'0' (slashes (tildes s)),
  replace_pair-skip b'~' b'1' b'/' c (slashes (tildes s)),
)

unescape_tildes : (s : Bytes) → replace_pair b'~' b'0' b'~' (tildes s) ≡ s
unfolding tildes replace_pair
unescape_tildes [] = refl
unescape_tildes (c ∷ s) =
    ground (arith, unescape_tildes s, replace_pair-skip b'~' b'0' b'~' c (tildes s))

unescape-escape : (s : Bytes) → unescape (escape s) ≡ s
unfolding unescape escape slashes tildes
unescape-escape s = ap (replace_pair b'~' b'0' b'~') (unescape_slashes s) ∙ unescape_tildes s

escape-NoSlash : (s : Bytes) → NoSlash (escape s)
unfolding escape replace_byte
escape-NoSlash [] = tt
escape-NoSlash (c ∷ s) = ground (arith, escape-NoSlash s)

split-append :
    (p : Bytes) (s : Bytes)
    → NoSlash p
    → (x : Bytes) (xs : List Bytes) → split_slash s ≡ x ∷ xs
    → split_slash (p ++ s) ≡ (p ++ x) ∷ xs
unfolding split_slash extend_head
split-append [] s h x xs e = e
split-append (c ∷ p) s h x xs e = ground (arith, split-append p s h.1 x xs e)

split-append_nil : (p : Bytes) → NoSlash p → split_slash p ≡ p ∷ []
unfolding split_slash extend_head
split-append_nil [] h = refl
split-append_nil (c ∷ p) h = ground (arith, split-append_nil p h.1)

-- Every text of the list lacks `/`.
abbrev AllNoSlash : List Bytes → Type 0
AllNoSlash [] = Unit {0}
AllNoSlash (p ∷ ps) = NoSlash p × AllNoSlash ps

split-slash : (s : Bytes) → split_slash (b'/' ∷ s) ≡ [] ∷ split_slash s
unfolding split_slash
split-slash s = ground arith

split-join :
    (p : Bytes) (ps : List Bytes)
    → NoSlash p
    → AllNoSlash ps
    → split_slash (p ++ join_slash ps) ≡ p ∷ ps
unfolding join_slash
split-join p [] h hs = rw append-nil (split-append_nil p h)
split-join p (q ∷ qs) h hs =
    split-append p (b'/' ∷ (q ++ join_slash qs)) h [] (q ∷ qs)
      (split-slash (q ++ join_slash qs) ∙ ap (λ r. [] ∷ r) (split-join q qs hs.0 hs.1))
    ∙ ap (λ r. r ∷ q ∷ qs) (append-nil p)

escapes-AllNoSlash : (path : StepPath) → AllNoSlash (map escape path)
escapes-AllNoSlash [] = tt
escapes-AllNoSlash (p ∷ ps) = (escape-NoSlash p, escapes-AllNoSlash ps)

unescapes : (path : StepPath) → map unescape (map escape path) ≡ path
unescapes [] = refl
unescapes (p ∷ ps) = cc (unescape-escape p, unescapes ps)

-- Reading a key back gives the path that it was made from, whatever bytes, `/` and `~` among them,
-- the names hold.
pub path-key_roundtrip : (path : StepPath) → step_path_from_key (step_path_key path) ≡ path
unfolding step_path_from_key step_path_key
path-key_roundtrip [] = refl
path-key_roundtrip (p ∷ ps) =
    ap (map unescape)
      (split-join (escape p) (map escape ps) (escape-NoSlash p) (escapes-AllNoSlash ps))
    ∙ unescapes (p ∷ ps)

-- Two paths with one key are one path, so no two steps share diagnostics or a repeat state.
step_path_key-injective : (p q : StepPath) → step_path_key p ≡ step_path_key q → p ≡ q
step_path_key-injective p q e =
    sym (path-key_roundtrip p) ∙ ap step_path_from_key e ∙ path-key_roundtrip q
