-- ===== src/Syncutil/Slices.antt =====
-- syncutil/slices.go: Slice. GetAll copies the items, as values of the model are. A call locks the
-- mutex, and waits for ever where an earlier call has left it locked; it unlocks it on its way out,
-- unless it panics and its Unlock is not deferred.
use xutils.Prelude.{
  ℕ, zero, suc, ℤ, pos, negsuc, List, [], ◌∷◌, ◌++◌, Bool, true, false, Option, none, some, length,
  ltb, if◌then◌else◌, ◌≡◌, refl, ap,
}

pub record Slice (T : Type 0) : Type 0 where
  pub items : List T
  pub locked : Bool

pub data SliceCall (T : Type 0) : Type 0 where
  add : T → SliceCall T
  add_to_index : ℤ → T → SliceCall T
  add_many : List T → SliceCall T
  get_all : SliceCall T
  len : SliceCall T

pub data Reply (T : Type 0) : Type 0 where
  done : Reply T
  items_are : List T → Reply T
  size_is : ℕ → Reply T
  panicked : Reply T
  -- the call waits for the mutex for ever
  blocked : Reply T

abbrev pub index_of : ℤ → ℕ
index_of (pos i) = i
index_of (negsuc i) = 0

module _ {T : Type 0} where
  -- NewSlice
  abbrev pub new_slice : Slice T
  new_slice = record { items = []; locked = false }

  abbrev pub zeros : T → ℕ → List T
  zeros z zero = []
  zeros z (suc n) = z ∷ zeros z n

  -- NewSliceWithLength, with the zero value of the type and a length that is not negative
  abbrev pub new_slice_with_length : T → ℕ → Slice T
  new_slice_with_length z n = record { items = zeros z n; locked = false }

  -- `items[i] = x` within the bounds
  unfoldable pub put_at : ℕ → T → List T → List T
  put_at i x [] = []
  put_at zero x (y ∷ ys) = x ∷ ys
  put_at (suc i) x (y ∷ ys) = y ∷ put_at i x ys

  abbrev pub in_bounds : ℤ → List T → Bool
  in_bounds (pos i) xs = ltb i (length xs)
  in_bounds (negsuc i) xs = false

  -- What a call does with the items while it holds the mutex; `none` is a panic.
  unfoldable pub body : SliceCall T → List T → Option (Reply T × List T)
  unfolding put_at
  body (add x) xs = some (done, xs ++ x ∷ [])
  body (add_to_index i x) xs =
      if in_bounds i xs then some (done, put_at (index_of i) x xs) else none
  body (add_many ys) xs = some (done, xs ++ ys)
  body get_all xs = some (items_are xs, xs)
  body len xs = some (size_is (length xs), xs)

  -- Whether the Unlock is deferred, and so runs on a panic too.
  abbrev pub defers_unlock : SliceCall T → Bool
  defers_unlock get_all = true
  defers_unlock len = true
  defers_unlock _ = false

  abbrev pub lock : Slice T → Slice T
  lock s = record s { locked = true }

  abbrev pub unlock : Slice T → Slice T
  unlock s = record s { locked = false }

  -- The call returns past its Unlock, or panics, where only a deferred Unlock runs.
  unfoldable pub leave : Bool → Option (Reply T × List T) → Slice T → Reply T × Slice T
  leave deferred (some (r, xs)) s = (r, unlock (record s { items = xs }))
  leave deferred none s = (panicked, if deferred then unlock s else s)

  unfoldable pub call : SliceCall T → Slice T → Reply T × Slice T
  unfolding body leave
  call c s =
      if s.locked
      then (blocked, s)
      else let held = lock s in leave (defers_unlock c) (body c held.items) held

  unfoldable pub run_calls : List (SliceCall T) → Slice T → List (Reply T) × Slice T
  unfolding call
  run_calls [] s = ([], s)
  run_calls (c ∷ cs) s = let r = call c s in let rest = run_calls cs r.1 in (r.0 ∷ rest.0, rest.1)

  -- Every call waits for ever.
  abbrev all_blocked : List (SliceCall T) → List (Reply T)
  all_blocked [] = []
  all_blocked (c ∷ cs) = blocked ∷ all_blocked cs

  locked-blocked :
      (cs : List (SliceCall T)) (xs : List T)
      → run_calls cs (record { items = xs; locked = true })
        ≡ (all_blocked cs, record { items = xs; locked = true })
  unfolding run_calls
  locked-blocked [] xs = refl
  locked-blocked (c ∷ cs) xs = ap (λ r. (blocked ∷ r.0, r.1)) (locked-blocked cs xs)

  add_to_index-wedges :
      (i : ℤ) (x : T) (xs : List T) (cs : List (SliceCall T))
      → in_bounds i xs ≡ false
      → run_calls (add_to_index i x ∷ cs) (record { items = xs; locked = false })
        ≡ (panicked ∷ all_blocked cs, record { items = xs; locked = true })
  unfolding run_calls
  add_to_index-wedges i x xs cs out =
      rw out (ap (λ r. (panicked ∷ r.0, r.1)) (locked-blocked cs xs))
