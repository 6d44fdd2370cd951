-- ===== src/Syncutil/Maps.antt =====
-- syncutil/maps.go: Map, over keys with a test of equality. Every call releases the mutex, so that a run
-- of calls is a run of its sections. The items are an association list, in one order of iteration.
use xutils.Prelude.{ℕ, List, [], ◌∷◌, Bool, Option, none, some, if◌then◌else◌, length, is_some}

abbrev pub Items : Type 0 → Type 0 → Type 0
Items K V = List (K × V)

-- A call that changes the map.
pub data Change (K V : Type 0) : Type 0 where
  set_key : K → V → Change K V
  delete_key : K → Change K V
  clear : Change K V

module _ {K V : Type 0} where
  -- NewMap, NewMapWithCapacity
  abbrev pub new_map : Items K V
  new_map = []

  -- Keys
  unfoldable pub keys : Items K V → List K
  keys [] = []
  keys ((k, v) ∷ m) = k ∷ keys m

  -- Values
  unfoldable pub values : Items K V → List V
  values [] = []
  values ((k, v) ∷ m) = v ∷ values m

  -- Len
  abbrev pub map_len : Items K V → ℕ
  map_len m = length m

  -- Range; `fn` changes the caller's state and says whether to go on.
  unfoldable pub range : {S : Type 0} → (K → V → S → Bool × S) → Items K V → S → S
  range fn [] s = s
  range fn ((k, v) ∷ m) s =
      let rest = range fn m (fn k v s).1 in if (fn k v s).0 then rest else (fn k v s).1

  module _ (same_key : K → K → Bool) where
    -- Get; `none` is ok = false.
    unfoldable pub get : K → Items K V → Option V
    get k [] = none
    get k ((j, v) ∷ m) = if same_key j k then some v else get k m

    -- Has
    unfoldable pub has : K → Items K V → Bool
    unfolding get
    has k m = is_some (get k m)

    -- Set
    unfoldable pub set : K → V → Items K V → Items K V
    set k v [] = (k, v) ∷ []
    set k v ((j, w) ∷ m) =
        let rest = set k v m in if same_key j k then (j, v) ∷ m else (j, w) ∷ rest

    -- Delete
    unfoldable pub delete : K → Items K V → Items K V
    delete k [] = []
    delete k ((j, w) ∷ m) = let rest = delete k m in if same_key j k then m else (j, w) ∷ rest

    unfoldable pub change : Change K V → Items K V → Items K V
    unfolding set delete
    change (set_key k v) m = set k v m
    change (delete_key k) m = delete k m
    change clear m = []

    unfoldable pub changes : List (Change K V) → Items K V → Items K V
    unfolding change
    changes [] m = m
    changes (c ∷ cs) m = changes cs (change c m)
