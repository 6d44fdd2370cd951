-- ===== src/Syncutil/Finite.antt =====
-- A Map as a function of its keys (syncutil/maps.go).
use xutils.Prelude.{
  List, [], ◌∷◌, Bool, true, false, ◌||◌, Option, none, some, if◌then◌else◌, length, is_some, ◌≡◌,
  ◌↔◌, refl, arith, ap, sym, ◌∙◌, subst, Bool-cases, inl, inr,
}
use xutils.Syncutil.Maps.{
  Items, Change, set_key, delete_key, clear, new_map, keys, values, map_len, get, has, set, delete,
  change, changes,
}

module _ {K : Type 0} (same_key : K → K → Bool) where
  unfoldable pub member : K → List K → Bool
  member k [] = false
  member k (j ∷ js) = same_key j k || member k js

  unfoldable pub Distinct : List K → Type 0
  Distinct [] = Unit {0}
  Distinct (k ∷ ks) = (member k ks ≡ false) × Distinct ks

module _ {K V : Type 0} (same_key : K → K → Bool) where
  -- What a change does to the values as a function of the keys.
  unfoldable pub write : Change K V → (K → Option V) → K → Option V
  write (set_key k v) f j = if same_key k j then some v else f j
  write (delete_key k) f j = if same_key k j then none else f j
  write clear f j = none

  unfoldable pub writes : List (Change K V) → (K → Option V) → K → Option V
  unfolding write
  writes [] f = f
  writes (c ∷ cs) f = writes cs (write c f)

  -- The map has the values of `f`, and no key twice.
  record Holds (m : Items K V) (f : K → Option V) : Type 0 where
    pub gets : (k : K) → get same_key k m ≡ f k
    pub once : Distinct same_key (keys m)

  -- Get gives the values of `f`, Has and Keys the keys that have one, Keys each of them once, and Len and
  -- Values have as many.
  pub record Refines (m : Items K V) (f : K → Option V) : Type 0 where
    pub gets : (k : K) → get same_key k m ≡ f k
    pub has_value : (k : K) → has same_key k m ≡ is_some (f k)
    pub listed : (k : K) → member same_key k (keys m) ≡ is_some (f k)
    pub once : Distinct same_key (keys m)
    pub key_count : length (keys m) ≡ map_len m
    pub value_count : length (values m) ≡ map_len m

  length-keys : (m : Items K V) → length (keys m) ≡ map_len m
  unfolding keys
  length-keys [] = refl
  length-keys ((k, v) ∷ m) = omega (arith, length-keys m)

  length-values : (m : Items K V) → length (values m) ≡ map_len m
  unfolding values
  length-values [] = refl
  length-values ((k, v) ∷ m) = omega (arith, length-values m)

  member-keys : (k : K) (m : Items K V) → member same_key k (keys m) ≡ is_some (get same_key k m)
  unfolding member keys get
  member-keys k [] = refl
  member-keys k ((j, v) ∷ m) = ground (arith, member-keys k m)

  module _ (iff : (a b : K) → (same_key a b ≡ true) ↔ (a ≡ b)) where
    get-none :
        (k : K) (m : Items K V) → member same_key k (keys m) ≡ false → get same_key k m ≡ none
    get-none k m h = by_get (get same_key k m) (sym (member-keys k m) ∙ h)
      where
        by_get : (o : Option V) → is_some o ≡ false → o ≡ none
        by_get none e = refl
        by_get (some v) e = cc

    get-set :
        (k j : K) (v : V) (m : Items K V)
        → get same_key j (set same_key k v m) ≡ (if same_key k j then some v else get same_key j m)
    unfolding get set
    get-set k j v [] = refl
    get-set k j v ((i, w) ∷ m) = ground (arith, iff k j, iff i k, iff i j, get-set k j v m)

    get-delete :
        (k j : K) (m : Items K V)
        → Distinct same_key (keys m)
        → get same_key j (delete same_key k m) ≡ (if same_key k j then none else get same_key j m)
    unfolding get delete keys Distinct
    get-delete k j [] h = ground arith
    get-delete k j ((i, w) ∷ m) h =
        let gone : i ≡ j → get same_key j m ≡ none =
          λ e. subst (λ x. get same_key x m ≡ none) e (get-none i m h.0) in
        ground (arith, iff k j, iff i k, iff i j, gone, get-delete k j m h.1)

    member-set :
        (k j : K) (v : V) (m : Items K V)
        → member same_key j (keys (set same_key k v m))
          ≡ (same_key k j || member same_key j (keys m))
    unfolding member keys set
    member-set k j v [] = refl
    member-set k j v ((i, w) ∷ m) = ground (arith, iff k j, iff i k, iff i j, member-set k j v m)

    member-delete :
        (k j : K) (m : Items K V)
        → member same_key j (keys m) ≡ false
        → member same_key j (keys (delete same_key k m)) ≡ false
    unfolding member keys delete
    member-delete k j [] h = refl
    member-delete k j ((i, w) ∷ m) h = ground (arith, h, member-delete k j m)

    set-Distinct :
        (k : K) (v : V) (m : Items K V)
        → Distinct same_key (keys m)
        → Distinct same_key (keys (set same_key k v m))
    unfolding Distinct keys set member
    set-Distinct k v [] h = (refl, tt)
    set-Distinct k v ((i, w) ∷ m) h = elim (Bool-cases (same_key i k)) [
      | inl here ↦ rw here h
      | inr there ↦
          rw there (
            ground (arith, member-set k i v m, h.0, there, iff i k, iff k i),
            set-Distinct k v m h.1,
          )
    ]

    delete-Distinct :
        (k : K) (m : Items K V)
        → Distinct same_key (keys m)
        → Distinct same_key (keys (delete same_key k m))
    unfolding Distinct keys delete
    delete-Distinct k [] h = tt
    delete-Distinct k ((i, w) ∷ m) h = elim (Bool-cases (same_key i k)) [
      | inl here ↦ rw here h.1
      | inr there ↦ rw there (member-delete k i m h.0, delete-Distinct k m h.1)
    ]

    change-Holds :
        (c : Change K V) (m : Items K V) (f : K → Option V)
        → Holds m f
        → Holds (change same_key c m) (write c f)
    unfolding change write Distinct keys values get
    change-Holds (set_key k v) m f h = record {
      gets = λ j. get-set k j v m ∙ ap (λ o. if same_key k j then some v else o) (h.gets j);
      once = set-Distinct k v m h.once;
    }
    change-Holds (delete_key k) m f h = record {
      gets = λ j. get-delete k j m h.once ∙ ap (λ o. if same_key k j then none else o) (h.gets j);
      once = delete-Distinct k m h.once;
    }
    change-Holds clear m f h = record { gets = λ j. refl; once = tt }

    changes-Holds :
        (cs : List (Change K V)) (m : Items K V) (f : K → Option V)
        → Holds m f
        → Holds (changes same_key cs m) (writes cs f)
    unfolding changes writes
    changes-Holds [] m f h = h
    changes-Holds (c ∷ cs) m f h =
        changes-Holds cs (change same_key c m) (write c f) (change-Holds c m f h)

    -- After any calls of Set, Delete and Clear on a new Map it holds exactly what the calls wrote last:
    -- Get gives, for every key, the value of the last Set that no Delete or Clear follows; Keys lists the
    -- keys that have a value, each of them once; and Len and Values count as many.
    pub changes-Refines :
        (cs : List (Change K V)) → Refines (changes same_key cs new_map) (writes cs (λ k. none))
    unfolding has keys Distinct get
    changes-Refines cs =
        let m = changes same_key cs new_map in
        let h = changes-Holds cs new_map (λ k. none) (record { gets = λ k. refl; once = tt }) in
        record {
          gets = h.gets;
          has_value = λ k. ap is_some (h.gets k);
          listed = λ k. member-keys k m ∙ ap is_some (h.gets k);
          once = h.once;
          key_count = length-keys m;
          value_count = length-values m;
        }
