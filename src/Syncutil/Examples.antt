-- ===== src/Syncutil/Examples.antt =====
-- The theorems on syncutil/ at concrete run_calls.
use xutils.Prelude.{ℕ, List, [], ◌∷◌, none, ◌==◌, ==_iff}
use xutils.Syncutil.Maps.{Change, set_key, delete_key, changes, new_map}
use xutils.Syncutil.Finite.{writes, Refines, changes-Refines}

abbrev some_changes : List (Change ℕ ℕ)
some_changes = set_key 1 10 ∷ set_key 2 20 ∷ set_key 1 11 ∷ delete_key 2 ∷ []

changes-Refines_example :
    Refines ◌==◌ (changes ◌==◌ some_changes new_map) (writes ◌==◌ some_changes (λ k. none))
changes-Refines_example = changes-Refines ◌==◌ ==_iff some_changes
