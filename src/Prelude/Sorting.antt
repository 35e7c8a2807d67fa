-- ===== src/Prelude/Sorting.antt =====
-- Python's `sorted` and `in` for numbers.
use bndl.Prelude.Tests.{ltb, ◌==◌, if◌then◌else◌}
use Prim.Native.Nat.{ℕ}
use mathlib.Core.Bool.{Bool, false, ◌||◌}
use mathlib.Core.List.{List, [], ◌∷◌}

unfoldable pub insert_sorted : ℕ → List ℕ → List ℕ
insert_sorted e [] = e ∷ []
insert_sorted e (x ∷ xs) = if ltb x e then x ∷ insert_sorted e xs else e ∷ x ∷ xs

unfoldable pub sorted : List ℕ → List ℕ
unfolding insert_sorted
sorted [] = []
sorted (x ∷ xs) = insert_sorted x (sorted xs)

abbrev pub is_member : ℕ → List ℕ → Bool
is_member e [] = false
is_member e (x ∷ xs) = e == x || is_member e xs
