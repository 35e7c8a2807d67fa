-- ===== src/Prelude/Dict.antt =====
-- Python's dictionaries with keys that are numbers, as the lists of their items in the order of
-- insertion.
use bndl.Prelude.Tests.{◌==◌, if◌then◌else◌}
use Prim.Native.Nat.{ℕ}
use mathlib.Core.Path.{◌≡◌}
use mathlib.Core.Option.{Option, none, some}
use mathlib.Core.List.{List, [], ◌∷◌}
use native.Mathlib.Omega.{arith}

module _ {ℓ} {A : Type ℓ} where
  abbrev pub get : ℕ → List (ℕ × A) → Option A
  get k [] = none
  get k ((j, v) ∷ d) = if k == j then some v else get k d

  abbrev pub set_item : ℕ → A → List (ℕ × A) → List (ℕ × A)
  set_item k v [] = (k, v) ∷ []
  set_item k v ((j, w) ∷ d) = if k == j then (j, v) ∷ d else (j, w) ∷ set_item k v d

  -- `del d[k]`, where the key is there.
  abbrev pub del_item : ℕ → List (ℕ × A) → List (ℕ × A)
  del_item k [] = []
  del_item k ((j, v) ∷ d) = let rest = del_item k d in if k == j then rest else (j, v) ∷ rest

  pub get-set_item :
      (k j : ℕ) (v : A) (d : List (ℕ × A))
      → get k (set_item j v d) ≡ (if k == j then some v else get k d)
  get-set_item k j v [] = ground arith
  get-set_item k j v ((i, w) ∷ d) = ground (arith, get-set_item k j v d)

  pub get-del_item :
      (k j : ℕ) (d : List (ℕ × A)) → get k (del_item j d) ≡ (if k == j then none else get k d)
  get-del_item k j [] = ground arith
  get-del_item k j ((i, w) ∷ d) = ground (arith, get-del_item k j d)
