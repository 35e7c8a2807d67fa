-- ===== src/Prelude/Sets.antt =====
-- Python's `set` of task ids as a list without order, `None`-able names and their dictionaries,
-- and the interface of `sortedcontainers.SortedSet`, which the repository does not contain.
use bndl.Prelude.Tests.{◌==◌, if◌then◌else◌}
use Prim.Native.Nat.{ℕ, ◌+◌, ◌≤◌}
use mathlib.Core.Path.{◌≡◌}
use mathlib.Core.Bool.{Bool, true, false, not, ◌&&◌, ◌||◌}
use mathlib.Core.Option.{Option, none, some}
use mathlib.Core.List.{List, [], ◌∷◌, ◌++◌}
use bndl.Prelude.Lists.{length, length-append}
use native.Mathlib.Omega.{arith}

abbrev pub contains : ℕ → List ℕ → Bool
contains t [] = false
contains t (x ∷ xs) = t == x || contains t xs

abbrev pub is_empty {ℓ} : {A : Type ℓ} → List A → Bool
is_empty [] = true
is_empty (x ∷ xs) = false

unfoldable pub add : ℕ → List ℕ → List ℕ
add t xs = if contains t xs then xs else xs ++ t ∷ []

unfoldable pub discard : ℕ → List ℕ → List ℕ
discard t [] = []
discard t (x ∷ xs) = let rest = discard t xs in if t == x then rest else x ∷ rest

pub contains-append :
    (u : ℕ) (xs ys : List ℕ) → contains u (xs ++ ys) ≡ (contains u xs || contains u ys)
contains-append u [] ys = ground arith
contains-append u (x ∷ xs) ys = ground (arith, contains-append u xs ys)

pub contains-add : (u t : ℕ) (xs : List ℕ) → contains u (add t xs) ≡ (u == t || contains u xs)
unfolding add
contains-add u t xs = ground (arith, contains-append u xs (t ∷ []), agree u t xs)
  where
    agree : (u t : ℕ) (xs : List ℕ) → u ≡ t → contains u xs ≡ contains t xs
    agree u t xs e = ground arith

pub contains-discard :
    (u t : ℕ) (xs : List ℕ) → contains u (discard t xs) ≡ (not (u == t) && contains u xs)
unfolding discard
contains-discard u t [] = ground arith
contains-discard u t (x ∷ xs) = ground (arith, contains-discard u t xs)

pub length-add-le : (t : ℕ) (xs : List ℕ) → length (add t xs) ≤ length xs + 1
unfolding add
length-add-le t xs = ground (arith, length-append xs (t ∷ []))

pub length-discard-le : (t : ℕ) (xs : List ℕ) → length (discard t xs) ≤ length xs
unfolding discard
length-discard-le t [] = omega arith
length-discard-le t (x ∷ xs) = ground (arith, length-discard-le t xs)

pub length-discard-lt :
    (t : ℕ) (xs : List ℕ) → contains t xs ≡ true → length (discard t xs) + 1 ≤ length xs
unfolding discard
length-discard-lt t [] h = ground arith
length-discard-lt t (x ∷ xs) h = ground (arith, length-discard-lt t xs, length-discard-le t xs)

-- The name of an executor, or `None`.
abbrev pub Name : Type 0
Name = Option ℕ

abbrev pub same_name : Name → Name → Bool
same_name none none = true
same_name none (some b) = false
same_name (some a) none = false
same_name (some a) (some b) = a == b

abbrev pub has_name : Name → List Name → Bool
has_name n [] = false
has_name n (m ∷ ms) = same_name m n || has_name n ms

abbrev pub count : Name → List Name → ℕ
count n [] = 0
count n (m ∷ ms) = (if same_name m n then 1 else 0) + count n ms

-- `names.remove(n)` with its `ValueError` caught: the first occurrence goes.
unfoldable pub remove_name : Name → List Name → List Name
remove_name n [] = []
remove_name n (m ∷ ms) = if same_name m n then ms else m ∷ remove_name n ms

pub same_name→eq : (n m : Name) → same_name n m ≡ true → n ≡ m
same_name→eq none none h = ground arith
same_name→eq none (some b) h = ground arith
same_name→eq (some a) none h = ground arith
same_name→eq (some a) (some b) h = ground arith

pub same_name_refl : (n : Name) → same_name n n ≡ true
same_name_refl none = ground arith
same_name_refl (some a) = ground arith

pub count-append : (n : Name) (xs ys : List Name) → count n (xs ++ ys) ≡ count n xs + count n ys
count-append n [] ys = omega arith
count-append n (x ∷ xs) ys = omega (arith, count-append n xs ys)

pub count-remove_name-le : (n m : Name) (xs : List Name) → count n (remove_name m xs) ≤ count n xs
unfolding remove_name
count-remove_name-le n m [] = omega arith
count-remove_name-le n m (x ∷ xs) = ground (arith, count-remove_name-le n m xs)

pub count_pos : (n : Name) (xs : List Name) → has_name n xs ≡ true → 1 ≤ count n xs
count_pos n [] h = ground arith
count_pos n (x ∷ xs) h = ground (arith, count_pos n xs)
