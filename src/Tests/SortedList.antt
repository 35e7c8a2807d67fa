-- ===== src/Tests/SortedList.antt =====
-- Sorted sets as lists with insertion, an instance of the interface to `sortedcontainers`.
use bndl.Prelude.{
  ℕ, ◌≡◌, refl, Bool, true, false, ◌||◌, inl, inr, List, [], ◌∷◌, leb, ◌==◌, arith, if◌then◌else◌,
  Bool-cases,
}
use bndl.Prelude.Sets.{contains, discard, contains-discard}
use bndl.Scheduler.State.{IsOrdered, SortedSets}

unfoldable pub insert : (ℕ → ℕ → Bool) → ℕ → List ℕ → List ℕ
insert before t [] = t ∷ []
insert before t (x ∷ xs) =
    let rest = insert before t xs in if before x t then x ∷ rest else t ∷ x ∷ xs

unfoldable pub add : (ℕ → ℕ → Bool) → ℕ → List ℕ → List ℕ
unfolding insert
add before t xs = if contains t xs then xs else insert before t xs

contains-insert :
    (before : ℕ → ℕ → Bool) (u t : ℕ) (xs : List ℕ)
    → contains u (insert before t xs) ≡ (u == t || contains u xs)
unfolding insert
contains-insert before u t [] = refl
contains-insert before u t (x ∷ xs) = ground (arith, contains-insert before u t xs)

contains-eq : (u t : ℕ) (xs : List ℕ) → u ≡ t → contains u xs ≡ contains t xs
contains-eq u t xs e = rw e refl

pub contains-add :
    (before : ℕ → ℕ → Bool) (u t : ℕ) (xs : List ℕ)
    → contains u (add before t xs) ≡ (u == t || contains u xs)
unfolding add
contains-add before u t xs = ground (arith, contains-insert before u t xs, contains-eq u t xs)

abbrev by_key : (ℕ → ℕ) → ℕ → ℕ → Bool
by_key key u v = leb (key u) (key v)

insert_head :
    (key : ℕ → ℕ) (x t : ℕ) (xs : List ℕ)
    → ((u : ℕ) → contains u xs ≡ true → by_key key x u ≡ true)
    → by_key key x t ≡ true
    → (u : ℕ) → contains u (insert (by_key key) t xs) ≡ true
    → by_key key x u ≡ true
insert_head key x t xs h b u m =
    ground (arith, h u, b, contains-insert (by_key key) u t xs, m, key_eq)
  where
    key_eq : u ≡ t → key u ≡ key t
    key_eq e = rw e refl

new_head :
    (key : ℕ → ℕ) (x t : ℕ) (xs : List ℕ)
    → ((u : ℕ) → contains u xs ≡ true → by_key key x u ≡ true)
    → by_key key x t ≡ false
    → (u : ℕ) → contains u (x ∷ xs) ≡ true
    → by_key key t u ≡ true
new_head key x t xs h b u m = ground (arith, h u, b, m, key_eq)
  where
    key_eq : u ≡ x → key u ≡ key x
    key_eq e = rw e refl

insert-IsOrdered :
    (key : ℕ → ℕ) (t : ℕ) (xs : List ℕ)
    → IsOrdered (by_key key) xs
    → IsOrdered (by_key key) (insert (by_key key) t xs)
unfolding insert
insert-IsOrdered key t [] h = (λ u m. ground (arith, m), tt)
insert-IsOrdered key t (x ∷ xs) h = elim (Bool-cases (by_key key x t)) [
  | inl b ↦ rw b (insert_head key x t xs h.0 b, insert-IsOrdered key t xs h.1)
  | inr b ↦ rw b (new_head key x t xs h.0 b, h)
]

pub add-IsOrdered :
    (key : ℕ → ℕ) (t : ℕ) (xs : List ℕ)
    → IsOrdered (by_key key) xs
    → IsOrdered (by_key key) (add (by_key key) t xs)
unfolding add
add-IsOrdered key t xs h = elim (Bool-cases (contains t xs)) [
  | inl c ↦ rw c h
  | inr c ↦ rw c (insert-IsOrdered key t xs h)
]

pub discard-IsOrdered :
    (before : ℕ → ℕ → Bool) (t : ℕ) (xs : List ℕ)
    → IsOrdered before xs
    → IsOrdered before (discard t xs)
unfolding discard
discard-IsOrdered before t [] h = tt
discard-IsOrdered before t (x ∷ xs) h = elim (Bool-cases (t == x)) [
  | inl e ↦ rw e (discard-IsOrdered before t xs h.1)
  | inr e ↦
      rw e (
        λ u m. h.0 u (ground (arith, contains-discard u t xs, m)),
        discard-IsOrdered before t xs h.1,
      )
]

abbrev pub sorted_lists : SortedSets
sorted_lists = record {
  add = add;
  discard = discard;
  contains-add = contains-add;
  contains-discard = contains-discard;
  add-IsOrdered = add-IsOrdered;
  discard-IsOrdered = discard-IsOrdered;
}
