-- ===== src/Dataset/Locality.antt =====
-- `Partition.locality`: where a partition is best computed. Executors are numbers and stand for their names
-- too; `inner` is `_locality`.
use bndl.Prelude.{
  ℕ, suc, ◌≡◌, ◌≤◌, refl, sym, ap, ◌∙◌, Bool, true, false, ◌==◌, Option, none, some, List, [], ◌∷◌,
  ◌++◌, append-nil, min, arith, if◌then◌else◌, Bool-cases, ==_iff, inl, inr,
}

pub data Locality : Type 0 where
  forbidden : Locality
  node_local process_local : Locality
  -- what `_locality` works out otherwise
  level : ℕ → Locality

abbrev pub count : ℕ → List ℕ → ℕ
count e [] = 0
count e (x ∷ xs) = if e == x then suc (count e xs) else count e xs

-- `set(xs)`
abbrev pub to_set : List ℕ → List ℕ
to_set [] = []
to_set (x ∷ xs) = let rest = to_set xs in if count x rest == 0 then x ∷ rest else rest

-- `xs - ys`
abbrev pub difference : List ℕ → List ℕ → List ℕ
difference [] ys = []
difference (x ∷ xs) ys = let rest = difference xs ys in if count x ys == 0 then x ∷ rest else rest

abbrev pub pairs_with : (ℕ → Locality) → List ℕ → List (ℕ × Locality)
pairs_with f [] = []
pairs_with f (e ∷ es) = (e, f e) ∷ pairs_with f es

-- The loop for a cache location. `executor.islocal` is not called, and a method counts as true. What
-- comes with the pairs is `none` after a `KeyError`, for an executor that comes again.
abbrev pub cached_pairs : ℕ → List ℕ → List ℕ → List (ℕ × Locality) × Option (List ℕ)
cached_pairs loc [] filtered = ([], some filtered)
cached_pairs loc (e ∷ es) filtered =
    let (pairs, left) = cached_pairs loc es (difference filtered (e ∷ [])) in
    if count e filtered == 0
    then ((e, if loc == e then process_local else node_local) ∷ [], none)
    else ((e, if loc == e then process_local else node_local) ∷ pairs, left)

-- The pairs that are yielded, and whether the generator comes to its end without an exception.
module _ (inner : List ℕ → List (ℕ × Locality)) where
  -- `if executors: yield from self._locality(executors)`
  abbrev pub inner_pairs : List ℕ → List (ℕ × Locality)
  inner_pairs [] = []
  inner_pairs (e ∷ es) = inner (e ∷ es)

  abbrev pub after_cached : List (ℕ × Locality) × Option (List ℕ) → List (ℕ × Locality) × Bool
  after_cached (pairs, none) = (pairs, false)
  after_cached (pairs, some left) = (pairs ++ inner_pairs left, true)

  abbrev pub unless_cached : Option ℕ → List ℕ → List (ℕ × Locality) × Bool
  unless_cached none executors = (inner_pairs executors, true)
  unless_cached (some loc) executors = after_cached (cached_pairs loc executors (to_set executors))

  unfoldable pub locality :
      Option (List ℕ → List ℕ) → Option ℕ → List ℕ → List (ℕ × Locality) × Bool
  locality none cache_loc executors = unless_cached cache_loc executors
  locality (some required) cache_loc executors =
      let allowed = to_set (required executors) in
      let (pairs, ended) = unless_cached cache_loc allowed in
      (pairs_with (λ e. forbidden) (difference (to_set executors) allowed) ++ pairs, ended)

-- The localities that pairs give an executor.
abbrev pub levels : ℕ → List (ℕ × Locality) → List Locality
levels e [] = []
levels e ((x, l) ∷ pairs) = if e == x then l ∷ levels e pairs else levels e pairs

levels-append :
    (e : ℕ) (ps qs : List (ℕ × Locality)) → levels e (ps ++ qs) ≡ levels e ps ++ levels e qs
levels-append e [] qs = refl
levels-append e ((x, l) ∷ ps) qs = elim (Bool-cases (e == x)) [
  | inl h ↦ rw h (ap (λ r. l ∷ r) (levels-append e ps qs))
  | inr h ↦ rw h (levels-append e ps qs)
]

count-to_set : (e : ℕ) (xs : List ℕ) → count e (to_set xs) ≡ min 1 (count e xs)
count-to_set e [] = omega arith
count-to_set e (x ∷ xs) = ground (arith, count-to_set e xs, same)
  where
    same : e ≡ x → count e (to_set xs) ≡ count x (to_set xs)
    same h = rw h refl

count-difference :
    (e : ℕ) (xs ys : List ℕ)
    → count e (difference xs ys) ≡ (if count e ys == 0 then count e xs else 0)
count-difference e [] ys = ground arith
count-difference e (x ∷ xs) ys = ground (arith, count-difference e xs ys, same)
  where
    same : e ≡ x → count e ys ≡ count x ys
    same h = rw h refl

levels-pairs_with :
    (f : ℕ → Locality) (e : ℕ) (es : List ℕ)
    → (count e es ≡ 0 → levels e (pairs_with f es) ≡ [])
      × (count e es ≡ 1 → levels e (pairs_with f es) ≡ f e ∷ [])
levels-pairs_with f e [] = (λ h. refl, λ h. ground (arith, h))
levels-pairs_with f e (x ∷ es) =
    let (absent, present) = levels-pairs_with f e es in
    elim (Bool-cases (e == x)) [
      | inl h ↦ rw h (
        λ k. ground (arith, k),
        λ k.
            ap (λ l. f x ∷ l) (absent (omega (arith, k)))
            ∙ ap (λ y. f y ∷ []) (sym ((==_iff e x).0 h)),
      )
      | inr h ↦ rw h (absent, present)
    ]

-- The loop over distinct executors that are in the set, and what it leaves: those that it has not seen.
cached_pairs-distinct :
    (loc : ℕ) (es filtered : List ℕ)
    → ((x : ℕ) → count x es ≤ 1)
    → ((x : ℕ) → count x es ≤ count x filtered)
    → (left : List ℕ) × (cached_pairs loc es filtered
        ≡ (pairs_with (λ e. if loc == e then process_local else node_local) es, some left))
      × ((x : ℕ) → count x left ≡ (if count x es == 0 then count x filtered else 0))
cached_pairs-distinct loc [] filtered once inside = (filtered, refl, λ x. ground arith)
cached_pairs-distinct loc (e ∷ es) filtered once inside =
    let rest = difference filtered (e ∷ []) in
    let (left, pairs, counts) =
      cached_pairs-distinct loc es rest (λ x. ground (arith, once x))
        (λ x. ground (arith, once x, inside x, count-difference x filtered (e ∷ []))) in
    (
      left,
      rw (present (inside e), pairs) refl,
      λ x. ground (arith, counts x, count-difference x filtered (e ∷ [])),
    )
  where
    present : count e (e ∷ es) ≤ count e filtered → (count e filtered == 0) ≡ false
    present h = ground (arith, h)

counts-nil : (xs : List ℕ) → ((e : ℕ) → count e xs ≡ 0) → xs ≡ []
counts-nil [] h = refl
counts-nil (x ∷ xs) h = ground (arith, h x)

module _ (inner : List ℕ → List (ℕ × Locality)) where
  cached_exactly :
      (loc : ℕ) (es : List ℕ)
      → ((x : ℕ) → count x es ≤ 1)
      → unless_cached inner (some loc) es
        ≡ (pairs_with (λ e. if loc == e then process_local else node_local) es, true)
  cached_exactly loc es once =
      let (left, pairs, counts) =
        cached_pairs-distinct loc es (to_set es) once
          (λ x. ground (arith, once x, count-to_set x es)) in
      let none_left = counts-nil left (λ e. ground (arith, counts e, count-to_set e es)) in
      rw (pairs, none_left)
        (ap (λ l. (l, true))
          (append-nil (pairs_with (λ e. if loc == e then process_local else node_local) es)))

  -- What an executor among the given ones gets from an allowed set, with or without a cache location.
  abbrev pub expected : Option ℕ → ℕ → List ℕ → List Locality
  expected none e allowed = levels e (inner_pairs inner allowed)
  expected (some loc) e allowed = (if loc == e then process_local else node_local) ∷ []

  -- The localities that an executor gets, if the executors are distinct and `_locality` gives one only to executors that it is asked about:
  -- if the data set requires executors and this is none of them, it is forbidden, and nothing else; otherwise,
  -- if the partition is cached, it gets one that tells the executor with the cache from every other, and if
  -- not, just what `_locality` gives it for the allowed executors.
  pub levels-locality :
      (required : List ℕ → List ℕ) (cache_loc : Option ℕ) (executors : List ℕ) (e : ℕ)
      → ((es : List ℕ) → count e es ≡ 0 → levels e (inner es) ≡ [])
      → ((x : ℕ) → count x executors ≤ 1)
      → count e executors ≡ 1
      → (levels e (locality inner none cache_loc executors).0 ≡ expected cache_loc e executors)
        × ((locality inner none cache_loc executors).1 ≡ true)
        × (levels e (locality inner (some required) cache_loc executors).0 ≡ (
            if count e (required executors) == 0
            then forbidden ∷ []
            else expected cache_loc e (to_set (required executors))))
        × ((locality inner (some required) cache_loc executors).1 ≡ true)
  unfolding locality
  levels-locality required cache_loc executors e asked distinct once = (
    one_of executors distinct once cache_loc,
    ends executors distinct cache_loc,
    levels-append e
          (pairs_with (λ e. forbidden)
            (difference (to_set executors) (to_set (required executors))))
          (unless_cached inner cache_loc (to_set (required executors))).0
        ∙ decided (count e (required executors) == 0) refl,
    ends (to_set (required executors)) (set_distinct (required executors)) cache_loc,
  )
    where
      set_distinct : (es : List ℕ) (x : ℕ) → count x (to_set es) ≤ 1
      set_distinct es x = omega (arith, count-to_set x es)

      ends :
          (es : List ℕ)
          → ((x : ℕ) → count x es ≤ 1)
          → (cache_loc : Option ℕ) → (unless_cached inner cache_loc es).1 ≡ true
      ends es d none = refl
      ends es d (some loc) = ap (λ r. r.1) (cached_exactly loc es d)

      one_of :
          (es : List ℕ)
          → ((x : ℕ) → count x es ≤ 1)
          → count e es ≡ 1
          → (cache_loc : Option ℕ)
          → levels e (unless_cached inner cache_loc es).0 ≡ expected cache_loc e es
      one_of es d h none = refl
      one_of es d h (some loc) =
          ap (λ r. levels e r.0) (cached_exactly loc es d)
          ∙ (levels-pairs_with (λ e. if loc == e then process_local else node_local) e es).1 h

      none_of :
          (es : List ℕ)
          → ((x : ℕ) → count x es ≤ 1)
          → count e es ≡ 0
          → (cache_loc : Option ℕ) → levels e (unless_cached inner cache_loc es).0 ≡ []
      none_of [] d h none = refl
      none_of (x ∷ es) d h none = asked (x ∷ es) h
      none_of es d h (some loc) =
          ap (λ r. levels e r.0) (cached_exactly loc es d)
          ∙ (levels-pairs_with (λ e. if loc == e then process_local else node_local) e es).0 h

      decided :
          (b : Bool)
          → (count e (required executors) == 0) ≡ b
          → levels e (
                pairs_with
                  (λ e. forbidden)
                  (difference (to_set executors) (to_set (required executors))))
              ++ levels e ((unless_cached inner cache_loc (to_set (required executors))).0)
            ≡ (if b then forbidden ∷ [] else expected cache_loc e (to_set (required executors)))
      decided true b =
          ap
            (λ l.
              levels e (
                pairs_with (λ e. forbidden)
                  (difference (to_set executors) (to_set (required executors))))
              ++ l)
            (none_of (to_set (required executors)) (set_distinct (required executors))
              (ground (arith, b, count-to_set e (required executors))) cache_loc)
          ∙ append-nil (
              levels e (
                pairs_with (λ e. forbidden)
                  (difference (to_set executors) (to_set (required executors)))))
          ∙ (levels-pairs_with (λ e. forbidden) e
                (difference (to_set executors) (to_set (required executors)))).1
              (ground (
                arith,
                b,
                once,
                count-to_set e (required executors),
                count-to_set e executors,
                count-difference e (to_set executors) (to_set (required executors)),
              ))
      decided false b =
          ap (λ l. l ++ levels e ((unless_cached inner cache_loc (to_set (required executors))).0))
            ((levels-pairs_with (λ e. forbidden) e
                (difference (to_set executors) (to_set (required executors)))).0
              (ground (
                arith,
                b,
                count-to_set e (required executors),
                count-difference e (to_set executors) (to_set (required executors)),
              )))
          ∙ one_of (to_set (required executors)) (set_distinct (required executors))
              (ground (arith, b, count-to_set e (required executors))) cache_loc
