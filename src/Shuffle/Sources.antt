-- ===== src/Shuffle/Sources.antt =====
-- `ShuffleReadingPartition.get_sources`: the executors that a reading partition gets blocks from. Executors are
-- numbers, and 0 is `None`.
use bndl.Prelude.{
  ℕ, suc, ◌+◌, ◌≡◌, refl, ap, Bool, true, false, ◌==◌, ltb, List, [], ◌∷◌, ◌++◌, take, drop,
  take-append-drop, arith, if◌then◌else◌, Bool-cases, inl, inr,
}
use bndl.Prelude.Exec.{Result, ok, err}
use bndl.Prelude.Sorting.{is_member, insert_sorted, sorted}

pub data SourceError : Type 0 where
  -- `DependenciesFailed`, with the executors whose results are missing
  dependencies_failed : List ℕ → SourceError
  assertion_error : SourceError

-- `bisect_left` in a sorted list
abbrev pub bisect_names : ℕ → List ℕ → ℕ
bisect_names e [] = 0
bisect_names e (x ∷ xs) = if ltb x e then suc (bisect_names e xs) else 0

-- `source_names[split:] + source_names[:split]`
abbrev pub rotate : ℕ → List ℕ → List ℕ
rotate split names = drop split names ++ take split names

-- The loop over the names: the sources, and what is missing.
abbrev pub find_sources : (ℕ → Bool) → List ℕ → List ℕ × List ℕ
find_sources is_connected [] = ([], [])
find_sources is_connected (name ∷ names) =
    let (sources, missing) = find_sources is_connected names in
    if is_connected name then (name ∷ sources, missing) else (sources, name ∷ missing)

abbrev pub none_missing : List ℕ → List ℕ → Result SourceError (List ℕ)
none_missing sources [] = ok sources
none_missing sources (name ∷ missing) = err (dependencies_failed (name ∷ missing))

-- With the name of the executor itself, and the keys of `dependency_locations`.
unfoldable pub get_sources : (ℕ → Bool) → ℕ → List ℕ → Result SourceError (List ℕ)
unfolding sorted
get_sources is_connected executor locations =
    let names = sorted locations in
    let (sources, missing) =
      find_sources is_connected (rotate (bisect_names executor names) names) in
    if is_member 0 locations
    then err (dependencies_failed (0 ∷ []))
    else if is_member executor locations
    then err assertion_error
    else none_missing sources missing

abbrev pub occurrences : ℕ → List ℕ → ℕ
occurrences e [] = 0
occurrences e (x ∷ xs) = if e == x then suc (occurrences e xs) else occurrences e xs

occurrences-append :
    (e : ℕ) (xs ys : List ℕ) → occurrences e (xs ++ ys) ≡ occurrences e xs + occurrences e ys
occurrences-append e [] ys = omega arith
occurrences-append e (x ∷ xs) ys = ground (arith, occurrences-append e xs ys)

occurrences-insert_sorted :
    (e x : ℕ) (xs : List ℕ)
    → occurrences e (insert_sorted x xs)
      ≡ (if e == x then suc (occurrences e xs) else occurrences e xs)
unfolding insert_sorted
occurrences-insert_sorted e x [] = refl
occurrences-insert_sorted e x (y ∷ xs) = elim (Bool-cases (ltb y x)) [
  | inl h ↦ rw h (ground (arith, occurrences-insert_sorted e x xs))
  | inr h ↦ rw h refl
]

occurrences-sorted : (e : ℕ) (xs : List ℕ) → occurrences e (sorted xs) ≡ occurrences e xs
unfolding sorted
occurrences-sorted e [] = refl
occurrences-sorted e (x ∷ xs) =
    ground (arith, occurrences-sorted e xs, occurrences-insert_sorted e x (sorted xs))

occurrences-rotate :
    (e split : ℕ) (xs : List ℕ) → occurrences e (rotate split xs) ≡ occurrences e xs
occurrences-rotate e split xs = ground (
  arith,
  occurrences-append e (drop split xs) (take split xs),
  occurrences-append e (take split xs) (drop split xs),
  ap (occurrences e) (take-append-drop split xs),
)

occurrences-find_sources :
    (is_connected : ℕ → Bool) (e : ℕ) (names : List ℕ)
    → (occurrences e (find_sources is_connected names).0
        ≡ (if is_connected e then occurrences e names else 0))
      × (occurrences e (find_sources is_connected names).1
          ≡ (if is_connected e then 0 else occurrences e names))
occurrences-find_sources is_connected e [] =
    (either_zero (is_connected e), either_zero (is_connected e))
  where
    either_zero : (b : Bool) → ◌≡◌ {A = ℕ} 0 (if b then 0 else 0)
    either_zero true = refl
    either_zero false = refl
occurrences-find_sources is_connected e (name ∷ names) =
    let (found, missed) = occurrences-find_sources is_connected e names in
    elim (Bool-cases (is_connected name)) [
      | inl h ↦ rw h (ground (arith, found, same, h), ground (arith, missed, same, h))
      | inr h ↦ rw h (ground (arith, found, same, h), ground (arith, missed, same, h))
    ]
  where
    same : e ≡ name → is_connected e ≡ is_connected name
    same h = ap is_connected h

-- What `get_sources` comes to, where the locations of all dependencies are known: each executor with results is among the sources,
-- or missing, but not both.
pub record Finds (is_connected : ℕ → Bool) (locations : List ℕ) (r : Result SourceError (List ℕ))
    : Type 0 where
  pub sources : List ℕ
  pub missing : List ℕ
  pub result : r ≡ none_missing sources missing
  pub all_sources :
      (e : ℕ) → occurrences e sources ≡ (if is_connected e then occurrences e locations else 0)
  pub all_missing :
      (e : ℕ) → occurrences e missing ≡ (if is_connected e then 0 else occurrences e locations)

-- If all locations are known and the executor itself is none of them, `get_sources` returns when each executor with results is
-- connected, and then exactly these executors, each as often as it is given; otherwise it raises DependenciesFailed for exactly those that
-- are not. If a location is not known, it raises for that.
pub get_sources-Finds :
    (is_connected : ℕ → Bool) (executor : ℕ) (locations : List ℕ)
    → is_member executor locations ≡ false
    → (is_member 0 locations ≡ true
        → get_sources is_connected executor locations ≡ err (dependencies_failed (0 ∷ [])))
      × (is_member 0 locations ≡ false
          → Finds is_connected locations (get_sources is_connected executor locations))
unfolding get_sources
get_sources-Finds is_connected executor locations h = (
  λ k. rw k refl,
  λ k.
      let names = sorted locations in
      let order = rotate (bisect_names executor names) names in
      let found = find_sources is_connected order in
      record {
        sources = found.0;
        missing = found.1;
        result = rw (k, h) refl;
        all_sources = λ e. ground (
          arith,
          (occurrences-find_sources is_connected e order).0,
          occurrences-rotate e (bisect_names executor names) names,
          occurrences-sorted e locations,
        );
        all_missing = λ e. ground (
          arith,
          (occurrences-find_sources is_connected e order).1,
          occurrences-rotate e (bisect_names executor names) names,
          occurrences-sorted e locations,
        );
      },
)
