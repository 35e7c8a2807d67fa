-- ===== src/Tests/DatasetRuns.antt =====
-- Small data sets, two barriers, and two files of 12 bytes.
use bndl.Prelude.{
  ℕ, ◌+◌, ◌≤◌, ◌≡◌, ◌==◌, refl, Bool, true, false, leb, Option, none, some, List, [], ◌∷◌, length,
  take, arith, if◌then◌else◌,
}
use bndl.Prelude.Exec.{err}
use bndl.Dataset.Take.{itake, elements, itake-take}
use bndl.Dataset.Coalesced.{coalesced}
use bndl.Dataset.Parts.{
  concat, source, union, Dset, Dsets, none_left, and_more, count_of, all_flat, is_flat, union_of,
  parts_of, chain_parts, parts_of-union_of,
}
use bndl.Dataset.Locality.{Locality, count, to_set, locality, levels, expected, levels-locality}
use bndl.Dataset.Locality.{forbidden as not_allowed}
use bndl.Dataset.Barrier.{
  Dependency, dependency_locations, listed, parts_at, any_at, listed-dependency_locations,
}
use bndl.Files.{Search, batch_files}
use bndl.Prelude.{All, ◌⊎◌}
use bndl.Files.MinCount.{ensure_min_pcount, total_of, IsSingle, ensure_min_pcount-total_of}
use bndl.Files.Places.{places, all_places}
use bndl.Files.Cover.{IsSearch, sized, sep_or_whole, batch_files-places}
use bndl.Shuffle.Sources.{get_sources, dependencies_failed, Finds, get_sources-Finds}
use bndl.Prelude.Sorting.{is_member}

abbrev parts : List (Option (List ℕ))
parts = some (1 ∷ 2 ∷ []) ∷ none ∷ some [] ∷ some (3 ∷ 4 ∷ 5 ∷ []) ∷ some (6 ∷ []) ∷ []

itake-take_example : itake 4 parts ≡ take 4 (elements parts)
itake-take_example = itake-take 4 parts

abbrev union_parts : Dsets ℕ
union_parts =
    and_more (source (1 ∷ [])) (
      and_more (union (and_more (source (2 ∷ [])) (and_more (source (3 ∷ [])) none_left)))
        none_left)

parts_of-union_of_example :
    ((2 ≤ count_of union_parts)
      × ((d : Dset ℕ) × (union_of union_parts ≡ some d)
          × (parts_of d ≡ chain_parts union_parts)
          × (all_flat union_parts ≡ true → is_flat d ≡ true)))
    ⊎ ((count_of union_parts ≤ 1) × (union_of union_parts ≡ none))
parts_of-union_of_example = parts_of-union_of union_parts

abbrev seven : List ℕ
seven = 1 ∷ 2 ∷ 3 ∷ 4 ∷ 5 ∷ 6 ∷ 7 ∷ []

thirds : coalesced 3 seven ≡ some ((1 ∷ 2 ∷ []) ∷ (3 ∷ 4 ∷ []) ∷ (5 ∷ 6 ∷ 7 ∷ []) ∷ [])
unfolding coalesced
thirds = refl

-- No executor is better than another.
abbrev no_localities : List ℕ → List (ℕ × Locality)
no_localities es = []

abbrev only_two : List ℕ → List ℕ
only_two es = 2 ∷ []

abbrev three : List ℕ
three = 1 ∷ 2 ∷ 3 ∷ []

three_distinct : (x : ℕ) → count x three ≤ 1
three_distinct x = ground arith

levels-locality_example :
    (levels 1 (locality no_localities none (some 3) three).0
      ≡ expected no_localities (some 3) 1 three)
    × ((locality no_localities none (some 3) three).1 ≡ true)
    × (levels 1 (locality no_localities (some only_two) (some 3) three).0 ≡ (
        if count 1 (2 ∷ []) == 0
        then not_allowed ∷ []
        else expected no_localities (some 3) 1 (to_set (2 ∷ []))))
    × ((locality no_localities (some only_two) (some 3) three).1 ≡ true)
levels-locality_example =
    levels-locality no_localities only_two (some 3) three 1 (λ es h. refl) three_distinct refl

abbrev dependency : ℕ → Dependency
dependency part = record { executed_on = 1; result_on = 5; part_id = part }

listed-dependency_locations_example :
    (listed 5 1 (dependency_locations ((dependency 11 ∷ dependency 12 ∷ []) ∷ []) [])
      ≡ parts_at 5 1 (dependency 11 ∷ dependency 12 ∷ []))
    × (listed 5 1 (
          dependency_locations
            ((dependency 10 ∷ []) ∷ (dependency 11 ∷ dependency 12 ∷ []) ∷ [])
            [])
        ≡ (if any_at 5 (dependency 11 ∷ dependency 12 ∷ [])
            then parts_at 5 1 (dependency 11 ∷ dependency 12 ∷ [])
            else listed 5 1 (dependency_locations ((dependency 10 ∷ []) ∷ []) [])))
listed-dependency_locations_example =
    listed-dependency_locations 5 1 ((dependency 10 ∷ []) ∷ []) (dependency 11 ∷ dependency 12 ∷ [])

get_sources-Finds_example :
    (is_member 0 (7 ∷ 4 ∷ []) ≡ true
      → get_sources (λ e. true) 5 (7 ∷ 4 ∷ []) ≡ err (dependencies_failed (0 ∷ [])))
    × (is_member 0 (7 ∷ 4 ∷ []) ≡ false
        → Finds (λ e. true) (7 ∷ 4 ∷ []) (get_sources (λ e. true) 5 (7 ∷ 4 ∷ [])))
get_sources-Finds_example = get_sources-Finds (λ e. true) 5 (7 ∷ 4 ∷ []) refl

-- A file of 12 bytes whose only separator is its byte 3.
abbrev found_before : Bool → Option ℕ
found_before true = some 3
found_before false = none

abbrev search : Search
search = record {
  rfind = λ file offset end. found_before (leb offset 3);
  find = λ file offset. found_before (leb offset 3);
}

search_within :
    (offset p : ℕ) (b : Bool)
    → leb offset 3 ≡ b
    → found_before b ≡ some p
    → (offset ≤ p) × (p + 1 ≤ 12)
search_within offset p true e h = (ground (arith, e, three h), ground (arith, three h))
  where
    three : some 3 ≡ some p → p ≡ 3
    three h = ground (arith, h)
search_within offset p false e h = ground (arith, h)

search-IsSearch : IsSearch search 1 (λ file. 12)
search-IsSearch = record {
  rfind_within = λ file offset end p h. search_within offset p (leb offset 3) refl h;
  find_within = λ file offset p h. search_within offset p (leb offset 3) refl h;
}

batch_files-places_example :
    places (
      concat (
        batch_files 5 0 search
          (sep_or_whole 5 0 1 search (λ file. 12) true)
          (sized 5 0 1 search (λ file. 12) (1 ∷ 2 ∷ []))))
    ≡ all_places (sized 5 0 1 search (λ file. 12) (1 ∷ 2 ∷ []))
batch_files-places_example =
    batch_files-places 5 0 1 search (λ file. 12) true (1 ∷ 2 ∷ []) (omega arith) search-IsSearch

abbrev two_batches : List (List ℕ)
two_batches = (1 ∷ 2 ∷ 3 ∷ []) ∷ (4 ∷ []) ∷ []

ensure_min_pcount-total_of_example :
    (total_of (λ x. x) (ensure_min_pcount 3 two_batches) ≡ total_of (λ x. x) two_batches)
    × ((3 ≤ length (ensure_min_pcount 3 two_batches))
        ⊎ All (IsSingle (λ x. x)) (ensure_min_pcount 3 two_batches))
ensure_min_pcount-total_of_example = ensure_min_pcount-total_of (λ x. x) 3 two_batches
