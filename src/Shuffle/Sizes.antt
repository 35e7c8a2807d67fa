-- ===== src/Shuffle/Sizes.antt =====
-- `ShuffleReadingPartition.get_sizes` of bndl/compute/shuffle.py, from the point where the requests
-- for sizes have been issued: each source's future comes with what it ends with. Names are numbers.
use bndl.Prelude.{
  ℕ, zero, suc, ◌==◌, not, ◌&&◌, Option, none, some, List, [], ◌∷◌, ◌++◌, if◌then◌else◌,
}
use bndl.Prelude.Exec.{Result, ok, err}
use bndl.Prelude.Sets.{contains, discard}
use bndl.Prelude.Dict.{get, set_item}

-- A dependency is the pair of a data set's id and a partition's index.
abbrev pub Dependency : Type 0
Dependency = ℕ × ℕ

-- {source : {executor : {dependencies}}}
abbrev pub Locations : Type 0
Locations = List (ℕ × List (ℕ × List Dependency))

-- (source partition index, sizes of the blocks by batch)
abbrev pub PartSizes : Type 0
PartSizes = ℕ × List (List ℕ)

pub data Failure : Type 0 where
  dependencies_failed : Locations → Failure
  key_error assertion_error sizes_missing : Failure
  -- what a future raises but NotConnected
  raised : ℕ → Failure

pub data Response : Type 0 where
  sizes : List PartSizes → Response
  not_connected : Response
  failure : ℕ → Response

abbrev pub and_then : {A B : Type 0} → Result Failure A → (A → Result Failure B) → Result Failure B
and_then (ok a) f = f a
and_then (err e) f = err e

abbrev pub or_empty : {A : Type 0} → Option (List A) → List A
or_empty none = []
or_empty (some xs) = xs

-- `dependencies_missing[source] = dependency_locations[source]`
abbrev miss_source : ℕ → Option (List (ℕ × List Dependency)) → Locations → Result Failure Locations
miss_source source none missing = err key_error
miss_source source (some dependencies) missing = ok (set_item source dependencies missing)

-- `for source, future in zip(sources, size_requests)`: the sizes, and the dependencies missing.
unfoldable pub gather :
    Locations
    → List (ℕ × Response)
    → List (ℕ × List PartSizes)
    → Locations
    → Result Failure (List (ℕ × List PartSizes) × Locations)
gather locations [] found missing = ok (found, missing)
gather locations ((source, sizes size) ∷ rest) found missing =
    gather locations rest (found ++ (source, size) ∷ []) missing
gather locations ((source, not_connected) ∷ rest) found missing =
    and_then (miss_source source (get source locations) missing)
      (λ missing'. gather locations rest found missing')
gather locations ((source, failure e) ∷ rest) found missing = err (raised e)

-- `set(range(n))`
abbrev pub range_set : ℕ → List ℕ
range_set zero = []
range_set (suc n) = n ∷ range_set n

-- The variables of the loops that select the partitions: `size_info_missing` and the keys of
-- `source_locations`.
pub record Info : Type 0 where
  pub missing : List ℕ
  pub located : List ℕ

-- `for src_part_idx, block_sizes in size`
unfoldable pub select_parts :
    List PartSizes → List PartSizes → Info → Result Failure (List PartSizes × Info)
select_parts [] selected i = ok (selected, i)
select_parts ((part, block_sizes) ∷ size) selected i =
    let taken =
      select_parts size (selected ++ (part, block_sizes) ∷ [])
        (record { missing = discard part i.missing; located = part ∷ i.located }) in
    let left = select_parts size selected i in
    if contains part i.missing
    then taken
    else (if contains part i.located then left else err key_error)

-- `for source_idx, (source, get_blocks, size) in enumerate(sizes)`
unfoldable pub select_sources :
    List (ℕ × List PartSizes) → Info → Result Failure (List (ℕ × List PartSizes) × Info)
unfolding select_parts
select_sources [] i = ok ([], i)
select_sources ((source, size) ∷ sources) i = and_then (select_parts size [] i) (λ (selected, i').
    and_then (select_sources sources i') (λ (rest, i''). ok ((source, selected) ∷ rest, i'')))

-- The dependencies missing, and `size_info_missing`.
abbrev pub Missing : Type 0
Missing = Locations × List ℕ

abbrev add_dependency : Dependency → List Dependency → List Dependency
add_dependency d [] = d ∷ []
add_dependency d (e ∷ es) = if d.0 == e.0 && d.1 == e.1 then e ∷ es else e ∷ add_dependency d es

-- `.setdefault(source, {}).setdefault(executor, set()).add((dset, src_idx))`
abbrev pub miss : ℕ → ℕ → Dependency → Locations → Locations
miss source executor d missing =
    let by_executor = or_empty (get source missing) in
    set_item source
      (set_item executor (add_dependency d (or_empty (get executor by_executor))) by_executor)
      missing

module _ (dset_id src_idx : ℕ) where
  -- `for dep_dset_id, dep_part_idx in dependencies`, which `break` ends.
  unfoldable pub find_dependency : ℕ → ℕ → List Dependency → Missing → Result Failure Missing
  find_dependency source executor [] m = ok m
  find_dependency source executor ((dep_dset_id, dep_part_idx) ∷ dependencies) (missing, indices) =
      let later = find_dependency source executor dependencies (missing, indices) in
      if not (dep_dset_id == dset_id)
      then err assertion_error
      else (if dep_part_idx == src_idx
          then (if contains src_idx indices
              then ok (miss source executor (dep_dset_id, src_idx) missing, discard src_idx indices)
              else err key_error)
          else later)

  unfoldable pub find_on_executors :
      ℕ → List (ℕ × List Dependency) → Missing → Result Failure Missing
  unfolding find_dependency
  find_on_executors source [] m = ok m
  find_on_executors source ((executor, dependencies) ∷ rest) m =
      and_then (find_dependency source executor dependencies m)
        (λ m'. find_on_executors source rest m')

  unfoldable pub find_on_sources : Locations → Missing → Result Failure Missing
  unfolding find_on_executors
  find_on_sources [] m = ok m
  find_on_sources ((source, by_executor) ∷ rest) m =
      and_then (find_on_executors source by_executor m) (λ m'. find_on_sources rest m')

-- `for src_idx in list(size_info_missing)`
unfoldable pub translate : ℕ → Locations → List ℕ → Missing → Result Failure Missing
unfolding find_on_sources
translate dset_id locations [] m = ok m
translate dset_id locations (src_idx ∷ rest) m =
    and_then (find_on_sources dset_id src_idx locations m)
      (λ m'. translate dset_id locations rest m')

-- What the selection ends with.
abbrev pub conclude :
    List (ℕ × List PartSizes) → Missing → Result Failure (List (ℕ × List PartSizes))
conclude selected (missing, x ∷ indices) = err sizes_missing
conclude selected (d ∷ missing, []) = err (dependencies_failed (d ∷ missing))
conclude selected ([], []) = ok selected

unfoldable pub get_sizes :
    ℕ → ℕ → Locations → List (ℕ × Response) → Result Failure (List (ℕ × List PartSizes))
unfolding gather select_sources translate
get_sizes dset_id src_count locations responses =
    and_then (gather locations responses [] []) (λ (found, missing).
      and_then (select_sources found (record { missing = range_set src_count; located = [] }))
        (λ (selected, i).
          and_then (translate dset_id locations i.missing (missing, i.missing))
            (λ m. conclude selected m)))
