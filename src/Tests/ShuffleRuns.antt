-- ===== src/Tests/ShuffleRuns.antt =====
-- A worker with the buckets of two partitions for two destinations, and a reader with two sources.
use bndl.Prelude.{length, ℕ, ◌<◌, ◌≡◌, refl, true, List, [], ◌∷◌, All, arith}
use bndl.Prelude.Exec.{ok, err}
use bndl.Prelude.Sets.{discard}
use bndl.Shuffle.Manager.{
  Block, Bucket, Parts, ShuffleManager, flatten, set_buckets, get_bucket_sizes, get_bucket_blocks,
}
use bndl.Shuffle.Requests.{requests_for}
use bndl.Shuffle.Batching.{AllFull, parts_at, flatten-requests_for}
use bndl.Shuffle.Fetch.{IsDict, announced, blocks_for, get_bucket_blocks-requests_for}
use bndl.Shuffle.Sizes.{
  Locations, PartSizes, Response, sizes, not_connected, dependencies_failed, get_sizes, gather,
  select_sources, select_parts, translate, find_on_sources, find_on_executors, find_dependency,
}

abbrev block : ℕ → ℕ → Block
block id size = record { id = id; size = size; in_memory = true }

abbrev first_buckets : List Bucket
first_buckets = ((block 1 10 ∷ block 2 20 ∷ []) ∷ (block 3 30 ∷ []) ∷ []) ∷ [] ∷ []

abbrev second_buckets : List Bucket
second_buckets = ((block 4 40 ∷ []) ∷ []) ∷ ((block 5 50 ∷ []) ∷ []) ∷ []

abbrev parts : Parts
parts = (0, first_buckets) ∷ (1, second_buckets) ∷ []

abbrev manager : ShuffleManager
manager = record { buckets = (7, parts) ∷ []; releasable = [] }

parts-IsDict : IsDict parts
parts-IsDict = (refl, (refl, tt))

parts_inside : All (λ part. 0 < length part.1) parts
parts_inside = (omega arith, (omega arith, tt))

sizes-AllFull : AllFull 7 0 (announced 0 parts)
sizes-AllFull =
    (((omega arith, (omega arith, tt)), ((omega arith, tt), tt)), (((omega arith, tt), tt), tt))

get_bucket_blocks-requests_for_example :
    (get_bucket_sizes manager 7 0 ≡ ok (announced 0 parts))
    × (get_bucket_blocks manager (flatten (requests_for 40 7 0 (announced 0 parts)))
        ≡ ok (blocks_for 0 parts))
get_bucket_blocks-requests_for_example =
    get_bucket_blocks-requests_for manager 7 0 40 parts refl parts-IsDict parts_inside sizes-AllFull

flatten-requests_for_example :
    flatten (requests_for 40 7 0 (announced 0 parts)) ≡ parts_at 7 0 (announced 0 parts)
flatten-requests_for_example = flatten-requests_for 7 0 40 (announced 0 parts) sizes-AllFull

stored :
    (set_buckets
      (7, 1)
      second_buckets
      (set_buckets (7, 0) first_buckets (record { buckets = []; releasable = [] }))).buckets
    ≡ manager.buckets
unfolding set_buckets
stored = refl

-- The second source announces the first partition once more.
abbrev responses : List (ℕ × Response)
responses = (20, sizes ((0, []) ∷ [])) ∷ (21, sizes ((0, []) ∷ (1, []) ∷ [])) ∷ []

abbrev locations : Locations
locations = (20, (5, (7, 0) ∷ []) ∷ []) ∷ (21, (5, (7, 1) ∷ []) ∷ []) ∷ []

abbrev selected : List (ℕ × List PartSizes)
selected = (20, (0, []) ∷ []) ∷ (21, (1, []) ∷ []) ∷ []

-- A source that is gone: what it held is reported for another execution.
lost :
    get_sizes 7 2 locations ((20, sizes ((0, []) ∷ [])) ∷ (21, not_connected) ∷ [])
    ≡ err (dependencies_failed ((21, (5, (7, 1) ∷ []) ∷ []) ∷ []))
unfolding get_sizes gather select_sources select_parts translate discard find_on_sources
    find_on_executors find_dependency
lost = refl
