-- ===== src/Shuffle/Manager.antt =====
-- `ShuffleManager` of bndl/compute/shuffle.py. A dictionary is a list of its items in the order of
-- insertion. The memory manager is the list of what was handed to `add_releasable`.
use bndl.Prelude.{ℕ, Bool, Option, none, some, List, [], ◌∷◌, ◌++◌, map, get_elem?, if◌then◌else◌}
use bndl.Prelude.Exec.{Result, ok, err}
use bndl.Prelude.Dict.{get, set_item, del_item}

pub data ShuffleError : Type 0 where
  key_error index_error : ShuffleError

pub record Block : Type 0 where
  pub id : ℕ
  pub size : ℕ
  -- whether it has `to_disk`, so that memory management may release it
  pub in_memory : Bool

-- A bucket is a list of batches of blocks; a source partition has one for each destination.
abbrev pub Bucket : Type 0
Bucket = List (List Block)

-- {source partition index : buckets}
abbrev pub Parts : Type 0
Parts = List (ℕ × List Bucket)

pub record ShuffleManager : Type 0 where
  -- {data set id : parts}
  pub buckets : List (ℕ × Parts)
  -- (block id, size)
  pub releasable : List (ℕ × ℕ)

abbrev pub and_then :
    {A B : Type 0} → Result ShuffleError A → (A → Result ShuffleError B) → Result ShuffleError B
and_then (ok a) f = f a
and_then (err e) f = err e

-- The elements for which `f` gives results, up to the first exception.
unfoldable pub collect :
    {A B : Type 0} → (A → Result ShuffleError B) → List A → Result ShuffleError (List B)
collect f [] = ok []
collect f (x ∷ xs) = and_then (f x) (λ y. and_then (collect f xs) (λ ys. ok (y ∷ ys)))

-- What a `KeyError` or an `IndexError` is raised for.
abbrev pub or_raise : {A : Type 0} → ShuffleError → Option A → Result ShuffleError A
or_raise e none = err e
or_raise e (some a) = ok a

abbrev pub flatten {ℓ} : {A : Type ℓ} → List (List A) → List A
flatten [] = []
flatten (xs ∷ xss) = xs ++ flatten xss

unfoldable pub expose : List Block → List (ℕ × ℕ) → List (ℕ × ℕ)
expose [] releasable = releasable
expose (b ∷ bs) releasable =
    expose bs (if b.in_memory then releasable ++ (b.id, b.size) ∷ [] else releasable)

abbrev or_empty : Option Parts → Parts
or_empty none = []
or_empty (some parts) = parts

-- `part_id` is the pair of the data set's id and the partition's index.
unfoldable pub set_buckets : ℕ × ℕ → List Bucket → ShuffleManager → ShuffleManager
unfolding expose
set_buckets (dset_id, idx) buckets m = record m {
  buckets = set_item dset_id (set_item idx buckets (or_empty (get dset_id m.buckets))) m.buckets;
  releasable = expose (flatten (flatten buckets)) m.releasable;
}

abbrev pub buckets_for_dset : ShuffleManager → ℕ → Result ShuffleError Parts
buckets_for_dset m src_dset_id = or_raise key_error (get src_dset_id m.buckets)

-- The body of the loop of `get_bucket_sizes`.
unfoldable pub part_sizes : ℕ → ℕ × List Bucket → Result ShuffleError (ℕ × List (List ℕ))
part_sizes dest_part_idx (src_part_idx, buckets) =
    and_then (or_raise index_error (get_elem? buckets dest_part_idx))
      (λ bucket. ok (src_part_idx, map (λ batch. map (λ block. block.size) batch) bucket))

abbrev sizes_of : ℕ → Option Parts → Result ShuffleError (List (ℕ × List (List ℕ)))
sizes_of dest_part_idx none = ok []
sizes_of dest_part_idx (some parts) = collect (part_sizes dest_part_idx) parts

unfoldable pub get_bucket_sizes :
    ShuffleManager → ℕ → ℕ → Result ShuffleError (List (ℕ × List (List ℕ)))
unfolding collect part_sizes
get_bucket_sizes m src_dset_id dest_part_idx = sizes_of dest_part_idx (get src_dset_id m.buckets)

-- `if not buckets`: no buckets or an empty list of them.
abbrev not_empty : Option (List Bucket) → Option (List Bucket)
not_empty none = none
not_empty (some []) = none
not_empty (some (b ∷ bs)) = some (b ∷ bs)

-- (src_dset_id, src_part_idx, dest_part_idx, batch_idx, block_idx)
pub record Coordinate : Type 0 where
  pub src_dset_id : ℕ
  pub src_part_idx : ℕ
  pub dest_part_idx : ℕ
  pub batch_idx : ℕ
  pub block_idx : ℕ

abbrev pub coordinate : ℕ → ℕ → ℕ → ℕ → ℕ → Coordinate
coordinate src_dset_id src_part_idx dest_part_idx batch_idx block_idx = record {
  src_dset_id = src_dset_id;
  src_part_idx = src_part_idx;
  dest_part_idx = dest_part_idx;
  batch_idx = batch_idx;
  block_idx = block_idx;
}

unfoldable pub get_bucket_block : ShuffleManager → Coordinate → Result ShuffleError Block
get_bucket_block m c = and_then (buckets_for_dset m c.src_dset_id) (λ parts.
    and_then (or_raise key_error (not_empty (get c.src_part_idx parts))) (λ buckets.
      and_then (or_raise key_error (get_elem? buckets c.dest_part_idx)) (λ bucket.
        and_then (or_raise key_error (get_elem? bucket c.batch_idx))
          (λ batch. or_raise key_error (get_elem? batch c.block_idx)))))

unfoldable pub get_bucket_blocks :
    ShuffleManager → List Coordinate → Result ShuffleError (List Block)
unfolding collect get_bucket_block
get_bucket_blocks m coordinates = collect (get_bucket_block m) coordinates

unfoldable pub clear_bucket : ℕ → ShuffleManager → ShuffleManager
clear_bucket dset_id m = record m { buckets = del_item dset_id m.buckets }
