-- ===== src/Shuffle/Requests.antt =====
-- The loops of `ShuffleReadingPartition.blocks` of bndl/compute/shuffle.py that gather the
-- coordinates of the blocks in requests of about one block's size.
use bndl.Prelude.{ℕ, ◌+◌, ◌==◌, List, [], ◌∷◌, ◌++◌, ltb, if◌then◌else◌}
use bndl.Shuffle.Manager.{Coordinate, coordinate}

-- The variables of the loops.
pub record Batches : Type 0 where
  pub requests : List (List Coordinate)
  pub request : List Coordinate
  pub request_size : ℕ

unfoldable pub new_batch : Batches → Batches
new_batch b =
    if b.request_size == 0
    then b
    else record { requests = b.requests ++ b.request ∷ []; request = []; request_size = 0 }

-- The body of the innermost loop.
unfoldable pub add_block : ℕ → Coordinate → ℕ → Batches → Batches
unfolding new_batch
add_block block_size_b c block_size b =
    let b' = if ltb block_size_b (b.request_size + block_size) then new_batch b else b in
    record b' { request = b'.request ++ c ∷ []; request_size = b'.request_size + block_size }

module _ (block_size_b src_dset_id dest_part_idx : ℕ) where
  -- `for block_idx, block_size in enumerate(block_sizes)`
  unfoldable pub add_blocks : ℕ → ℕ → ℕ → List ℕ → Batches → Batches
  unfolding add_block
  add_blocks src_part_idx batch_idx block_idx [] b = b
  add_blocks src_part_idx batch_idx block_idx (block_size ∷ block_sizes) b =
      let b' =
        add_block block_size_b
          (coordinate src_dset_id src_part_idx dest_part_idx batch_idx block_idx) block_size b in
      add_blocks src_part_idx batch_idx (block_idx + 1) block_sizes b'

  -- `for batch_idx, block_sizes in enumerate(batches)`
  unfoldable pub add_batches : ℕ → ℕ → List (List ℕ) → Batches → Batches
  unfolding add_blocks
  add_batches src_part_idx batch_idx [] b = b
  add_batches src_part_idx batch_idx (block_sizes ∷ batches) b =
      add_batches src_part_idx (batch_idx + 1) batches
        (add_blocks src_part_idx batch_idx 0 block_sizes b)

  -- `for src_part_idx, batches in parts`
  unfoldable pub add_parts : List (ℕ × List (List ℕ)) → Batches → Batches
  unfolding add_batches
  add_parts [] b = b
  add_parts ((src_part_idx, batches) ∷ parts) b =
      add_parts parts (add_batches src_part_idx 0 batches b)

  unfoldable pub requests_for : List (ℕ × List (List ℕ)) → List (List Coordinate)
  unfolding add_parts new_batch
  requests_for parts =
      (new_batch
        (add_parts parts (record { requests = []; request = []; request_size = 0 }))).requests
