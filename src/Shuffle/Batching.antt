-- ===== src/Shuffle/Batching.antt =====
-- Which coordinates the requests of a reading partition hold.
use bndl.Prelude.{
  ℕ, ◌+◌, ◌≤◌, ◌≡◌, inl, inr, refl, sym, ap, ◌∙◌, List, [], ◌∷◌, ◌++◌, ltb, ◌==◌, ==_iff, arith,
  append-nil, append_assoc, All, Bool-cases,
}
use bndl.Shuffle.Manager.{Coordinate, coordinate, flatten}
use bndl.Shuffle.Requests.{
  Batches, new_batch, add_block, add_blocks, add_batches, add_parts, requests_for,
}

pub flatten-append {ℓ} :
    {A : Type ℓ} (xss yss : List (List A)) → flatten (xss ++ yss) ≡ flatten xss ++ flatten yss
flatten-append [] yss = refl
flatten-append (xs ∷ xss) yss =
    rw (flatten-append xss yss) (sym (append_assoc xs (flatten xss) (flatten yss)))

-- All the coordinates so far.
abbrev gathered : Batches → List Coordinate
gathered b = flatten b.requests ++ b.request

-- A request of no bytes is empty.
abbrev IsSized : Batches → Type 0
IsSized b = b.request_size ≡ 0 → b.request ≡ []

gathered-new_batch : (b : Batches) → gathered (new_batch b) ≡ gathered b
unfolding new_batch
gathered-new_batch b = elim (Bool-cases (b.request_size == 0)) [
  | inl e ↦ rw e refl
  | inr e ↦
      rw (e, flatten-append b.requests (b.request ∷ []), append-nil b.request)
        (append-nil (flatten b.requests ++ b.request))
]

gathered-add_block :
    (block_size_b : ℕ) (c : Coordinate) (block_size : ℕ) (b : Batches)
    → gathered (add_block block_size_b c block_size b) ≡ gathered b ++ c ∷ []
unfolding add_block
gathered-add_block block_size_b c block_size b =
    elim (Bool-cases (ltb block_size_b (b.request_size + block_size))) [
      | inl e ↦ rw e (
          sym (append_assoc (flatten (new_batch b).requests) (new_batch b).request (c ∷ []))
          ∙ ap (λ l. l ++ c ∷ []) (gathered-new_batch b))
      | inr e ↦ rw e (sym (append_assoc (flatten b.requests) b.request (c ∷ [])))
    ]

add_block-IsSized :
    (block_size_b : ℕ) (c : Coordinate) (block_size : ℕ) (b : Batches)
    → 1 ≤ block_size
    → IsSized (add_block block_size_b c block_size b)
unfolding add_block
add_block-IsSized block_size_b c block_size b pos = λ e. ground (arith, e, pos)

-- The coordinates of the blocks of one batch, of a bucket, and of all parts, in order.
module _ (src_dset_id dest_part_idx : ℕ) where
  abbrev pub blocks_at : ℕ → ℕ → ℕ → List ℕ → List Coordinate
  blocks_at part batch block [] = []
  blocks_at part batch block (size ∷ sizes) =
      coordinate src_dset_id part dest_part_idx batch block ∷ blocks_at part batch (block + 1) sizes

  abbrev pub batches_at : ℕ → ℕ → List (List ℕ) → List Coordinate
  batches_at part batch [] = []
  batches_at part batch (sizes ∷ batches) =
      blocks_at part batch 0 sizes ++ batches_at part (batch + 1) batches

  abbrev pub parts_at : List (ℕ × List (List ℕ)) → List Coordinate
  parts_at [] = []
  parts_at ((part, batches) ∷ parts) = batches_at part 0 batches ++ parts_at parts

  -- No block is empty.
  abbrev pub AllFull : List (ℕ × List (List ℕ)) → Type 0
  AllFull = All (λ part. All (All (λ size. 1 ≤ size)) part.1)

  -- What a loop adds to what was gathered before.
  abbrev Adds : List Coordinate → Batches → Batches → Type 0
  Adds cs b b' = (gathered b' ≡ gathered b ++ cs) × IsSized b'

  Adds-refl : (b : Batches) → IsSized b → Adds [] b b
  Adds-refl b sized = (sym (append-nil (gathered b)), sized)

  Adds-append :
      (cs ds : List Coordinate) (b b' b'' : Batches)
      → Adds cs b b'
      → Adds ds b' b''
      → Adds (cs ++ ds) b b''
  Adds-append cs ds b b' b'' h k =
      (k.0 ∙ ap (λ l. l ++ ds) h.0 ∙ append_assoc (gathered b) cs ds, k.1)

  module _ (block_size_b : ℕ) where
    add_blocks-Adds :
        (part batch block : ℕ) (sizes : List ℕ) (b : Batches)
        → All (λ size. 1 ≤ size) sizes
        → IsSized b
        → Adds
            (blocks_at part batch block sizes)
            b
            (add_blocks block_size_b src_dset_id dest_part_idx part batch block sizes b)
    unfolding add_blocks
    add_blocks-Adds part batch block [] b full sized = Adds-refl b sized
    add_blocks-Adds part batch block (size ∷ sizes) b full sized =
        Adds-append (c ∷ []) (blocks_at part batch (block + 1) sizes) b b'
          (add_blocks block_size_b src_dset_id dest_part_idx part batch (block + 1) sizes b')
          (gathered-add_block block_size_b c size b, grown)
          (add_blocks-Adds part batch (block + 1) sizes b' full.1 grown)
      where
        c : Coordinate
        c = coordinate src_dset_id part dest_part_idx batch block

        b' : Batches
        b' = add_block block_size_b c size b

        grown : IsSized b'
        grown = add_block-IsSized block_size_b c size b full.0

    add_batches-Adds :
        (part batch : ℕ) (batches : List (List ℕ)) (b : Batches)
        → All (All (λ size. 1 ≤ size)) batches
        → IsSized b
        → Adds
            (batches_at part batch batches)
            b
            (add_batches block_size_b src_dset_id dest_part_idx part batch batches b)
    unfolding add_batches
    add_batches-Adds part batch [] b full sized = Adds-refl b sized
    add_batches-Adds part batch (sizes ∷ batches) b full sized =
        Adds-append (blocks_at part batch 0 sizes) (batches_at part (batch + 1) batches) b b'
          (add_batches block_size_b src_dset_id dest_part_idx part (batch + 1) batches b') first
          (add_batches-Adds part (batch + 1) batches b' full.1 first.1)
      where
        b' : Batches
        b' = add_blocks block_size_b src_dset_id dest_part_idx part batch 0 sizes b

        first : Adds (blocks_at part batch 0 sizes) b b'
        first = add_blocks-Adds part batch 0 sizes b full.0 sized

    add_parts-Adds :
        (parts : List (ℕ × List (List ℕ))) (b : Batches)
        → AllFull parts
        → IsSized b
        → Adds (parts_at parts) b (add_parts block_size_b src_dset_id dest_part_idx parts b)
    unfolding add_parts
    add_parts-Adds [] b full sized = Adds-refl b sized
    add_parts-Adds ((part, batches) ∷ parts) b full sized =
        Adds-append (batches_at part 0 batches) (parts_at parts) b b'
          (add_parts block_size_b src_dset_id dest_part_idx parts b') first
          (add_parts-Adds parts b' full.1 first.1)
      where
        b' : Batches
        b' = add_batches block_size_b src_dset_id dest_part_idx part 0 batches b

        first : Adds (batches_at part 0 batches) b b'
        first = add_batches-Adds part 0 batches b full.0 sized

    flatten-new_batch : (b : Batches) → IsSized b → flatten (new_batch b).requests ≡ gathered b
    unfolding new_batch
    flatten-new_batch b sized = elim (Bool-cases (b.request_size == 0)) [
      | inl e ↦
          rw (e, sized ((==_iff b.request_size 0).0 e)) (sym (append-nil (flatten b.requests)))
      | inr e ↦ rw (e, flatten-append b.requests (b.request ∷ []), append-nil b.request) refl
    ]

    -- The requests of a reading partition hold the coordinates of all announced blocks, each
    -- once and in their order, whatever the size of a request; provided that no block is empty.
    pub flatten-requests_for :
        (parts : List (ℕ × List (List ℕ)))
        → AllFull parts
        → flatten (requests_for block_size_b src_dset_id dest_part_idx parts) ≡ parts_at parts
    unfolding requests_for
    flatten-requests_for parts full =
        flatten-new_batch (add_parts block_size_b src_dset_id dest_part_idx parts start) added.1
        ∙ added.0
      where
        start : Batches
        start = record { requests = []; request = []; request_size = 0 }

        added :
            Adds
              (parts_at parts)
              start
              (add_parts block_size_b src_dset_id dest_part_idx parts start)
        added = add_parts-Adds parts start full (λ e. refl)
