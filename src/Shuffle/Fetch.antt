-- ===== src/Shuffle/Fetch.antt =====
-- What a reading partition gets for its requests from the manager of a worker.
use bndl.Prelude.{
  ℕ, suc, ◌+◌, zero, ◌<◌, ◌≡◌, refl, sym, ap, ◌∙◌, none, some, List, [], ◌∷◌, ◌++◌, length, map,
  get_elem?, All, arith, append_assoc, length-append,
}
use bndl.Prelude.Exec.{Result, ok}
use bndl.Prelude.Dict.{get}
use bndl.Shuffle.Manager.{
  Block, Bucket, Parts, ShuffleManager, ShuffleError, collect, flatten, part_sizes,
  get_bucket_sizes, coordinate, get_bucket_block, get_bucket_blocks,
}
use bndl.Shuffle.Requests.{requests_for}
use bndl.Shuffle.Batching.{blocks_at, batches_at, parts_at, AllFull, flatten-requests_for}

-- Each key stands in a dictionary once.
abbrev pub IsDict : Parts → Type 0
IsDict [] = Unit
IsDict ((k, v) ∷ d) = (get k d ≡ none) × IsDict d

-- `f` gives the results, one for each element.
data Gives {A B : Type 0} (f : A → Result ShuffleError B) : List A → List B → Type 0 where
  nothing : Gives f [] []
  before :
      {x : A} {xs : List A} {y : B} {ys : List B}
      → f x ≡ ok y
      → Gives f xs ys
      → Gives f (x ∷ xs) (y ∷ ys)

module _ {A B : Type 0} (f : A → Result ShuffleError B) where
  Gives-append :
      {xs xs' : List A} {ys ys' : List B}
      → Gives f xs ys
      → Gives f xs' ys'
      → Gives f (xs ++ xs') (ys ++ ys')
  Gives-append nothing k = k
  Gives-append (before e h) k = before e (Gives-append h k)

  collect-Gives : {xs : List A} {ys : List B} → Gives f xs ys → collect f xs ≡ ok ys
  unfolding collect
  collect-Gives nothing = refl
  collect-Gives (before e h) = rw (e, collect-Gives h) refl

get_elem?-middle {ℓ} :
    {A : Type ℓ} (xs : List A) (x : A) (ys : List A) → get_elem? (xs ++ x ∷ ys) (length xs) ≡ some x
get_elem?-middle [] x ys = refl
get_elem?-middle (w ∷ xs) x ys = get_elem?-middle xs x ys

length-snoc {ℓ} : {A : Type ℓ} (xs : List A) (x : A) → length xs + 1 ≡ length (xs ++ x ∷ [])
length-snoc xs x = omega (arith, length-append xs (x ∷ []))

-- The bucket of a partition for a destination.
abbrev pub bucket_at : ℕ → List Bucket → Bucket
bucket_at dest [] = []
bucket_at zero (b ∷ bs) = b
bucket_at (suc dest) (b ∷ bs) = bucket_at dest bs

get_elem?-bucket_at :
    (dest : ℕ) (buckets : List Bucket)
    → dest < length buckets
    → get_elem? buckets dest ≡ some (bucket_at dest buckets)
get_elem?-bucket_at dest [] h = ground (arith, h)
get_elem?-bucket_at zero (b ∷ bs) h = refl
get_elem?-bucket_at (suc dest) (b ∷ bs) h = get_elem?-bucket_at dest bs (omega (arith, h))

abbrev pub announced : ℕ → Parts → List (ℕ × List (List ℕ))
announced dest [] = []
announced dest ((part, buckets) ∷ parts) =
    (part, map (λ batch. map (λ block. block.size) batch) (bucket_at dest buckets))
    ∷ announced dest parts

abbrev pub blocks_for : ℕ → Parts → List Block
blocks_for dest [] = []
blocks_for dest ((part, buckets) ∷ parts) =
    flatten (bucket_at dest buckets) ++ blocks_for dest parts

module _ (m : ShuffleManager) (dset dest : ℕ) where
  block_found :
      (parts : Parts) (part : ℕ) (buckets : List Bucket) (i j : ℕ) (batch : List Block)
      (block : Block)
      → get dset m.buckets ≡ some parts
      → get part parts ≡ some buckets
      → dest < length buckets
      → get_elem? (bucket_at dest buckets) i ≡ some batch
      → get_elem? batch j ≡ some block
      → get_bucket_block m (coordinate dset part dest i j) ≡ ok block
  unfolding get_bucket_block
  block_found parts part [] i j batch block e₁ e₂ h e₃ e₄ = ground (arith, h)
  block_found parts part (b ∷ bs) i j batch block e₁ e₂ h e₃ e₄ =
      rw (e₁, e₂, get_elem?-bucket_at dest (b ∷ bs) h, e₃, e₄) refl

  module _ (parts : Parts) (part : ℕ) (buckets : List Bucket)
      (kept : get dset m.buckets ≡ some parts) (has : get part parts ≡ some buckets)
      (inside : dest < length buckets) where
    blocks_at-Gives :
        (i : ℕ) (pre post : List Block)
        → get_elem? (bucket_at dest buckets) i ≡ some (pre ++ post)
        → Gives
            (get_bucket_block m)
            (blocks_at dset dest part i (length pre) (map (λ block. block.size) post))
            post
    blocks_at-Gives i pre [] e = nothing
    blocks_at-Gives i pre (x ∷ post) e =
        before
          (block_found parts part buckets i (length pre) (pre ++ x ∷ post) x kept has inside e
            (get_elem?-middle pre x post))
          (rw (length-snoc pre x) (
            blocks_at-Gives i (pre ++ x ∷ []) post
              (e ∙ ap some (sym (append_assoc pre (x ∷ []) post)))))

    batches_at-Gives :
        (pre post : Bucket)
        → bucket_at dest buckets ≡ pre ++ post
        → Gives
            (get_bucket_block m)
            (batches_at dset dest part
              (length pre)
              (map (λ batch. map (λ block. block.size) batch) post))
            (flatten post)
    batches_at-Gives pre [] e = nothing
    batches_at-Gives pre (batch ∷ post) e =
        Gives-append (get_bucket_block m)
          (blocks_at-Gives (length pre) [] batch
            (ap (λ b. get_elem? b (length pre)) e ∙ get_elem?-middle pre batch post))
          (rw (length-snoc pre batch) (
            batches_at-Gives (pre ++ batch ∷ []) post
              (e ∙ sym (append_assoc pre (batch ∷ []) post))))

  parts_at-Gives :
      (parts items : Parts)
      → get dset m.buckets ≡ some parts
      → All (λ part. (get part.0 parts ≡ some part.1) × (dest < length part.1)) items
      → Gives
          (get_bucket_block m)
          (parts_at dset dest (announced dest items))
          (blocks_for dest items)
  parts_at-Gives parts [] kept found = nothing
  parts_at-Gives parts ((part, buckets) ∷ items) kept found =
      Gives-append (get_bucket_block m)
        (batches_at-Gives parts part buckets kept found.0.0 found.0.1 [] (bucket_at dest buckets)
          refl)
        (parts_at-Gives parts items kept found.1)

  collect-part_sizes :
      (items : Parts)
      → All (λ part. dest < length part.1) items
      → collect (part_sizes dest) items ≡ ok (announced dest items)
  unfolding collect part_sizes
  collect-part_sizes [] h = refl
  collect-part_sizes ((part, buckets) ∷ items) h =
      rw (get_elem?-bucket_at dest buckets h.0, collect-part_sizes items h.1) refl

-- Behind other items a key is found all the same, as long as it is not one of theirs.
found_behind :
    (dest k : ℕ) (v : List Bucket) (d items : Parts)
    → get k items ≡ none
    → All (λ part. (get part.0 d ≡ some part.1) × (dest < length part.1)) items
    → All (λ part. (get part.0 ((k, v) ∷ d) ≡ some part.1) × (dest < length part.1)) items
found_behind dest k v d [] absent h = tt
found_behind dest k v d ((j, w) ∷ items) absent h = (
  (ground (arith, absent, h.0.0), h.0.1),
  found_behind dest k v d items (ground (arith, absent)) h.1,
)

found_everywhere :
    (dest : ℕ) (parts : Parts)
    → IsDict parts
    → All (λ part. dest < length part.1) parts
    → All (λ part. (get part.0 parts ≡ some part.1) × (dest < length part.1)) parts
found_everywhere dest [] dict h = tt
found_everywhere dest ((k, v) ∷ d) dict h =
    ((ground arith, h.0), found_behind dest k v d d dict.0 (found_everywhere dest d dict.1 h.1))

-- A worker that keeps buckets for every destination announces the sizes of all their blocks, and
-- the requests that a reading partition makes out of the announced sizes get exactly the blocks
-- of its destination, each once and in their order, without an exception. The partitions' indices
-- are the keys of a dictionary, and no block is empty.
pub get_bucket_blocks-requests_for :
    (m : ShuffleManager) (dset dest block_size_b : ℕ) (parts : Parts)
    → get dset m.buckets ≡ some parts
    → IsDict parts
    → All (λ part. dest < length part.1) parts
    → AllFull dset dest (announced dest parts)
    → (get_bucket_sizes m dset dest ≡ ok (announced dest parts))
      × (get_bucket_blocks m (flatten (requests_for block_size_b dset dest (announced dest parts)))
          ≡ ok (blocks_for dest parts))
unfolding get_bucket_sizes get_bucket_blocks
get_bucket_blocks-requests_for m dset dest block_size_b parts kept dict inside full = (
  rw kept (collect-part_sizes m dset dest parts inside),
  rw (flatten-requests_for dset dest block_size_b (announced dest parts) full) (
      collect-Gives (get_bucket_block m)
        (parts_at-Gives m dset dest parts parts kept (found_everywhere dest parts dict inside))),
)
