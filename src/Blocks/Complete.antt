-- ===== src/Blocks/Complete.antt =====
-- A block of which all chunks have been marked as done, in whatever order.
use bndl.Prelude.{
  ℕ, ◌-◌, ◌≤◌, ◌<◌, ◌≡◌, refl, ap, ◌∙◌, true, false, ◌||◌, List, [], ◌∷◌, ltb, max, All, arith,
}
use bndl.Blocks.{Chunk, mark_done}
use bndl.Blocks.Available.{StartsAfter, IsRuns, within, covers, IsApart, mark_done-IsRuns}

-- `mark_done` for one chunk after the other.
unfoldable pub mark_all : List Chunk → List Chunk → List Chunk
mark_all [] done = done
mark_all (c ∷ cs) done = mark_all cs (mark_done c done)

-- Chunks that are not empty, and no two of which have a byte in common.
abbrev pub IsSeparate : List Chunk → Type 0
IsSeparate [] = Unit
IsSeparate (c ∷ cs) = (c.0 < c.1) × IsApart c cs × IsSeparate cs

apart-covers :
    (c : Chunk) (ds : List Chunk) (u : ℕ) → IsApart c ds → within u c ≡ true → covers u ds ≡ false
apart-covers c [] u h w = refl
apart-covers c (d ∷ ds) u h w = ground (arith, h.0, w, apart-covers c ds u h.1 w)

covers-IsApart :
    (c : Chunk) (ds : List Chunk)
    → c.0 < c.1
    → IsRuns ds
    → ((u : ℕ) → within u c ≡ true → covers u ds ≡ false)
    → IsApart c ds
covers-IsApart c [] full runs h = tt
covers-IsApart c (d ∷ ds) full runs h = (
  ground (arith, full, runs.0, h (max c.0 d.0)),
  covers-IsApart c ds full runs.2 (λ u w. ground (arith, h u w)),
)

-- What is apart from the ranges and from the chunk is apart from the ranges with the chunk.
marked-IsApart :
    (c : Chunk) (cs done : List Chunk)
    → c.0 < c.1
    → IsApart c done
    → IsRuns done
    → IsApart c cs
    → IsSeparate cs
    → All (λ e. IsApart e done) cs
    → All (λ e. IsApart e (mark_done c done)) cs
marked-IsApart c [] done full apart runs others separate free = tt
marked-IsApart c (e ∷ cs) done full apart runs others separate free =
    let marked = mark_done-IsRuns c done full apart runs in
    (
      covers-IsApart e (mark_done c done) separate.0 marked.0
          (λ u w. ground (arith, marked.1 u, w, others.0, apart-covers e done u free.0 w)),
      marked-IsApart c cs done full apart runs others.1 separate.2 free.1,
    )

mark_all-IsRuns :
    (cs done : List Chunk)
    → IsSeparate cs
    → IsRuns done
    → All (λ c. IsApart c done) cs
    → IsRuns (mark_all cs done)
      × ((u : ℕ) → covers u (mark_all cs done) ≡ (covers u cs || covers u done))
unfolding mark_all
mark_all-IsRuns [] done separate runs free = (runs, λ u. refl)
mark_all-IsRuns (c ∷ cs) done separate runs free =
    let marked = mark_done-IsRuns c done separate.0 free.0 runs in
    let rest =
      mark_all-IsRuns cs (mark_done c done) separate.2 marked.0
        (marked-IsApart c cs done separate.0 free.0 runs separate.1 separate.2 free.1) in
    (rest.0, λ u. ground (arith, rest.1 u, marked.1 u))

covers-before :
    (stop u : ℕ) (ds : List Chunk)
    → IsRuns ds
    → StartsAfter stop ds
    → u ≤ stop
    → covers u ds ≡ false
covers-before stop u [] runs after h = refl
covers-before stop u (d ∷ ds) runs after h =
    ground (arith, after, h, covers-before d.1 u ds runs.2 runs.1 (omega (arith, after, h, runs.0)))

-- Ranges that cover the bytes below `size` and no others are a single one.
one_run :
    (size : ℕ) (ds : List Chunk)
    → 1 ≤ size
    → IsRuns ds
    → ((u : ℕ) → covers u ds ≡ ltb u size)
    → ds ≡ (0, size) ∷ []
one_run size [] pos runs h = ground (arith, pos, h 0)
one_run size ((a, b) ∷ []) pos runs h =
    ap (λ c. c ∷ [])
      (ap (λ k. (k, b)) {x = a} {y = 0} (ground (arith, pos, h 0))
        ∙ ap (λ k. (0, k)) {x = b} {y = size} (ground (arith, runs.0, h b, h (b - 1))))
one_run size ((a, b) ∷ e ∷ ds) pos runs h = ground (
  arith,
  runs.0,
  runs.1,
  h e.0,
  h b,
  runs.2.0,
  covers-before b b (e ∷ ds) runs.2 runs.1 (omega arith),
)

-- When the chunks of a block have been marked as done, each once and in any order, then the
-- whole block is available, as one range. That they are its chunks means that none is empty, no
-- two have a byte in common, and the bytes in them are those of the block, which is not empty.
pub mark_all_complete :
    (size : ℕ) (chunks : List Chunk)
    → 1 ≤ size
    → IsSeparate chunks
    → ((u : ℕ) → covers u chunks ≡ ltb u size)
    → mark_all chunks [] ≡ (0, size) ∷ []
mark_all_complete size chunks pos separate tiled =
    one_run size (mark_all chunks []) pos marked.0 (λ u. ground (arith, marked.1 u, tiled u))
  where
    all_free : (cs : List Chunk) → All (λ c. IsApart c []) cs
    all_free [] = tt
    all_free (c ∷ cs) = (tt, all_free cs)

    marked :
        IsRuns (mark_all chunks [])
        × ((u : ℕ) → covers u (mark_all chunks []) ≡ (covers u chunks || covers u []))
    marked = mark_all-IsRuns chunks [] separate tt (all_free chunks)
