-- ===== src/Blocks/Available.antt =====
-- `mark_done` keeps the available ranges in order, apart and merged, and adds just the chunk.
use bndl.Prelude.{
  ℕ, zero, suc, ◌-◌, ◌≤◌, ◌<◌, ◌≡◌, refl, Bool, true, false, ◌&&◌, ◌||◌, List, [], ◌∷◌, length, ltb,
  leb, ◌==◌, All, arith, Bool-cases, inl, inr,
}
use bndl.Blocks.{Chunk, chunk_lt, item, mark_done}
use bndl.Blocks.Splice.{with_next, join, splice, spliced, mark_done-spliced}

abbrev pub StartsAfter : ℕ → List Chunk → Type 0
StartsAfter stop [] = Unit
StartsAfter stop (d ∷ ds) = stop < d.0

-- No range is empty, they are in order, and between two of them something is missing.
abbrev pub IsRuns : List Chunk → Type 0
IsRuns [] = Unit
IsRuns (d ∷ ds) = (d.0 < d.1) × StartsAfter d.1 ds × IsRuns ds

-- Whether a byte of the block is in one of the ranges.
abbrev pub within : ℕ → Chunk → Bool
within u d = leb d.0 u && ltb u d.1

abbrev pub covers : ℕ → List Chunk → Bool
covers u [] = false
covers u (d ∷ ds) = within u d || covers u ds

-- The chunk has no byte in common with any of the ranges.
abbrev pub IsApart : Chunk → List Chunk → Type 0
IsApart chunk = All (λ d. (leb d.1 chunk.0 || leb chunk.1 d.0) ≡ true)

abbrev NotBefore : ℕ → List Chunk → Type 0
NotBefore stop [] = Unit
NotBefore stop (d ∷ ds) = stop ≤ d.0

-- What is made of the chunk and the ranges from some place on, where `start` is the first byte.
abbrev Joined : Chunk → ℕ → List Chunk → List Chunk → Type 0
Joined chunk start done out =
    IsRuns out
    × ((stop : ℕ) → stop < start → StartsAfter stop out)
    × ((u : ℕ) → covers u out ≡ (within u chunk || covers u done))

with_next-Joined :
    (chunk : Chunk) (post : List Chunk)
    → chunk.0 < chunk.1
    → NotBefore chunk.1 post
    → IsRuns post
    → Joined chunk chunk.0 post (with_next chunk post)
with_next-Joined chunk [] full next runs = ((full, tt, tt), (λ stop h. h), (λ u. refl))
with_next-Joined chunk (q ∷ post) full next runs = elim (Bool-cases (chunk.1 == q.0)) [
  | inl e ↦ rw e (
    (omega (arith, full, runs.0, next), runs.1, runs.2),
    λ stop h. h,
    λ u. ground (arith, e, full, runs.0),
  )
  | inr e ↦ rw e ((full, ground (arith, e, next), runs), λ stop h. h, λ u. refl)
]

join-Joined :
    (chunk p : Chunk) (post : List Chunk)
    → chunk.0 < chunk.1
    → p.1 ≤ chunk.0
    → NotBefore chunk.1 post
    → IsRuns (p ∷ post)
    → Joined chunk p.0 (p ∷ post) (join chunk p post)
join-Joined chunk p post full apart next runs = elim (Bool-cases (chunk.0 == p.1)) [
  | inl e ↦ rw e (
      let k =
        with_next-Joined (p.0, chunk.1) post (omega (arith, full, apart, runs.0)) next runs.2 in
      (k.0, k.1, λ u. ground (arith, e, full, runs.0, k.2 u)))
  | inr e ↦ rw e (
      let k = with_next-Joined chunk post full next runs.2 in
      ((runs.0, k.1 p.1 (ground (arith, e, apart)), k.0), λ stop h. h, λ u. ground (arith, k.2 u)))
]

-- A range that sorts before the chunk ends before it, and one that does not starts behind it.
sorted_before :
    (d chunk : Chunk)
    → chunk.0 < chunk.1
    → (leb d.1 chunk.0 || leb chunk.1 d.0) ≡ true
    → chunk_lt d chunk ≡ true
    → d.1 ≤ chunk.0
sorted_before d chunk full apart c = ground (arith, full, apart, c)

sorted_behind :
    (d chunk : Chunk)
    → d.0 < d.1
    → (leb d.1 chunk.0 || leb chunk.1 d.0) ≡ true
    → chunk_lt d chunk ≡ false
    → chunk.1 ≤ d.0
sorted_behind d chunk full apart c = ground (arith, full, apart, c)

splice-Joined :
    (chunk p : Chunk) (ds : List Chunk)
    → chunk.0 < chunk.1
    → p.1 ≤ chunk.0
    → IsApart chunk ds
    → IsRuns (p ∷ ds)
    → Joined chunk p.0 (p ∷ ds) (splice chunk p ds)
splice-Joined chunk p [] full before apart runs = join-Joined chunk p [] full before tt runs
splice-Joined chunk p (d ∷ ds) full before apart runs = elim (Bool-cases (chunk_lt d chunk)) [
  | inl c ↦ rw c (
      let k = splice-Joined chunk d ds full (sorted_before d chunk full apart.0 c) apart.1 runs.2 in
      ((runs.0, k.1 p.1 runs.1, k.0), λ stop h. h, λ u. ground (arith, k.2 u)))
  | inr c ↦
      rw c
        (join-Joined chunk p (d ∷ ds) full before (sorted_behind d chunk runs.2.0 apart.0 c) runs)
]

-- No range ends before a list of ranges starts.
item-after :
    (d : Chunk) (ds : List Chunk) (i : ℕ)
    → IsRuns (d ∷ ds)
    → i ≤ length ds
    → d.0 < (item (d ∷ ds) i).1
item-after d ds zero runs h = runs.0
item-after d [] (suc i) runs h = ground (arith, h)
item-after d (e ∷ ds) (suc i) runs h =
    omega (arith, item-after e ds i runs.2 (omega (arith, h)), runs.0, runs.1)

-- Marking a chunk as done that has no byte in common with the available ranges keeps these in
-- order, apart and merged, and makes just the bytes of the chunk available in addition. In
-- particular the index -1, which is used for a chunk that comes first, does no harm.
pub mark_done-IsRuns :
    (chunk : Chunk) (done : List Chunk)
    → chunk.0 < chunk.1
    → IsApart chunk done
    → IsRuns done
    → IsRuns (mark_done chunk done)
      × ((u : ℕ) → covers u (mark_done chunk done) ≡ (within u chunk || covers u done))
mark_done-IsRuns chunk done full apart runs =
    rw (mark_done-spliced chunk done (untouched done apart runs)) (joined done apart runs)
  where
    untouched :
        (done : List Chunk)
        → IsApart chunk done
        → IsRuns done
        → chunk_lt (item done 0) chunk ≡ false
        → (chunk.0 == (item done (length done - 1)).1) ≡ false
    untouched [] apart runs c = ground (arith, c, full)
    untouched (d ∷ ds) apart runs c = ground (
      arith,
      full,
      sorted_behind d chunk runs.0 apart.0 c,
      item-after d ds (length (d ∷ ds) - 1) runs (omega arith),
    )

    joined :
        (done : List Chunk)
        → IsApart chunk done
        → IsRuns done
        → IsRuns (spliced chunk done)
          × ((u : ℕ) → covers u (spliced chunk done) ≡ (within u chunk || covers u done))
    joined [] apart runs = ((full, tt, tt), λ u. refl)
    joined (d ∷ ds) apart runs = elim (Bool-cases (chunk_lt d chunk)) [
      | inl c ↦ rw c (
          let k =
            splice-Joined chunk d ds full (sorted_before d chunk full apart.0 c) apart.1 runs in
          (k.0, k.2))
      | inr c ↦ rw c (
          let k =
            with_next-Joined chunk (d ∷ ds) full (sorted_behind d chunk runs.0 apart.0 c) runs in
          (k.0, k.2))
    ]
