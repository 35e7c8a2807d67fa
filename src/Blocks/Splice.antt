-- ===== src/Blocks/Splice.antt =====
-- `mark_done` as a change at one place: the list in front of the chunk's position stays, and what
-- follows depends on whether the chunk touches its neighbours.
use bndl.Prelude.{
  ℕ, suc, ◌-◌, ◌≡◌, refl, ap, ◌∙◌, false, List, [], ◌∷◌, length, ◌==◌, arith, if◌then◌else◌,
  Bool-cases, inl, inr,
}
use bndl.Blocks.{Chunk, chunk_lt, bisect_left, item, mark_at, mark_done}

-- The chunk, merged with the range that follows if they touch.
abbrev pub with_next : Chunk → List Chunk → List Chunk
with_next chunk [] = chunk ∷ []
with_next chunk (q ∷ post) = if chunk.1 == q.0 then (chunk.0, q.1) ∷ post else chunk ∷ q ∷ post

-- The same behind the range `p`.
abbrev pub join : Chunk → Chunk → List Chunk → List Chunk
join chunk p post =
    if chunk.0 == p.1 then with_next (p.0, chunk.1) post else p ∷ with_next chunk post

-- The reference: the ranges before the chunk, then the chunk joined to what is beside it.
abbrev pub splice : Chunk → Chunk → List Chunk → List Chunk
splice chunk p [] = join chunk p []
splice chunk p (d ∷ ds) = if chunk_lt d chunk then p ∷ splice chunk d ds else join chunk p (d ∷ ds)

abbrev pub spliced : Chunk → List Chunk → List Chunk
spliced chunk [] = chunk ∷ []
spliced chunk (d ∷ ds) = if chunk_lt d chunk then splice chunk d ds else with_next chunk (d ∷ ds)

-- At an index that is not zero, nothing depends on the wrap-around of -1, and the elements in
-- front of the previous one play no part.
mark_at-shift :
    (k : ℕ) (chunk d : Chunk) (ds : List Chunk)
    → mark_at (suc (suc k)) chunk (d ∷ ds) ≡ d ∷ mark_at (suc k) chunk ds
mark_at-shift k chunk d ds = ground arith

mark_at-splice :
    (chunk p : Chunk) (ds : List Chunk)
    → mark_at (suc (bisect_left ds chunk)) chunk (p ∷ ds) ≡ splice chunk p ds
unfolding bisect_left
mark_at-splice chunk p [] = ground arith
mark_at-splice chunk p (d ∷ ds) = elim (Bool-cases (chunk_lt d chunk)) [
  | inl c ↦ rw c (
      mark_at-shift (bisect_left ds chunk) chunk p (d ∷ ds)
      ∙ ap (λ l. p ∷ l) (mark_at-splice chunk d ds))
  | inr c ↦ rw c (ground arith)
]

-- For a chunk that comes first, the index -1 must not name a range that ends where it starts.
pub mark_done-spliced :
    (chunk : Chunk) (done : List Chunk)
    → (chunk_lt (item done 0) chunk ≡ false → (chunk.0 == (item done (length done - 1)).1) ≡ false)
    → mark_done chunk done ≡ spliced chunk done
unfolding mark_done bisect_left
mark_done-spliced chunk [] h = refl
mark_done-spliced chunk (d ∷ ds) h = elim (Bool-cases (chunk_lt d chunk)) [
  | inl c ↦ rw c (mark_at-splice chunk d ds)
  | inr c ↦ rw (c, h c) (ground arith)
]
