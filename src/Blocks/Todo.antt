-- ===== src/Blocks/Todo.antt =====
-- The list of the chunks of a block, in bndl/compute/blocks.py, meets what a complete download
-- needs. The size of a chunk is a parameter.
use native.Mathlib.Nat.{div-eq-sub-div, div-eq_of_lt}
use bndl.Prelude.{
  ℕ, zero, suc, ◌+◌, ◌-◌, ◌/◌, ◌≤◌, ◌<◌, ◌≡◌, refl, sym, ap, ◌∙◌, ◌&&◌, List, [], ◌∷◌, ltb, leb,
  min, arith, inl, inr, Bool-cases,
}
use bndl.Blocks.{Chunk}
use bndl.Blocks.Available.{covers, IsApart}
use bndl.Blocks.Complete.{mark_all, IsSeparate, mark_all_complete}

-- The chunks from `start` on, `count` of them.
abbrev pub chunks_from : ℕ → ℕ → ℕ → ℕ → List Chunk
chunks_from size step start zero = []
chunks_from size step start (suc count) =
    (start, min size (start + step)) ∷ chunks_from size step (start + step) count

-- `[(start, min(size, start + chunk_size)) for start in range(0, size, chunk_size)]`
unfoldable pub todo : ℕ → ℕ → List Chunk
todo size step = chunks_from size step 0 ((size - 0 + step - 1) / step)

-- The starts are in the block, and the last chunk reaches its end.
abbrev Reaches : ℕ → ℕ → ℕ → ℕ → Type 0
Reaches size step start zero = size ≤ start
Reaches size step start (suc count) = (start < size) × Reaches size step (start + step) count

module _ (size step : ℕ) (pos : 1 ≤ step) where
  count_next :
      (start : ℕ)
      → start < size
      → (size - start + step - 1) / step ≡ (size - (start + step) + step - 1) / step + 1
  count_next start h =
      div-eq-sub-div {m = step} {n = size - start + step - 1} (omega (arith, pos))
        (omega (arith, h, pos))
      ∙ ap (λ k. k + 1) rest
    where
      rest : (size - start + step - 1 - step) / step ≡ (size - (start + step) + step - 1) / step
      rest = elim (Bool-cases (leb (start + step) size)) [
        | inl e ↦
            ap (λ k. k / step) {x = size - start + step - 1 - step}
              {y = size - (start + step) + step - 1} (ground (arith, e, pos))
        | inr e ↦
            div-eq_of_lt {n = size - start + step - 1 - step} {m = step} (ground (arith, e, h, pos))
            ∙ sym (
                div-eq_of_lt {n = size - (start + step) + step - 1} {m = step}
                  (ground (arith, e, pos)))
      ]

  count-Reaches :
      (count start : ℕ) → (size - start + step - 1) / step ≡ count → Reaches size step start count
  count-Reaches zero start e = elim (Bool-cases (ltb start size)) [
    | inl h ↦ ground (arith, e, count_next start (ground (arith, h)))
    | inr h ↦ ground (arith, h)
  ]
  count-Reaches (suc count) start e = elim (Bool-cases (ltb start size)) [
    | inl h ↦ (
      ground (arith, h),
      count-Reaches count (start + step) (ground (arith, e, count_next start (ground (arith, h)))),
    )
    | inr h ↦
        ground
          (arith, e, div-eq_of_lt {n = size - start + step - 1} {m = step} (ground (arith, h, pos)))
  ]

  chunks_from-IsApart :
      (c : Chunk) (start count : ℕ) → c.1 ≤ start → IsApart c (chunks_from size step start count)
  chunks_from-IsApart c start zero h = tt
  chunks_from-IsApart c start (suc count) h =
      (ground (arith, h), chunks_from-IsApart c (start + step) count (omega (arith, h)))

  chunks_from-IsSeparate :
      (start count : ℕ)
      → Reaches size step start count
      → IsSeparate (chunks_from size step start count)
        × ((u : ℕ) → covers u (chunks_from size step start count) ≡ (leb start u && ltb u size))
  chunks_from-IsSeparate start zero h = (tt, λ u. ground (arith, h))
  chunks_from-IsSeparate start (suc count) h =
      let k = chunks_from-IsSeparate (start + step) count h.1 in
      (
        (
          omega (arith, h.0, pos),
          chunks_from-IsApart (start, min size (start + step)) (start + step) count (omega arith),
          k.0,
        ),
        λ u. ground (arith, k.1 u, h.0),
      )

  -- The chunks to download tile the block: none is empty, no two have a byte in common, and they
  -- hold the bytes of the block; so when all are marked as done in their order, the block is
  -- available as one range. The conditions are that neither the block nor a chunk's size is zero.
  pub todo-IsSeparate :
      1 ≤ size
      → IsSeparate (todo size step)
        × ((u : ℕ) → covers u (todo size step) ≡ ltb u size)
        × (mark_all (todo size step) [] ≡ (0, size) ∷ [])
  unfolding todo
  todo-IsSeparate full =
      (tiled.0, covered, mark_all_complete size (todo size step) full tiled.0 covered)
    where
      count : ℕ
      count = (size - 0 + step - 1) / step

      tiled :
          IsSeparate (chunks_from size step 0 count)
          × ((u : ℕ) → covers u (chunks_from size step 0 count) ≡ (leb 0 u && ltb u size))
      tiled = chunks_from-IsSeparate 0 count (count-Reaches count 0 refl)

      covered : (u : ℕ) → covers u (chunks_from size step 0 count) ≡ ltb u size
      covered u = tiled.1 u ∙ ground arith
