-- ===== src/Blocks.antt =====
-- The download of a block in chunks, in bndl/compute/blocks.py: `mark_done`, which keeps the ranges
-- of the block that are available; the list of chunks is in `Todo`.
use bndl.Prelude.{
  ℕ, zero, suc, ◌+◌, ◌-◌, ◌*◌, ◌/◌, Bool, true, false, ◌&&◌, ◌||◌, List, [], ◌∷◌, ◌++◌, length, ltb,
  ◌==◌, max, min, if◌then◌else◌,
}
pub mod Splice
pub mod Available
pub mod Complete
pub mod Todo

-- (start, end)
abbrev pub Chunk : Type 0
Chunk = ℕ × ℕ

-- The order of Python's tuples.
abbrev pub chunk_lt : Chunk → Chunk → Bool
chunk_lt (a, b) (c, d) = ltb a c || (a == c && ltb b d)

-- `bisect_left` on a sorted list: how many elements stand before the chunk.
unfoldable pub bisect_left : List Chunk → Chunk → ℕ
bisect_left [] chunk = 0
bisect_left (d ∷ ds) chunk =
    let rest = bisect_left ds chunk in if chunk_lt d chunk then suc rest else 0

-- `done[i]`, for an index in range.
abbrev pub item : List Chunk → ℕ → Chunk
item [] i = (0, 0)
item (d ∷ ds) zero = d
item (d ∷ ds) (suc i) = item ds i

-- `done[i] = chunk`
abbrev pub set_at : ℕ → Chunk → List Chunk → List Chunk
set_at i chunk [] = []
set_at zero chunk (d ∷ ds) = chunk ∷ ds
set_at (suc i) chunk (d ∷ ds) = d ∷ set_at i chunk ds

-- `del done[i]`
abbrev pub delete_at : ℕ → List Chunk → List Chunk
delete_at i [] = []
delete_at zero (d ∷ ds) = ds
delete_at (suc i) (d ∷ ds) = d ∷ delete_at i ds

-- `done.insert(i, chunk)`
abbrev pub insert_at : ℕ → Chunk → List Chunk → List Chunk
insert_at i chunk [] = chunk ∷ []
insert_at zero chunk (d ∷ ds) = chunk ∷ d ∷ ds
insert_at (suc i) chunk (d ∷ ds) = d ∷ insert_at i chunk ds

-- What the index `idx - 1` names: -1 is the last element.
abbrev pub previous : ℕ → List Chunk → ℕ
previous zero done = length done - 1
previous (suc i) done = i

abbrev pub mark_at : ℕ → Chunk → List Chunk → List Chunk
mark_at idx chunk done =
    let before = item done (previous idx done) in
    let match_before = chunk.0 == before.1 in
    let match_after = ltb idx (length done) && chunk.1 == (item done idx).0 in
    if match_before && match_after
    then delete_at idx (set_at (previous idx done) (before.0, (item done idx).1) done)
    else (if match_before
        then set_at (previous idx done) (before.0, chunk.1) done
        else (if match_after
            then set_at idx (chunk.0, (item done idx).1) done
            else insert_at idx chunk done))

unfoldable pub mark_done : Chunk → List Chunk → List Chunk
unfolding bisect_left
mark_done chunk [] = chunk ∷ []
mark_done chunk (d ∷ ds) = mark_at (bisect_left (d ∷ ds) chunk) chunk (d ∷ ds)
