-- ===== src/Dataset/Coalesced.antt =====
-- `CoalescedDataset`: the partitions of a data set in fewer batches. A partition is what is in it.
use bndl.Prelude.{
  ℕ, zero, suc, ◌+◌, ◌*◌, ◌-◌, ◌/◌, ◌≤◌, ◌&&◌, ltb, leb, Option, none, some, if◌then◌else◌, List,
  [], ◌∷◌, length, drop, slice,
}

-- `if remainder: batches.append(remainder)`
abbrev pub append_remainder : {A : Type 0} → List A → List (List A)
append_remainder [] = []
append_remainder (x ∷ xs) = (x ∷ xs) ∷ []

module _ {A : Type 0} where
  -- The batches `src_parts[int(offset):int(offset + step)]`, as many as the first argument, and the remainder. An
  -- offset, in the code a floating point number, is the exact fraction with `pcount` below; `step` is
  -- `len(src_parts) / pcount`.
  abbrev pub batches_from : ℕ → ℕ → ℕ → List A → List (List A)
  batches_from zero pcount offset parts = append_remainder (drop (offset / pcount) parts)
  batches_from (suc n) pcount offset parts =
      slice (offset / pcount) ((offset + length parts) / pcount) parts
      ∷ batches_from n pcount (offset + length parts) parts

  -- `CoalescedDataset`, its assertions, and `parts`; `none` for an `AssertionError`.
  unfoldable pub coalesced : ℕ → List A → Option (List (List A))
  coalesced pcount parts =
      if leb 1 pcount && ltb pcount (2 * length parts)
      then some (batches_from (pcount - 1) pcount 0 parts)
      else none

module _ {A : Type 0} where
  -- The step in whole partitions, or one more.
  abbrev pub IsStep : ℕ → List A → List A → Type 0
  IsStep pcount parts batch =
      (length parts / pcount ≤ length batch) × (length batch ≤ suc (length parts / pcount))
