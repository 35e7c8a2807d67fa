-- ===== src/Ranges.antt =====
-- `RangeDataset` of bndl/compute/ranges.py, for a start that is not negative and a positive step,
-- with the meaning of Python's `range`.
pub mod Tiling
use bndl.Prelude.{
  ℕ, zero, suc, ◌+◌, ◌-◌, ◌*◌, ◌/◌, ◌≤◌, ◌<◌, ◌≡◌, refl, sym, ap, ◌∙◌, Option, none, some, List, [],
  ◌∷◌, ◌++◌, arith, append-nil, append_assoc,
}

-- `range(start, stop, step)`
pub record Range : Type 0 where
  pub start : ℕ
  pub stop : ℕ
  pub step : ℕ

pub record RangePartition : Type 0 where
  pub idx : ℕ
  pub subrange : Range

pub record RangeDataset : Type 0 where
  pub start : ℕ
  pub stop : ℕ
  pub step : ℕ
  pub pcount : ℕ

-- `count` numbers from `start` on, `step` apart.
abbrev pub spaced : ℕ → ℕ → ℕ → List ℕ
spaced start step zero = []
spaced start step (suc count) = start ∷ spaced (start + step) step count

-- `len` of a range.
unfoldable pub range_len : Range → ℕ
range_len r = (r.stop - r.start + r.step - 1) / r.step

unfoldable pub elements : Range → List ℕ
unfolding range_len
elements r = spaced r.start r.step (range_len r)

-- The constructor: `if not stop` is true of `None` and of zero.
unfoldable pub range_dataset : ℕ → Option ℕ → ℕ → ℕ → RangeDataset
range_dataset start none step pcount = record {
  start = 0;
  stop = start;
  step = step;
  pcount = pcount;
}
range_dataset start (some zero) step pcount = record {
  start = 0;
  stop = start;
  step = step;
  pcount = pcount;
}
range_dataset start (some (suc stop)) step pcount = record {
  start = start;
  stop = suc stop;
  step = step;
  pcount = pcount;
}

abbrev pub whole : RangeDataset → Range
whole d = record { start = d.start; stop = d.stop; step = d.step }

abbrev pub subrange_of : RangeDataset → ℕ → ℕ → Range
subrange_of d len idx = record {
  start = d.start + idx * len / d.pcount * d.step;
  stop = d.start + (idx + 1) * len / d.pcount * d.step;
  step = d.step;
}

-- The comprehension over `range(pcount)`, from `idx` on.
unfoldable pub parts_from : RangeDataset → ℕ → ℕ → ℕ → List RangePartition
parts_from d len idx zero = []
parts_from d len idx (suc count) =
    record { idx = idx; subrange = subrange_of d len idx } ∷ parts_from d len (idx + 1) count

unfoldable pub parts : RangeDataset → List RangePartition
unfolding parts_from range_len
parts d = parts_from d (range_len (whole d)) 0 d.pcount

-- The elements of the data set: those of its partitions, one after the other.
unfoldable pub collected : List RangePartition → List ℕ
unfolding elements
collected [] = []
collected (p ∷ ps) = elements p.subrange ++ collected ps
