-- ===== src/Ranges/Tiling.antt =====
-- The partitions of a range data set make up the range.
use bndl.Prelude.Division.{div_mono}
use native.Mathlib.Nat.{add-mul-div_right, div-eq_of_lt, mul-div_right, mul-le-mul_right, add-mul}
use bndl.Prelude.{
  ℕ, zero, suc, ◌+◌, ◌-◌, ◌*◌, ◌/◌, ◌≤◌, ◌≡◌, refl, sym, ap, ◌∙◌, List, ◌++◌, arith, length,
}
use bndl.Ranges.{
  RangeDataset, spaced, range_len, elements, whole, subrange_of, parts_from, parts, collected,
}

zero_add : (n : ℕ) → 0 + n ≡ n
zero_add n = omega arith

add_zero : (n : ℕ) → n + 0 ≡ n
add_zero n = omega arith

add_one : (idx count : ℕ) → idx + suc count ≡ idx + 1 + count
add_one idx count = omega arith

spaced-append :
    (start step m n : ℕ)
    → spaced start step (m + n) ≡ spaced start step m ++ spaced (start + m * step) step n
spaced-append start step zero n = rw (zero_add n, base) refl
  where
    base : start + 0 * step ≡ start
    base = omega arith
spaced-append start step (suc m) n = rw (suc_add, spaced-append (start + step) step m n, shift) refl
  where
    suc_add : suc m + n ≡ suc (m + n)
    suc_add = omega arith

    shift : start + step + m * step ≡ start + suc m * step
    shift = grind arith

range_len_spaced :
    (start step x n : ℕ)
    → 1 ≤ step
    → range_len (record { start = start + x * step; stop = start + (x + n) * step; step = step })
      ≡ n
unfolding range_len
range_len_spaced start step x n pos =
    ap (λ k. k / step) width ∙ add-mul-div_right (step - 1) n (omega (arith, pos)) ∙ rest
  where
    width : start + (x + n) * step - (start + x * step) + step - 1 ≡ step - 1 + n * step
    width = grind (arith, pos)

    rest : (step - 1) / step + n ≡ n
    rest = ap (λ k. k + n) (div-eq_of_lt (omega (arith, pos))) ∙ omega arith

shift_start :
    (start b b' step : ℕ) → b ≤ b' → start + b * step + (b' - b) * step ≡ start + b' * step
shift_start start b b' step h = omega (arith, add-mul b (b' - b) step, ap (λ k. k * step) joined)
  where
    joined : b + (b' - b) ≡ b'
    joined = omega (arith, h)

length-parts_from :
    (d : RangeDataset) (len idx count : ℕ) → length (parts_from d len idx count) ≡ count
unfolding parts_from
length-parts_from d len idx zero = refl
length-parts_from d len idx (suc count) = ap suc (length-parts_from d len (idx + 1) count)

module _ (d : RangeDataset) (pos_step : 1 ≤ d.step) (pos_pcount : 1 ≤ d.pcount) where
  -- Where a partition starts, in elements of a range of `len`.
  abbrev bound : ℕ → ℕ → ℕ
  bound len idx = idx * len / d.pcount

  bound_mono : (len idx n : ℕ) → bound len idx ≤ bound len (idx + n)
  bound_mono len idx n =
      div_mono (idx * len) ((idx + n) * len) d.pcount pos_pcount
        (mul-le-mul_right len (omega arith))

  -- The part of the range between two bounds.
  abbrev between : ℕ → ℕ → ℕ → List ℕ
  between len i j = spaced (d.start + bound len i * d.step) d.step (bound len j - bound len i)

  elements-subrange_of :
      (len idx : ℕ) → elements (subrange_of d len idx) ≡ between len idx (idx + 1)
  unfolding elements
  elements-subrange_of len idx = ap (spaced (d.start + bound len idx * d.step) d.step) (
      ap
        (λ k. range_len (record {
          start = d.start + bound len idx * d.step;
          stop = d.start + k * d.step;
          step = d.step;
        }))
        (omega (arith, bound_mono len idx 1))
      ∙ range_len_spaced d.start d.step (bound len idx) (bound len (idx + 1) - bound len idx)
          pos_step)

  between-append :
      (len i m n : ℕ)
      → between len i (i + m + n) ≡ between len i (i + m) ++ between len (i + m) (i + m + n)
  between-append len i m n =
      ap (spaced (d.start + bound len i * d.step) d.step)
        (omega (arith, bound_mono len i m, bound_mono len (i + m) n))
      ∙ spaced-append (d.start + bound len i * d.step) d.step (bound len (i + m) - bound len i)
          (bound len (i + m + n) - bound len (i + m))
      ∙ ap
          (λ a.
            between len i (i + m) ++ spaced a d.step (bound len (i + m + n) - bound len (i + m)))
          start
    where
      start :
          d.start + bound len i * d.step + (bound len (i + m) - bound len i) * d.step
          ≡ d.start + bound len (i + m) * d.step
      start = shift_start d.start (bound len i) (bound len (i + m)) d.step (bound_mono len i m)

  collected-parts_from :
      (len idx count : ℕ) → collected (parts_from d len idx count) ≡ between len idx (idx + count)
  unfolding collected parts_from
  collected-parts_from len idx zero = sym (
      ap (spaced (d.start + bound len idx * d.step) d.step)
        {x = bound len (idx + 0) - bound len idx} {y = 0}
        (ap (λ k. bound len k - bound len idx) (add_zero idx) ∙ omega arith))
  collected-parts_from len idx (suc count) =
      rw (elements-subrange_of len idx, collected-parts_from len (idx + 1) count)
        (sym (ap (between len idx) (add_one idx count) ∙ between-append len idx 1 count))

  -- The partitions of a range data set, one after the other, hold exactly the elements of the
  -- range in its order, for any positive step and any positive number of partitions, of which
  -- there are as many as asked for.
  pub collected-parts : (collected (parts d) ≡ elements (whole d)) × (length (parts d) ≡ d.pcount)
  unfolding parts elements
  collected-parts = (
    collected-parts_from len 0 d.pcount
        ∙ ap (λ a. spaced a d.step (bound len (0 + d.pcount) - bound len 0)) first
        ∙ ap (spaced d.start d.step) last,
    length-parts_from d len 0 d.pcount,
  )
    where
      len : ℕ
      len = range_len (whole d)

      none_before : bound len 0 ≡ 0
      none_before = div-eq_of_lt {n = 0 * len} {m = d.pcount} (omega (arith, pos_pcount))

      first : d.start + bound len 0 * d.step ≡ d.start
      first = rw none_before (omega arith)

      last : bound len (0 + d.pcount) - bound len 0 ≡ len
      last =
          rw
            (
              none_before,
              zero_add d.pcount,
              mul-div_right len {m = d.pcount} (omega (arith, pos_pcount)),
            )
            (omega arith)
