-- ===== src/Files/MinCount.antt =====
-- `_ensure_min_pcount` of bndl/compute/files.py: batches are halved until there are enough.
use mathlib.Core.Path.{subst}
use bndl.Prelude.{
  append-nil, ℕ, zero, suc, ◌+◌, ◌/◌, ◌≤◌, ◌≡◌, refl, sym, ap, ◌∙◌, ◌==◌, ltb, leb, List, [], ◌∷◌,
  ◌++◌, length, take, drop, take-append-drop, length-append, All, arith, if◌then◌else◌, Bool-cases,
  ◌⊎◌, inl, inr,
}

module _ {A : Type 0} (min_pcount : ℕ) where
  -- `for batch in list(batches)`, with what has been appended and how many batches there are: the batches
  -- of the list, halved, and what has been appended then.
  unfoldable pub split_pass : List (List A) → List (List A) → ℕ → List (List A) × List (List A)
  split_pass [] appended count = ([], appended)
  split_pass (batch ∷ batches) appended count =
      let idx = length batch / 2 in
      let more = appended ++ drop idx batch ∷ [] in
      let (halved, all) = split_pass batches more (suc count) in
      let (kept, same) = split_pass batches appended count in
      if ltb 1 (length batch)
      then if leb min_pcount (suc count)
        then (take idx batch ∷ batches, more)
        else (take idx batch ∷ halved, all)
      else (batch ∷ kept, same)

  -- `while len(batches) < min_pcount`, which ends too when nothing was split
  unfoldable pub split_passes : ℕ → List (List A) → List (List A)
  unfolding split_pass
  split_passes zero batches = batches
  split_passes (suc n) batches =
      let (halved, appended) = split_pass batches [] (length batches) in
      let rest = split_passes n (halved ++ appended) in
      if ltb (length batches) min_pcount
      then if length appended == 0 then halved ++ appended else rest
      else batches

  -- Each pass but the last adds a batch.
  unfoldable pub ensure_min_pcount : List (List A) → List (List A)
  unfolding split_passes
  ensure_min_pcount batches = split_passes min_pcount batches

module _ {A : Type 0} (weight : A → ℕ) where
  -- The sum of a weight of the items.
  abbrev pub sum_of : List A → ℕ
  sum_of [] = 0
  sum_of (x ∷ xs) = weight x + sum_of xs

  abbrev pub total_of : List (List A) → ℕ
  total_of [] = 0
  total_of (xs ∷ xss) = sum_of xs + total_of xss

  sum_of-append : (xs ys : List A) → sum_of (xs ++ ys) ≡ sum_of xs + sum_of ys
  sum_of-append [] ys = omega arith
  sum_of-append (x ∷ xs) ys = omega (arith, sum_of-append xs ys)

  total_of-append : (xss yss : List (List A)) → total_of (xss ++ yss) ≡ total_of xss + total_of yss
  total_of-append [] yss = omega arith
  total_of-append (xs ∷ xss) yss = omega (arith, total_of-append xss yss)

  halves : (n : ℕ) (xs : List A) → sum_of (take n xs) + sum_of (drop n xs) ≡ sum_of xs
  halves n xs = sym (sum_of-append (take n xs) (drop n xs)) ∙ ap sum_of (take-append-drop n xs)

  -- A batch that cannot be split.
  pub IsSingle : List A → Type 0
  IsSingle batch = length batch ≤ 1

  record Splits (batches appended : List (List A)) (r : List (List A) × List (List A))
      : Type 0 where
    same_total : total_of r.0 + total_of r.1 ≡ total_of batches + total_of appended
    same_length : length r.0 ≡ length batches
    grows : length appended ≤ length r.1
    unsplit : length r.1 ≡ length appended → All IsSingle r.0

  -- The last of what is appended weighs what is cut off.
  total_of-more :
      (xss : List (List A)) (ys : List A) → total_of (xss ++ ys ∷ []) ≡ total_of xss + sum_of ys
  total_of-more xss ys = total_of-append xss (ys ∷ []) ∙ ap (λ k. total_of xss + k) nothing_more
    where
      nothing_more : sum_of ys + 0 ≡ sum_of ys
      nothing_more = omega arith

  split_here :
      (n : ℕ) (batch : List A) (batches appended : List (List A))
      (r : List (List A) × List (List A))
      → Splits batches (appended ++ drop n batch ∷ []) r
      → Splits (batch ∷ batches) appended (take n batch ∷ r.0, r.1)
  split_here n batch batches appended r h =
      let more = length-append appended (drop n batch ∷ []) in
      record {
        same_total =
            omega (arith, h.same_total, halves n batch, total_of-more appended (drop n batch));
        same_length = ap suc h.same_length;
        grows = omega (arith, h.grows, more);
        unsplit = λ e. ground (arith, e, h.grows, more);
      }

  unsplit_here :
      (batch : List A) (batches appended : List (List A)) (r : List (List A) × List (List A))
      → length batch ≤ 1
      → Splits batches appended r
      → Splits (batch ∷ batches) appended (batch ∷ r.0, r.1)
  unfolding IsSingle
  unsplit_here batch batches appended r l h = record {
    same_total = omega (arith, h.same_total);
    same_length = ap suc h.same_length;
    grows = h.grows;
    unsplit = λ e. (l, h.unsplit e);
  }

  -- The pass ends after a split.
  stop_here :
      (batches appended : List (List A)) (batch : List A) (n : ℕ)
      → Splits (batch ∷ batches) appended (take n batch ∷ batches, appended ++ drop n batch ∷ [])
  stop_here batches appended batch n =
      let more = length-append appended (drop n batch ∷ []) in
      record {
        same_total = omega (arith, halves n batch, total_of-more appended (drop n batch));
        same_length = refl;
        grows = omega (arith, more);
        unsplit = λ e. ground (arith, e, more);
      }

  module _ (min_pcount : ℕ) where
    split_pass-Splits :
        (batches appended : List (List A)) (count : ℕ)
        → Splits batches appended (split_pass min_pcount batches appended count)
    unfolding split_pass IsSingle
    split_pass-Splits [] appended count = record {
      same_total = refl;
      same_length = refl;
      grows = omega arith;
      unsplit = λ h. tt;
    }
    split_pass-Splits (batch ∷ batches) appended count =
        let idx = length batch / 2 in
        let more = appended ++ drop idx batch ∷ [] in
        elim (Bool-cases (ltb 1 (length batch))) [
          | inl h ↦ elim (Bool-cases (leb min_pcount (suc count))) [
            | inl k ↦ rw (h, k) (stop_here batches appended batch idx)
            | inr k ↦
                rw (h, k)
                  (split_here idx batch batches appended
                    (split_pass min_pcount batches more (suc count))
                    (split_pass-Splits batches more (suc count)))
          ]
          | inr h ↦ rw h (
              unsplit_here batch batches appended (split_pass min_pcount batches appended count)
                (ground (arith, h)) (split_pass-Splits batches appended count))
        ]

    same_after :
        (xss yss : List (List A)) → length yss ≡ 0 → All IsSingle xss → All IsSingle (xss ++ yss)
    same_after xss [] e h = subst (All IsSingle) (sym (append-nil xss)) h
    same_after xss (ys ∷ yss) e h = ground (arith, e)

    passes :
        (n : ℕ) (batches : List (List A))
        → min_pcount ≤ n + length batches
        → (total_of (split_passes min_pcount n batches) ≡ total_of batches)
          × ((min_pcount ≤ length (split_passes min_pcount n batches))
              ⊎ All IsSingle (split_passes min_pcount n batches))
    unfolding split_passes
    passes zero batches h = (refl, inl (omega (arith, h)))
    passes (suc n) batches h =
        let r = split_pass min_pcount batches [] (length batches) in
        let s = split_pass-Splits batches [] (length batches) in
        let sum = total_of-append r.0 r.1 in
        let len = length-append r.0 r.1 in
        elim (Bool-cases (ltb (length batches) min_pcount)) [
          | inl few ↦ elim (Bool-cases (length r.1 == 0)) [
            | inl none ↦
                rw (few, none)
                  (
                    omega (arith, sum, s.same_total),
                    inr (
                        same_after r.0 r.1 (ground (arith, none))
                          (s.unsplit (ground (arith, none)))),
                  )
            | inr some ↦
                let (total, enough) =
                  passes n (r.0 ++ r.1) (ground (arith, h, len, some, s.same_length)) in
                rw (few, some) (omega (arith, total, sum, s.same_total), enough)
          ]
          | inr many ↦ rw many (refl, inl (ground (arith, many)))
        ]

    -- Afterwards there are as many batches as asked for, or no batch can be split any more; and however the files are weighed, by
    -- number or by size, the batches weigh together what they did before, so that no file is lost or doubled.
    pub ensure_min_pcount-total_of :
        (batches : List (List A))
        → (total_of (ensure_min_pcount min_pcount batches) ≡ total_of batches)
          × ((min_pcount ≤ length (ensure_min_pcount min_pcount batches))
              ⊎ All IsSingle (ensure_min_pcount min_pcount batches))
    unfolding ensure_min_pcount
    ensure_min_pcount-total_of batches = passes min_pcount batches (omega arith)
