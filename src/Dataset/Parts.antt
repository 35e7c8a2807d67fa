-- ===== src/Dataset/Parts.antt =====
-- The partitions of united data sets. A partition is what is in it, and its index is its
-- place in the list.
use bndl.Prelude.{
  ℕ, suc, ◌≤◌, ◌≡◌, refl, sym, ap, ◌∙◌, List, [], ◌∷◌, ◌++◌, append_assoc, Bool, true, false, ◌&&◌,
  ltb, ltb→lt, Bool-cases, Option, none, some, ◌⊎◌, inl, inr, if◌then◌else◌, arith,
}

module _ {ℓ} {A : Type ℓ} where
  abbrev pub concat : List (List A) → List A
  concat [] = []
  concat (xs ∷ xss) = xs ++ concat xss

  pub concat-append : (xss yss : List (List A)) → concat (xss ++ yss) ≡ concat xss ++ concat yss
  concat-append [] yss = refl
  concat-append (xs ∷ xss) yss =
      ap (λ l. xs ++ l) (concat-append xss yss) ∙ sym (append_assoc xs (concat xss) (concat yss))

-- Data sets: the partitions of one that is not united, or the sources of a union.
mutual
  pub data Dset (A : Type 0) : Type 0 where
    source : List A → Dset A
    union : Dsets A → Dset A

  pub data Dsets (A : Type 0) : Type 0 where
    none_left : Dsets A
    and_more : Dset A → Dsets A → Dsets A

module _ {A : Type 0} where
  abbrev pub extend : Dsets A → Dsets A → Dsets A
  extend none_left ds = ds
  extend (and_more d ds) es = and_more d (extend ds es)

  -- `extend_or_append`
  abbrev pub extend_or_append : Dset A → Dsets A → Dsets A
  extend_or_append (union sources) rest = extend sources rest
  extend_or_append (source parts) rest = and_more (source parts) rest

  -- `_merge_multisource`
  unfoldable pub merge_multisource : Dsets A → Dsets A
  merge_multisource none_left = none_left
  merge_multisource (and_more d ds) = extend_or_append d (merge_multisource ds)

  abbrev pub count_of : Dsets A → ℕ
  count_of none_left = 0
  count_of (and_more d ds) = suc (count_of ds)

  -- `UnionDataset(...)`; `none` for the `AssertionError` for fewer than two data sets.
  unfoldable pub union_of : Dsets A → Option (Dset A)
  unfolding merge_multisource
  union_of ds = if ltb 1 (count_of ds) then some (union (merge_multisource ds)) else none

  abbrev mutual
    -- `parts`
    pub parts_of : Dset A → List A
    parts_of (source parts) = parts
    parts_of (union sources) = chain_parts sources

    pub chain_parts : Dsets A → List A
    chain_parts none_left = []
    chain_parts (and_more d ds) = parts_of d ++ chain_parts ds

  chain_parts-extend :
      (ds es : Dsets A) → chain_parts (extend ds es) ≡ chain_parts ds ++ chain_parts es
  chain_parts-extend none_left es = refl
  chain_parts-extend (and_more d ds) es =
      ap (λ l. parts_of d ++ l) (chain_parts-extend ds es)
      ∙ sym (append_assoc (parts_of d) (chain_parts ds) (chain_parts es))

  merged :
      (d : Dset A) (rest : Dsets A)
      → chain_parts (extend_or_append d rest) ≡ parts_of d ++ chain_parts rest
  merged (source parts) rest = refl
  merged (union sources) rest = chain_parts-extend sources rest

  chain_parts-merge_multisource :
      (ds : Dsets A) → chain_parts (merge_multisource ds) ≡ chain_parts ds
  unfolding merge_multisource
  chain_parts-merge_multisource none_left = refl
  chain_parts-merge_multisource (and_more d ds) =
      merged d (merge_multisource ds) ∙ ap (λ l. parts_of d ++ l) (chain_parts-merge_multisource ds)

  -- No data set among the sources is a union.
  abbrev pub all_sources : Dsets A → Bool
  all_sources none_left = true
  all_sources (and_more (source parts) ds) = all_sources ds
  all_sources (and_more (union sources) ds) = false

  -- A union is of data sets that are none.
  abbrev pub is_flat : Dset A → Bool
  is_flat (source parts) = true
  is_flat (union sources) = all_sources sources

  abbrev pub all_flat : Dsets A → Bool
  all_flat none_left = true
  all_flat (and_more d ds) = is_flat d && all_flat ds

  all_sources-extend :
      (ds es : Dsets A)
      → all_sources ds ≡ true
      → all_sources es ≡ true
      → all_sources (extend ds es) ≡ true
  all_sources-extend none_left es h k = k
  all_sources-extend (and_more (source parts) ds) es h k = all_sources-extend ds es h k
  all_sources-extend (and_more (union sources) ds) es h k = ground (arith, h)

  all_sources-merge_multisource :
      (ds : Dsets A) → all_flat ds ≡ true → all_sources (merge_multisource ds) ≡ true
  unfolding merge_multisource
  all_sources-merge_multisource none_left h = refl
  all_sources-merge_multisource (and_more (source parts) ds) h = all_sources-merge_multisource ds h
  all_sources-merge_multisource (and_more (union sources) ds) h =
      all_sources-extend sources (merge_multisource ds) (ground (arith, h))
        (all_sources-merge_multisource ds (ground (arith, h)))

  -- A union of at least two data sets has their partitions, in their order, also where these are unions themselves, whose
  -- sources it takes over: it is not of unions, if they are not. For fewer data sets there is an
  -- `AssertionError`.
  pub parts_of-union_of :
      (ds : Dsets A)
      → ((2 ≤ count_of ds)
          × ((d : Dset A) × (union_of ds ≡ some d)
              × (parts_of d ≡ chain_parts ds)
              × (all_flat ds ≡ true → is_flat d ≡ true)))
        ⊎ ((count_of ds ≤ 1) × (union_of ds ≡ none))
  unfolding union_of
  parts_of-union_of ds = elim (Bool-cases (ltb 1 (count_of ds))) [
    | inl h ↦ inl (
      ltb→lt 1 (count_of ds) h,
      (
        union (merge_multisource ds),
        rw h refl,
        chain_parts-merge_multisource ds,
        all_sources-merge_multisource ds,
      ),
    )
    | inr h ↦ inr (ground (arith, h), rw h refl)
  ]
