-- ===== src/Files/Cover.antt =====
-- The batches hold every byte of the files once.
use bndl.Prelude.{
  ℕ, zero, suc, ◌+◌, ◌-◌, ◌*◌, ◌≤◌, ◌<◌, ◌≡◌, refl, sym, ap, ◌∙◌, Bool, true, false, not, ◌&&◌,
  ◌==◌, ltb, leb, Option, none, some, List, [], ◌∷◌, ◌++◌, append_assoc, append-nil, length, arith,
  if◌then◌else◌, Bool-cases, ◌⊎◌, inl, inr,
}
use bndl.Files.{
  Batching, is_nonempty, new_batch, append_chunk, Split, whole, at_sep, Search, end_of, place,
  round, split_at_sep, split_file, add_file, add_files, batch_files,
}
use bndl.Dataset.Parts.{concat, concat-append}
use bndl.Files.Places.{
  positions, places, all_places, held, places-append, positions-split, held-new_batch,
  held-append_chunk, held-if,
}

-- What the search of a separator returns is in the part of the file that is searched.
pub record IsSearch (search : Search) (sep_len : ℕ) (size_of : ℕ → ℕ) : Type 0 where
  pub rfind_within :
      (file offset end p : ℕ)
      → search.rfind file offset end ≡ some p
      → (offset ≤ p) × (p + sep_len ≤ size_of file)
  pub find_within :
      (file offset p : ℕ)
      → search.find file offset ≡ some p
      → (offset ≤ p) × (p + sep_len ≤ size_of file)

module _ (psize_bytes psize_files sep_len : ℕ) (search : Search) (size_of : ℕ → ℕ) where
  held-place :
      (file offset split : ℕ) (b : Batching)
      → held (place psize_bytes psize_files search sep_len file offset split b)
        ≡ held b ++ positions file offset (split - offset)
  held-place file offset split b =
      held-if (ltb psize_bytes (b.used + (split - offset) + sep_len))
        (append_chunk file offset (split - offset) b)
      ∙ held-append_chunk file offset (split - offset) b

  -- After a round the next offset lies further on, or a new batch has been begun.
  record Advances (file offset : ℕ) (b : Batching) (r : ℕ × Batching) : Type 0 where
    within : r.0 ≤ size_of file
    onward : offset ≤ r.0
    added : held r.1 ≡ held b ++ positions file offset (r.0 - offset)
    nearer : (offset < r.0) ⊎ ((is_nonempty b.batch ≡ true) × (is_nonempty r.1.batch ≡ false))

  placed :
      (file offset split : ℕ) (b : Batching)
      → split ≤ size_of file
      → offset < split
      → Advances file offset b
          (split, place psize_bytes psize_files search sep_len file offset split b)
  placed file offset split b w h = record {
    within = w;
    onward = omega (arith, h);
    added = held-place file offset split b;
    nearer = inl h;
  }

  end_of-within :
      (file offset : ℕ) (o : Option ℕ)
      → 1 ≤ sep_len
      → IsSearch search sep_len size_of
      → search.find file offset ≡ o
      → offset < size_of file
      → (end_of psize_bytes psize_files search sep_len (size_of file) o ≤ size_of file)
        × (offset < end_of psize_bytes psize_files search sep_len (size_of file) o)
  end_of-within file offset none l s e h = (omega arith, h)
  end_of-within file offset (some p) l s e h =
      let (a, c) = s.find_within file offset p e in (c, omega (arith, a, l))

  round-Advances :
      (file offset end : ℕ) (o : Option ℕ) (b : Batching)
      → 1 ≤ sep_len
      → IsSearch search sep_len size_of
      → search.rfind file offset end ≡ o
      → offset < size_of file
      → Advances file offset b
          (round psize_bytes psize_files search sep_len file (size_of file) offset o b)
  round-Advances file offset end (some p) b l s e h =
      let (a, c) = s.rfind_within file offset end p e in
      placed file offset (p + sep_len) b c (omega (arith, a, l))
  round-Advances file offset end none b l s e h =
      let (w, o) = end_of-within file offset (search.find file offset) l s refl h in
      turned (is_nonempty b.batch) refl (
        placed file offset
          (end_of psize_bytes psize_files search sep_len (size_of file) (search.find file offset)) b
          w o)
    where
      turned :
          (t : Bool)
          → is_nonempty b.batch ≡ t
          → {r : ℕ × Batching} → Advances file offset b r
          → Advances file offset b (if t then (offset, new_batch b) else r)
      turned true e a = record {
        within = omega (arith, h);
        onward = omega arith;
        added =
            held-new_batch b
            ∙ sym (append-nil (held b))
            ∙ ap (λ k. held b ++ positions file offset k) nothing;
        nearer = inr (e, refl);
      }
        where
          nothing : 0 ≡ offset - offset
          nothing = omega arith
      turned false e a = a

  abbrev flag : Bool → ℕ
  flag true = 1
  flag false = 0

  flag-bound : (t : Bool) → flag t ≤ 1
  flag-bound true = omega arith
  flag-bound false = omega arith

  positions-between :
      (file offset split size : ℕ)
      → offset ≤ split
      → split ≤ size
      → positions file offset (split - offset) ++ positions file split (size - split)
        ≡ positions file offset (size - offset)
  positions-between file offset split size h k =
      ap (λ o. positions file offset (split - offset) ++ positions file o (size - split)) there
      ∙ sym (positions-split file offset (split - offset) (size - split))
      ∙ ap (positions file offset) all
    where
      there : split ≡ offset + (split - offset)
      there = omega (arith, h)

      all : split - offset + (size - split) ≡ size - offset
      all = omega (arith, h, k)

  split_at_sep-held :
      (n file offset : ℕ) (b : Batching)
      → 1 ≤ sep_len
      → IsSearch search sep_len size_of
      → offset ≤ size_of file
      → 2 * (size_of file - offset) + flag (is_nonempty b.batch) < n
      → held (split_at_sep psize_bytes psize_files search n sep_len file (size_of file) offset b)
        ≡ held b ++ positions file offset (size_of file - offset)
  unfolding split_at_sep
  split_at_sep-held zero file offset b l s h m = ground (arith, m)
  split_at_sep-held (suc n) file offset b l s h m = elim (Bool-cases (ltb offset (size_of file))) [
    | inl more ↦
        let end = offset + psize_bytes - b.used in
        let r =
          round psize_bytes psize_files search sep_len file (size_of file) offset
            (search.rfind file offset end) b in
        let a =
          round-Advances file offset end (search.rfind file offset end) b l s refl
            (ground (arith, more)) in
        rw more (
          split_at_sep-held n file r.0 r.1 l s a.within (less r a m)
          ∙ ap (λ l. l ++ positions file r.0 (size_of file - r.0)) a.added
          ∙ append_assoc (held b) (positions file offset (r.0 - offset))
              (positions file r.0 (size_of file - r.0))
          ∙ ap (λ l. held b ++ l)
              (positions-between file offset r.0 (size_of file) a.onward a.within))
    | inr done ↦
        rw done
          (sym (append-nil (held b)) ∙ ap (λ k. held b ++ positions file offset k) (nothing done))
  ]
    where
      nothing : ltb offset (size_of file) ≡ false → 0 ≡ size_of file - offset
      nothing done = ground (arith, done)

      less :
          (r : ℕ × Batching)
          → Advances file offset b r
          → 2 * (size_of file - offset) + flag (is_nonempty b.batch) < suc n
          → 2 * (size_of file - r.0) + flag (is_nonempty r.1.batch) < n
      less r a m = elim a.nearer [
        | inl on ↦ omega (arith, on, m, a.within, flag-bound (is_nonempty r.1.batch))
        | inr (x, y) ↦ omega (arith, m, a.onward, ap flag x, ap flag y)
      ]

  -- The two ways of splitting that give chunks by their lengths.
  abbrev pub sep_or_whole : Bool → Split
  sep_or_whole true = at_sep sep_len
  sep_or_whole false = whole

  split_file-held :
      (by_sep : Bool) (file : ℕ) (b : Batching)
      → 1 ≤ sep_len
      → IsSearch search sep_len size_of
      → held (split_file psize_bytes psize_files search (sep_or_whole by_sep) file (size_of file) b)
        ≡ held b ++ positions file 0 (size_of file)
  split_file-held true file b l s =
      let b' = if b.used == psize_bytes then new_batch b else b in
      split_at_sep-held (2 * size_of file + 2) file 0 b' l s (omega arith)
        (omega (arith, flag-bound (is_nonempty b'.batch)))
      ∙ ap (λ l. l ++ positions file 0 (size_of file - 0)) (held-if (b.used == psize_bytes) b)
      ∙ ap (λ k. held b ++ positions file 0 k) all
    where
      all : size_of file - 0 ≡ size_of file
      all = omega arith
  split_file-held false file b l s =
      held-append_chunk file 0 (size_of file) (if is_nonempty b.batch then new_batch b else b)
      ∙ ap (λ l. l ++ positions file 0 (size_of file)) (held-if (is_nonempty b.batch) b)

  add_file-held :
      (by_sep : Bool) (file : ℕ) (b : Batching)
      → 1 ≤ sep_len
      → IsSearch search sep_len size_of
      → held (add_file psize_bytes psize_files search (sep_or_whole by_sep) file (size_of file) b)
        ≡ held b ++ positions file 0 (size_of file)
  unfolding add_file
  add_file-held by_sep file b l s =
      let t = not (psize_files == 0) && leb psize_files (length b.batch) in
      let b' = if t then new_batch b else b in
      let large = ltb psize_bytes (b'.used + size_of file) in
      elim (Bool-cases large) [
        | inl h ↦ rw h (
            split_file-held by_sep file b' l s
            ∙ ap (λ l. l ++ positions file 0 (size_of file)) (held-if t b))
        | inr h ↦ rw h (
            held-append_chunk file 0 (size_of file) b'
            ∙ ap (λ l. l ++ positions file 0 (size_of file)) (held-if t b))
      ]

  -- Files with their sizes, as `_filesizes` gives them.
  abbrev pub sized : List ℕ → List (ℕ × ℕ)
  sized [] = []
  sized (file ∷ files) = (file, size_of file) ∷ sized files

  add_files-held :
      (by_sep : Bool) (files : List ℕ) (b : Batching)
      → 1 ≤ sep_len
      → IsSearch search sep_len size_of
      → held (add_files psize_bytes psize_files search (sep_or_whole by_sep) (sized files) b)
        ≡ held b ++ all_places (sized files)
  add_files-held by_sep [] b l s = sym (append-nil (held b))
  add_files-held by_sep (file ∷ files) b l s =
      let b' =
        add_file psize_bytes psize_files search (sep_or_whole by_sep) file (size_of file) b in
      add_files-held by_sep files b' l s
      ∙ ap (λ l. l ++ all_places (sized files)) (add_file-held by_sep file b l s)
      ∙ append_assoc (held b) (positions file 0 (size_of file)) (all_places (sized files))

  -- The batches hold each byte of each file exactly once, in the order of the files and their offsets, when files are split at a separator as
  -- when they are kept whole; if the separator is not empty and is searched for within the files. The loop over a
  -- file that is split ends.
  pub batch_files-places :
      (by_sep : Bool) (files : List ℕ)
      → 1 ≤ sep_len
      → IsSearch search sep_len size_of
      → places
          (concat (batch_files psize_bytes psize_files search (sep_or_whole by_sep) (sized files)))
        ≡ all_places (sized files)
  unfolding batch_files
  batch_files-places by_sep files l s =
      let b =
        add_files psize_bytes psize_files search (sep_or_whole by_sep) (sized files)
          (record { batches = []; batch = []; used = 0 }) in
      ap places (
        concat-append b.batches (b.batch ∷ [])
        ∙ ap (λ l. concat b.batches ++ l) (append-nil b.batch))
      ∙ places-append (concat b.batches) b.batch
      ∙ add_files-held by_sep files (record { batches = []; batch = []; used = 0 }) l s
