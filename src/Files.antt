-- ===== src/Files.antt =====
-- `_batch_files` of bndl/compute/files.py, with a maximum size of batches: files are put in batches, whole or split.
-- Files are numbers. What `mmap.rfind` and `mmap.find` return for a separator is a parameter.
use bndl.Prelude.{
  ℕ, zero, suc, ◌+◌, ◌-◌, ◌*◌, ◌/◌, Bool, true, false, not, ◌&&◌, ◌==◌, ltb, leb, Option, none,
  some, List, [], ◌∷◌, ◌++◌, length, take, drop, if◌then◌else◌,
}
pub mod Places
pub mod Cover
pub mod MinCount

-- (filename, (offset, length))
pub record Chunk : Type 0 where
  pub file : ℕ
  pub offset : ℕ
  pub length : ℕ

-- `batches` without the last, which is `batch`; `space` is `psize_bytes` less `used`, and may be negative.
pub record Batching : Type 0 where
  pub batches : List (List Chunk)
  pub batch : List Chunk
  pub used : ℕ

abbrev pub is_nonempty : List Chunk → Bool
is_nonempty [] = false
is_nonempty (c ∷ cs) = true

abbrev pub new_batch : Batching → Batching
new_batch b = record { batches = b.batches ++ b.batch ∷ []; batch = []; used = 0 }

abbrev pub append_chunk : ℕ → ℕ → ℕ → Batching → Batching
append_chunk file offset len b = record b {
  batch = b.batch ++ record { file = file; offset = offset; length = len } ∷ [];
  used = b.used + len;
}

-- `split`, with the length of the separator
pub data Split : Type 0 where
  whole anywhere : Split
  at_sep : ℕ → Split

-- `mm.rfind(sep, offset, end)` and `mm.find(sep, offset)` in a file; `none` for -1
pub record Search : Type 0 where
  pub rfind : ℕ → ℕ → ℕ → Option ℕ
  pub find : ℕ → ℕ → Option ℕ

-- `psize_files` is 0 for `None`.
module _ (psize_bytes psize_files : ℕ) (search : Search) where
  -- `split = filesize` where there is no separator any more
  abbrev pub end_of : ℕ → ℕ → Option ℕ → ℕ
  end_of sep_len size none = size
  end_of sep_len size (some p) = p + sep_len

  abbrev pub place : ℕ → ℕ → ℕ → ℕ → Batching → Batching
  place sep_len file offset split b =
      let b' = append_chunk file offset (split - offset) b in
      if ltb psize_bytes (b'.used + sep_len) then new_batch b' else b'

  -- One round of `while offset < filesize`: the next offset.
  abbrev pub round : ℕ → ℕ → ℕ → ℕ → Option ℕ → Batching → ℕ × Batching
  round sep_len file size offset (some p) b =
      (p + sep_len, place sep_len file offset (p + sep_len) b)
  round sep_len file size offset none b =
      let split = end_of sep_len size (search.find file offset) in
      if is_nonempty b.batch
      then (offset, new_batch b)
      else (split, place sep_len file offset split b)

  unfoldable pub split_at_sep : ℕ → ℕ → ℕ → ℕ → ℕ → Batching → Batching
  split_at_sep zero sep_len file size offset b = b
  split_at_sep (suc n) sep_len file size offset b =
      let found = search.rfind file offset (offset + psize_bytes - b.used) in
      let (offset', b') = round sep_len file size offset found b in
      let rest = split_at_sep n sep_len file size offset' b' in if ltb offset size then rest else b

  -- `while True`, over what remains of the file
  unfoldable pub split_anywhere : ℕ → ℕ → ℕ → ℕ → Batching → Batching
  split_anywhere zero file offset remaining b = b
  split_anywhere (suc n) file offset remaining b =
      let space = psize_bytes - b.used in
      let rest =
        split_anywhere n file (offset + space) (remaining - space)
          (new_batch (append_chunk file offset (offset + space) b)) in
      if remaining == 0
      then b
      else if ltb remaining space
      then append_chunk file offset remaining b
      else rest

  abbrev pub split_file : Split → ℕ → ℕ → Batching → Batching
  split_file whole file size b =
      append_chunk file 0 size (if is_nonempty b.batch then new_batch b else b)
  split_file anywhere file size b =
      split_anywhere (suc size) file 0 size (if b.used == psize_bytes then new_batch b else b)
  split_file (at_sep sep_len) file size b =
      split_at_sep (2 * size + 2) sep_len file size 0
        (if b.used == psize_bytes then new_batch b else b)

  -- The body of `for filename, filesize in filesizes`
  unfoldable pub add_file : Split → ℕ → ℕ → Batching → Batching
  unfolding split_at_sep split_anywhere
  add_file split file size b =
      let b' =
        if not (psize_files == 0) && leb psize_files (length b.batch) then new_batch b else b in
      if ltb psize_bytes (b'.used + size)
      then split_file split file size b'
      else append_chunk file 0 size b'

  abbrev pub add_files : Split → List (ℕ × ℕ) → Batching → Batching
  add_files split [] b = b
  add_files split ((file, size) ∷ filesizes) b =
      add_files split filesizes (add_file split file size b)

  -- `_batch_files`, with `psize_bytes` above 0
  unfoldable pub batch_files : Split → List (ℕ × ℕ) → List (List Chunk)
  unfolding add_file
  batch_files split filesizes =
      let b = add_files split filesizes (record { batches = []; batch = []; used = 0 }) in
      b.batches ++ b.batch ∷ []
