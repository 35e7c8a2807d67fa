-- ===== src/Files/Places.antt =====
-- The places of the bytes that batches hold.
use bndl.Prelude.{
  ℕ, zero, suc, ◌+◌, ◌≡◌, refl, sym, ap, ◌∙◌, Bool, true, false, List, [], ◌∷◌, ◌++◌, append_assoc,
  append-nil, arith, if◌then◌else◌,
}
use bndl.Files.{Chunk, Batching, new_batch, append_chunk}
use bndl.Dataset.Parts.{concat, concat-append}

-- The places of a file from an offset on.
abbrev pub positions : ℕ → ℕ → ℕ → List (ℕ × ℕ)
positions file offset zero = []
positions file offset (suc n) = (file, offset) ∷ positions file (suc offset) n

abbrev pub places : List Chunk → List (ℕ × ℕ)
places [] = []
places (c ∷ cs) = positions c.file c.offset c.length ++ places cs

-- The places of all files, in their order.
abbrev pub all_places : List (ℕ × ℕ) → List (ℕ × ℕ)
all_places [] = []
all_places ((file, size) ∷ filesizes) = positions file 0 size ++ all_places filesizes

pub places-append : (cs ds : List Chunk) → places (cs ++ ds) ≡ places cs ++ places ds
places-append [] ds = refl
places-append (c ∷ cs) ds =
    ap (λ l. positions c.file c.offset c.length ++ l) (places-append cs ds)
    ∙ sym (append_assoc (positions c.file c.offset c.length) (places cs) (places ds))

pub positions-split :
    (file offset m n : ℕ)
    → positions file offset (m + n) ≡ positions file offset m ++ positions file (offset + m) n
positions-split file offset zero n =
    ap (positions file offset) left ∙ ap (λ o. positions file o n) right
  where
    left : 0 + n ≡ n
    left = omega arith

    right : offset ≡ offset + 0
    right = omega arith
positions-split file offset (suc m) n =
    ap (positions file offset) left
    ∙ ap (λ l. (file, offset) ∷ l)
        (positions-split file (suc offset) m n
          ∙ ap (λ o. positions file (suc offset) m ++ positions file o n) right)
  where
    left : suc m + n ≡ suc (m + n)
    left = omega arith

    right : suc offset + m ≡ offset + suc m
    right = omega arith

-- The places in all batches.
abbrev pub held : Batching → List (ℕ × ℕ)
held b = places (concat b.batches) ++ places b.batch

pub held-new_batch : (b : Batching) → held (new_batch b) ≡ held b
held-new_batch b =
    append-nil (places (concat (b.batches ++ b.batch ∷ [])))
    ∙ ap places (
        concat-append b.batches (b.batch ∷ [])
        ∙ ap (λ l. concat b.batches ++ l) (append-nil b.batch))
    ∙ places-append (concat b.batches) b.batch

pub held-append_chunk :
    (file offset len : ℕ) (b : Batching)
    → held (append_chunk file offset len b) ≡ held b ++ positions file offset len
held-append_chunk file offset len b =
    ap (λ l. places (concat b.batches) ++ l)
      (places-append b.batch (record { file = file; offset = offset; length = len } ∷ [])
        ∙ ap (λ l. places b.batch ++ l) (append-nil (positions file offset len)))
    ∙ sym (append_assoc (places (concat b.batches)) (places b.batch) (positions file offset len))

pub held-if : (t : Bool) (b : Batching) → held (if t then new_batch b else b) ≡ held b
held-if true b = held-new_batch b
held-if false b = refl
