-- ===== src/Storage/RoundTrip.antt =====
-- What is written as frames is read again, in memory and on disk alike.
use bndl.Prelude.{
  ℕ, zero, suc, ◌+◌, ◌≤◌, ◌<◌, ◌≡◌, ◌≢◌, refl, ap, ◌∙◌, Bool, true, false, not, inl, inr, List, [],
  ◌∷◌, ◌++◌, ltb, length, length-append, length-drop, take, drop, slice-add, drop-drop, take-append,
  drop-append, All, arith, append_assoc, append-nil, ◌==◌, if◌then◌else◌, Bool-cases,
}
use bndl.Prelude.Exec.{Result, ok, err, ◌>>=◌, for_each}
use bndl.Prelude.Sets.{is_empty}
use bndl.Bytes.{
  IoError, out_of_fuel, capacity, to_bytes, unpack, pack-ok, unpack-to_bytes, length-to_bytes,
}
use bndl.Storage.Framing.{
  prepend, binary_dumps, load_from, load_chunk, binary_loads, write_chunk, write_all, read_frames,
  read_frame, read_all, length_field_size,
}

taken_empty : (xs : List ℕ) → is_empty (take length_field_size xs) ≡ is_empty xs
taken_empty [] = refl
taken_empty (x ∷ xs) = refl

more-is_empty : (pos : ℕ) (xs : List ℕ) → ltb pos (length xs) ≡ not (is_empty (drop pos xs))
more-is_empty zero [] = ground arith
more-is_empty zero (x ∷ xs) = ground arith
more-is_empty (suc pos) [] = ground arith
more-is_empty (suc pos) (x ∷ xs) = ground (arith, more-is_empty pos xs)

if-not {ℓ} : {A : Type ℓ} (b : Bool) (x y : A) → (if not b then x else y) ≡ (if b then y else x)
if-not true x y = refl
if-not false x y = refl

load_chunk-read_frame :
    (fuel : ℕ) (bytes : List ℕ) (pos : ℕ) (r : Result IoError ℕ)
    → ((p : ℕ) → load_from fuel bytes p ≡ read_frames fuel (drop p bytes))
    → load_chunk (load_from fuel bytes) bytes pos r
      ≡ read_frame (read_frames fuel) (drop pos bytes) r
load_chunk-read_frame fuel bytes pos (err e) ih = refl
load_chunk-read_frame fuel bytes pos (ok chunk_len) ih =
    rw (slice-add pos chunk_len bytes, ih (pos + chunk_len), drop-drop pos chunk_len bytes) refl

load_from-read_frames :
    (fuel : ℕ) (bytes : List ℕ) (pos : ℕ)
    → load_from fuel bytes pos ≡ read_frames fuel (drop pos bytes)
unfolding load_from read_frames
load_from-read_frames zero bytes pos = refl
load_from-read_frames (suc fuel) bytes pos =
    rw
      (
        more-is_empty pos bytes,
        taken_empty (drop pos bytes),
        slice-add pos length_field_size bytes,
        load_chunk-read_frame fuel bytes (pos + length_field_size)
            (unpack length_field_size (take length_field_size (drop pos bytes)))
            (load_from-read_frames fuel bytes),
        drop-drop pos length_field_size bytes,
      )
      (if-not (is_empty (drop pos bytes)) _ _)

-- The reader of files and the reader of bytes in memory give the same chunks or the same exception,
-- on any content, be it well framed or not.
pub binary_loads-read_all : (bytes : List ℕ) → binary_loads bytes ≡ read_all bytes
unfolding binary_loads read_all
binary_loads-read_all bytes = load_from-read_frames (suc (length bytes)) bytes 0

-- The chunks behind their lengths, without the test that a length fits.
abbrev framed : List (List ℕ) → List ℕ
framed [] = []
framed (chunk ∷ chunks) = to_bytes length_field_size (length chunk) ++ (chunk ++ framed chunks)

-- The length of a chunk fits in its field.
abbrev pub Fits : List ℕ → Type 0
Fits chunk = length chunk < capacity length_field_size

binary_dumps-framed :
    (chunks : List (List ℕ)) → All Fits chunks → binary_dumps chunks ≡ ok (framed chunks)
unfolding binary_dumps
binary_dumps-framed [] h = refl
binary_dumps-framed (chunk ∷ chunks) h =
    rw (pack-ok length_field_size (length chunk) h.0, binary_dumps-framed chunks h.1) refl

write_chunks :
    (chunks : List (List ℕ)) (file : List ℕ)
    → All Fits chunks
    → for_each write_chunk chunks file ≡ (ok tt, file ++ framed chunks)
unfolding write_chunk for_each ◌>>=◌
write_chunks [] file h = rw (append-nil file) refl
write_chunks (chunk ∷ chunks) file h =
    rw
      (
        pack-ok length_field_size (length chunk) h.0,
        write_chunks chunks (file ++ to_bytes length_field_size (length chunk) ++ chunk) h.1,
      )
      (ap (λ f. (ok tt, f)) regroup)
  where
    field : List ℕ
    field = to_bytes length_field_size (length chunk)

    regroup :
        (file ++ field ++ chunk) ++ framed chunks ≡ file ++ (field ++ (chunk ++ framed chunks))
    regroup =
        append_assoc (file ++ field) chunk (framed chunks)
        ∙ append_assoc file field (chunk ++ framed chunks)

is_empty-append : (xs ys : List ℕ) (n : ℕ) → length xs ≡ suc n → is_empty (xs ++ ys) ≡ false
is_empty-append [] ys n e = ground arith
is_empty-append (x ∷ xs) ys n e = refl

read_framed :
    (fuel : ℕ) (chunks : List (List ℕ))
    → All Fits chunks
    → length chunks < fuel
    → read_frames fuel (framed chunks) ≡ ok chunks
unfolding read_frames
read_framed zero chunks h enough = ground arith
read_framed (suc fuel) [] h enough = refl
read_framed (suc fuel) (chunk ∷ chunks) h enough =
    rw
      (
        taken_empty (framed (chunk ∷ chunks)),
        present,
        header,
        body,
        unpack-to_bytes length_field_size (length chunk) h.0,
        take-append (length chunk) chunk (framed chunks) refl,
        drop-append (length chunk) chunk (framed chunks) refl,
        read_framed fuel chunks h.1 (omega (arith, enough)),
      )
      refl
  where
    field : List ℕ
    field = to_bytes length_field_size (length chunk)

    four : length field ≡ 4
    four = length-to_bytes length_field_size (length chunk)

    present : is_empty (framed (chunk ∷ chunks)) ≡ false
    present = is_empty-append field (chunk ++ framed chunks) 3 four

    header : take length_field_size (framed (chunk ∷ chunks)) ≡ field
    header = take-append length_field_size field (chunk ++ framed chunks) four

    body : drop length_field_size (framed (chunk ∷ chunks)) ≡ chunk ++ framed chunks
    body = drop-append length_field_size field (chunk ++ framed chunks) four

length-framed : (chunks : List (List ℕ)) → length chunks ≤ length (framed chunks)
unfolding to_bytes
length-framed [] = omega arith
length-framed (chunk ∷ chunks) = omega (
  arith,
  length-framed chunks,
  length-append (to_bytes length_field_size (length chunk)) (chunk ++ framed chunks),
  length-append chunk (framed chunks),
  length-to_bytes length_field_size (length chunk),
)

-- Chunks whose lengths fit in the length field are written without an exception, the file that is
-- written holds the bytes that are made in memory, and both readers give the chunks back.
pub binary_loads-binary_dumps :
    (chunks : List (List ℕ)) (old : List ℕ)
    → All Fits chunks
    → (bytes : List ℕ) × (binary_dumps chunks ≡ ok bytes)
      × (write_all chunks old ≡ (ok tt, bytes))
      × (binary_loads bytes ≡ ok chunks)
      × (read_all bytes ≡ ok chunks)
unfolding write_all read_all
binary_loads-binary_dumps chunks old h = (
  framed chunks,
  binary_dumps-framed chunks h,
  write_chunks chunks [] h,
  binary_loads-read_all (framed chunks) ∙ read,
  read,
)
  where
    read : read_all (framed chunks) ≡ ok chunks
    read = read_framed (suc (length (framed chunks))) chunks h (omega (arith, length-framed chunks))

-- The exception of a loop that was cut off.
abbrev Ends : Result IoError (List (List ℕ)) → Type 0
Ends r = r ≢ err out_of_fuel

prepend-Ends :
    (chunk : List ℕ) (r : Result IoError (List (List ℕ))) → Ends r → Ends (prepend chunk r)
prepend-Ends chunk (ok chunks) h = λ e. ground (arith, e)
prepend-Ends chunk (err x) h = λ e. h (cc)

read_frame-Ends :
    (next : List ℕ → Result IoError (List (List ℕ))) (file field : List ℕ)
    → ((n : ℕ) → Ends (next (drop n file)))
    → Ends (read_frame next file (unpack length_field_size field))
unfolding unpack
read_frame-Ends next file field h = elim (Bool-cases (length field == length_field_size)) [
  | inl e ↦ rw e (prepend-Ends _ _ (h _))
  | inr e ↦ rw e (λ x. ground (arith, x))
]

read_frames-Ends : (fuel : ℕ) (file : List ℕ) → length file < fuel → Ends (read_frames fuel file)
unfolding read_frames
read_frames-Ends zero file h = ground arith
read_frames-Ends (suc fuel) [] h = λ x. ground (arith, x)
read_frames-Ends (suc fuel) (x ∷ xs) h =
    read_frame-Ends (read_frames fuel) (drop length_field_size (x ∷ xs))
      (take length_field_size (x ∷ xs))
      (λ n. read_frames-Ends fuel _ (omega (arith, h, length-drop n (drop 3 xs), length-drop 3 xs)))

-- Both loops of reading come to their end, on any content.
pub read_all_terminates :
    (bytes : List ℕ) → (read_all bytes ≢ err out_of_fuel) × (binary_loads bytes ≢ err out_of_fuel)
unfolding read_all
read_all_terminates bytes = (ends, rw (binary_loads-read_all bytes) ends)
  where
    ends : read_all bytes ≢ err out_of_fuel
    ends = read_frames-Ends (suc (length bytes)) bytes (omega arith)
