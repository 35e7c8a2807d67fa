-- ===== src/Storage/Framing.antt =====
-- The code of bndl/compute/storage.py that writes and reads chunks behind their lengths. Python
-- slices and `read` return what is there where less is left than asked for.
use bndl.Prelude.{
  ℕ, zero, suc, ◌+◌, List, [], ◌∷◌, ◌++◌, ltb, length, take, drop, slice, if◌then◌else◌,
}
use bndl.Prelude.Exec.{Result, ok, err, Exec, for_each}
use bndl.Prelude.Sets.{is_empty}
use bndl.Bytes.{IoError, out_of_fuel, pack, unpack}

-- struct.calcsize('I')
abbrev pub length_field_size : ℕ
length_field_size = 4

-- Puts the next chunk before those that follow, if they come without an exception.
abbrev pub prepend {ℓ} : {A : Type ℓ} → A → Result IoError (List A) → Result IoError (List A)
prepend x (ok xs) = ok (x ∷ xs)
prepend x (err e) = err e

abbrev pub join_frame :
    List ℕ → Result IoError (List ℕ) → Result IoError (List ℕ) → Result IoError (List ℕ)
join_frame chunk (ok field) (ok rest) = ok (field ++ (chunk ++ rest))
join_frame chunk (ok field) (err e) = err e
join_frame chunk (err e) rest = err e

unfoldable pub binary_dumps : List (List ℕ) → Result IoError (List ℕ)
unfolding pack
binary_dumps [] = ok []
binary_dumps (chunk ∷ chunks) =
    join_frame chunk (pack length_field_size (length chunk)) (binary_dumps chunks)

-- The rest of a round, where `next` is the loop at a later position.
abbrev pub load_chunk :
    (ℕ → Result IoError (List (List ℕ)))
    → List ℕ
    → ℕ
    → Result IoError ℕ
    → Result IoError (List (List ℕ))
load_chunk next bytes pos (err e) = err e
load_chunk next bytes pos (ok chunk_len) =
    prepend (slice pos (pos + chunk_len) bytes) (next (pos + chunk_len))

-- `while pos < data_len`, with every chunk collected as `binary_loads` does.
unfoldable pub load_from : ℕ → List ℕ → ℕ → Result IoError (List (List ℕ))
unfolding unpack
load_from zero bytes pos = err out_of_fuel
load_from (suc fuel) bytes pos =
    let loaded =
      load_chunk (load_from fuel bytes) bytes (pos + length_field_size)
        (unpack length_field_size (slice pos (pos + length_field_size) bytes)) in
    if ltb pos (length bytes) then loaded else ok []

unfoldable pub binary_loads : List ℕ → Result IoError (List (List ℕ))
unfolding load_from
binary_loads bytes = load_from (suc (length bytes)) bytes 0

abbrev write_field : List ℕ → Result IoError (List ℕ) → Exec (List ℕ) IoError (Unit {0})
write_field chunk (ok field) file = (ok tt, file ++ field ++ chunk)
write_field chunk (err e) file = (err e, file)

-- `f.writelines((pack(len_fmt, len(chunk)), chunk))`
unfoldable pub write_chunk : List ℕ → Exec (List ℕ) IoError (Unit {0})
unfolding pack
write_chunk chunk = write_field chunk (pack length_field_size (length chunk))

-- The file is opened for writing, which empties it.
unfoldable pub write_all : List (List ℕ) → List ℕ → Result IoError (Unit {0}) × List ℕ
unfolding write_chunk for_each
write_all chunks old = for_each write_chunk chunks []

abbrev pub read_frame :
    (List ℕ → Result IoError (List (List ℕ)))
    → List ℕ
    → Result IoError ℕ
    → Result IoError (List (List ℕ))
read_frame next file (err e) = err e
read_frame next file (ok chunk_len) = prepend (take chunk_len file) (next (drop chunk_len file))

-- `while True`, on what is left to read of the file.
unfoldable pub read_frames : ℕ → List ℕ → Result IoError (List (List ℕ))
unfolding unpack
read_frames zero file = err out_of_fuel
read_frames (suc fuel) file =
    let y = take length_field_size file in
    let frames =
      read_frame (read_frames fuel) (drop length_field_size file) (unpack length_field_size y) in
    if is_empty y then ok [] else frames

unfoldable pub read_all : List ℕ → Result IoError (List (List ℕ))
unfolding read_frames
read_all file = read_frames (suc (length file)) file
