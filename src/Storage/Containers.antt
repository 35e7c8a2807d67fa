-- ===== src/Storage/Containers.antt =====
-- The containers of bndl/compute/storage.py that hold serialized chunks: in memory, in a file on disk, and in a
-- file in shared memory; and `to_disk`. Files and their directories can be made and written; a
-- file can be missing.
use bndl.Prelude.{ℕ, ◌≡◌, Option, none, some, List, [], ◌∷◌, ◌+◌, length, take, drop, if◌then◌else◌}
use bndl.Prelude.Exec.{Result, ok, err}
use bndl.Prelude.Sets.{is_empty}
use bndl.Bytes.{IoError, unpack}
use bndl.Storage.Framing.{write_all, length_field_size}

-- The functions that `ContainerFactory` chooses.
pub record Serializer (Content : Type 0) : Type 0 where
  pub serialize : Content → List ℕ
  pub deserialize : List ℕ → Content
  pub deserialize-serialize : (c : Content) → deserialize (serialize c) ≡ c

-- Where the file of a container is: what `SharedMemoryData` and `FileData` differ in.
pub data Medium : Type 0 where
  shared_memory disk : Medium

-- The content of a file, if it is there, is an option.
pub data Container : Type 0 where
  -- `SerializedInMemoryContainer`, with its chunks
  in_memory : List (List ℕ) → Container
  -- `OnDiskContainer`
  on_disk : Option (List ℕ) → Container
  -- `SharedMemoryContainer`, whose file `to_disk` moves
  in_file : Medium → Option (List ℕ) → Container

pub data ReadError : Type 0 where
  io_error : IoError → ReadError
  stop_iteration file_not_found : ReadError

-- `next`
abbrev pub next_chunk : List (List ℕ) → Result ReadError (List ℕ)
next_chunk [] = err stop_iteration
next_chunk (chunk ∷ chunks) = ok chunk

abbrev pub frame_body : List ℕ → Result IoError ℕ → Result ReadError (List ℕ)
frame_body file (err e) = err (io_error e)
frame_body file (ok chunk_len) = ok (take chunk_len file)

-- The first round of the loop of `_read_all`: `read` asks for no more.
unfoldable pub first_frame : List ℕ → Result ReadError (List ℕ)
unfolding unpack
first_frame file =
    let y = take length_field_size file in
    if is_empty y
    then err stop_iteration
    else frame_body (drop length_field_size file) (unpack length_field_size y)

abbrev pub first_of_file : Option (List ℕ) → Result ReadError (List ℕ)
first_of_file none = err file_not_found
first_of_file (some file) = first_frame file

-- The first of what `_read_all` yields.
abbrev pub first_chunk : Container → Result ReadError (List ℕ)
first_chunk (in_memory chunks) = next_chunk chunks
first_chunk (on_disk file) = first_of_file file
first_chunk (in_file medium file) = first_of_file file

abbrev pub keep_or_move :
    Container → Result IoError (Unit {0}) × List ℕ → Result ReadError (Unit {0}) × Container
keep_or_move container (ok _, file) = (ok tt, on_disk (some file))
keep_or_move container (err e, file) = (err (io_error e), container)

-- `SerializedInMemoryContainer.to_disk`, whose container stays as it was when writing raises;
-- `OnDiskContainer.to_disk`; `SharedMemoryContainer.to_disk`, where a missing file cannot be
-- copied.
unfoldable pub to_disk : Container → Result ReadError (Unit {0}) × Container
to_disk (in_memory chunks) = keep_or_move (in_memory chunks) (write_all chunks [])
to_disk (on_disk file) = (ok tt, on_disk file)
to_disk (in_file shared_memory none) = (err file_not_found, in_file shared_memory none)
to_disk (in_file shared_memory (some file)) = (ok tt, in_file disk (some file))
to_disk (in_file disk file) = (ok tt, in_file disk file)

abbrev pub total_size : List (List ℕ) → ℕ
total_size [] = 0
total_size (chunk ∷ chunks) = length chunk + total_size chunks

abbrev pub file_size : Option (List ℕ) → ℕ
file_size none = 0
file_size (some file) = length file

abbrev pub size : Container → ℕ
size (in_memory chunks) = total_size chunks
size (on_disk file) = file_size file
size (in_file medium file) = file_size file

-- `clear`: the chunks go. `OnDiskContainer.clear` looks for a path that a container does not have, and
-- ends with the `AttributeError` that it catches.
abbrev pub clear : Container → Container
clear (in_memory chunks) = in_memory []
clear container = container

abbrev pub written_to :
    (Option (List ℕ) → Container)
    → Result IoError (Unit {0}) × List ℕ
    → Result ReadError (Unit {0}) × Container
written_to make (ok _, file) = (ok tt, make (some file))
written_to make (err e, file) = (err (io_error e), make (some file))

module _ {Content : Type 0} (serializer : Serializer Content) where
  -- `Container.write`. A file is opened for writing, which makes or empties it.
  unfoldable pub write : Content → Container → Result ReadError (Unit {0}) × Container
  write content (in_memory chunks) = (ok tt, in_memory (serializer.serialize content ∷ []))
  write content (on_disk file) =
      written_to on_disk (write_all (serializer.serialize content ∷ []) [])
  write content (in_file medium file) =
      written_to (in_file medium) (write_all (serializer.serialize content ∷ []) [])

  abbrev pub loaded : Result ReadError (List ℕ) → Result ReadError Content
  loaded (ok chunk) = ok (serializer.deserialize chunk)
  loaded (err e) = err e

  -- `Container.read`
  unfoldable pub read : Container → Result ReadError Content
  unfolding first_frame
  read container = loaded (first_chunk container)
