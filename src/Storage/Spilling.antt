-- ===== src/Storage/Spilling.antt =====
-- A container that moves to disk keeps its content.
use bndl.Prelude.{
  Option, some, take, drop, ℕ, ◌≡◌, refl, sym, ap, ◌∙◌, inl, inr, List, [], ◌∷◌, All, length, ltb,
  ltb→lt, arith, Bool-cases,
}
use bndl.Prelude.Exec.{Result, ok, err, ◌>>=◌, for_each}
use bndl.Prelude.Sets.{is_empty}
use bndl.Bytes.{unpack, IoError, capacity, pack}
use bndl.Storage.Framing.{
  prepend, read_frame, read_frames, write_chunk, write_all, read_all, length_field_size,
}
use bndl.Storage.RoundTrip.{Fits, binary_loads-binary_dumps}
use bndl.Storage.Containers.{
  Serializer, Container, in_memory, on_disk, in_file, ReadError, stop_iteration, first_frame,
  frame_body, first_of_file, first_chunk, next_chunk, read, write, written_to, loaded,
}

-- Chunks that are written without an exception fit in their length fields.
writes-Fits :
    (chunks : List (List ℕ)) (file : List ℕ)
    → (for_each write_chunk chunks file).0 ≡ ok tt
    → All Fits chunks
unfolding for_each ◌>>=◌ write_chunk pack
writes-Fits [] file h = tt
writes-Fits (chunk ∷ chunks) file h =
    elim (Bool-cases (ltb (length chunk) (capacity length_field_size))) [
      | inl e ↦
          (ltb→lt (length chunk) (capacity length_field_size) e, writes-Fits chunks _ (rw e at h))
      | inr e ↦ ground (arith, e, rw e at h)
    ]

abbrev first_of : Result IoError (List (List ℕ)) → Result ReadError (List ℕ)
first_of (ok chunks) = next_chunk chunks
first_of (err e) = err stop_iteration

first_read :
    (file : List ℕ) (r : Result IoError ℕ) (next : List ℕ → Result IoError (List (List ℕ)))
    (chunks : List (List ℕ))
    → read_frame next file r ≡ ok chunks
    → frame_body file r ≡ next_chunk chunks
first_read file (err e) next chunks h = ground (arith, h)
first_read file (ok n) next chunks h = first_prepended (next (drop n file)) h
  where
    first_prepended :
        (rest : Result IoError (List (List ℕ)))
        → prepend (take n file) rest ≡ ok chunks
        → ◌≡◌ {A = Result ReadError (List ℕ)} (ok (take n file)) (next_chunk chunks)
    first_prepended (ok frames) h = ap first_of h
    first_prepended (err e) h = ground (arith, h)

-- The first chunk of a file that can be read to its end.
first_frame-read_all :
    (file : List ℕ) (chunks : List (List ℕ))
    → read_all file ≡ ok chunks
    → first_frame file ≡ next_chunk chunks
unfolding first_frame read_all read_frames
first_frame-read_all file chunks h = elim (Bool-cases (is_empty (take length_field_size file))) [
  | inl e ↦ rw e (ap first_of (rw e at h))
  | inr e ↦ rw e (
      first_read (drop length_field_size file)
        (unpack length_field_size (take length_field_size file)) (read_frames (length file)) chunks
        (rw e at h))
]

write_all-read :
    (chunks : List (List ℕ))
    → (write_all chunks []).0 ≡ ok tt
    → first_frame (write_all chunks []).1 ≡ next_chunk chunks
unfolding write_all
write_all-read chunks h =
    let (bytes, dumped, whole, loaded, read) =
      binary_loads-binary_dumps chunks [] (writes-Fits chunks [] h) in
    ap first_frame (ap (λ r. r.1) whole) ∙ first_frame-read_all bytes chunks read

module _ {Content : Type 0} (serializer : Serializer Content) where
  in_a_file :
      (content : Content) (make : Option (List ℕ) → Container)
      → ((file : Option (List ℕ)) → first_chunk (make file) ≡ first_of_file file)
      → (r : Result IoError (Unit {0}) × List ℕ)
      → write_all (serializer.serialize content ∷ []) [] ≡ r
      → (written_to make r).0 ≡ ok tt
      → first_chunk (written_to make r).1 ≡ ok (serializer.serialize content)
  in_a_file content make h (err e, file) same k = ground (arith, k)
  in_a_file content make h (ok _, file) same k =
      h (some file)
      ∙ ap (λ r. first_frame r.1) (sym same)
      ∙ write_all-read (serializer.serialize content ∷ []) (ap (λ r. r.0) same)

  -- What was written without an exception is read.
  pub read-written :
      (container : Container) (content : Content)
      → (write serializer content container).0 ≡ ok tt
      → read serializer (write serializer content container).1 ≡ ok content
  unfolding read write
  read-written container content h =
      ap (loaded serializer) (first container h) ∙ ap ok (serializer.deserialize-serialize content)
    where
      first :
          (container : Container)
          → (write serializer content container).0 ≡ ok tt
          → first_chunk (write serializer content container).1 ≡ ok (serializer.serialize content)
      first (in_memory chunks) h = refl
      first (on_disk file) h = in_a_file content on_disk (λ file. refl) _ refl h
      first (in_file medium file) h = in_a_file content (in_file medium) (λ file. refl) _ refl h
