-- ===== src/Cache/Containers.antt =====
-- The containers of bndl/compute/storage.py as those of the cache.
use bndl.Prelude.{◌≡◌, sym, ap, ◌∙◌, refl, true, some, [], arith}
use bndl.Prelude.Exec.{Result, ok, err}
use bndl.Storage.Containers.{
  Serializer, Container, shared_memory, in_file, ReadError, file_not_found, io_error,
  stop_iteration,
}
use bndl.Storage.Containers.{
  write as write_stored, read as read_stored, clear as clear_stored, size as size_stored,
}
use bndl.Storage.Spilling.{read-written}
use bndl.Cache.Provider.{CacheError, storage_error, Containers}

-- What `CacheProvider.read` sees of an exception of a container.
abbrev pub as_cache_error : {A : Type 0} → Result ReadError A → Result CacheError A
as_cache_error (ok a) = ok a
as_cache_error (err file_not_found) = err CacheError.file_not_found
as_cache_error (err stop_iteration) = err storage_error
as_cache_error (err (io_error e)) = err storage_error

-- What `CacheProvider.write` sees of a write to a container.
abbrev pub as_written : Result ReadError (Unit {0}) × Container → Result CacheError Container
as_written (ok _, container) = ok container
as_written (err e, container) = err storage_error

module _ {Content : Type 0} (serializer : Serializer Content) where
  pub written-read :
      (c : Content) (r : Result ReadError (Unit {0}) × Container) (written : Container)
      → write_stored serializer c (in_file shared_memory (some [])) ≡ r
      → as_written r ≡ ok written
      → as_cache_error (read_stored serializer written) ≡ ok c
  written-read c (err e, container) written w h = ground (arith, h)
  written-read c (ok _, container) written w h =
      ap read_or_keep (sym h)
      ∙ ap (λ r. as_cache_error (read_stored serializer r.1)) (sym w)
      ∙ ap as_cache_error
          (read-written serializer (in_file shared_memory (some [])) c (ap (λ r. r.0) w))
    where
      read_or_keep : Result CacheError Container → Result CacheError Content
      read_or_keep (ok container) = as_cache_error (read_stored serializer container)
      read_or_keep (err e) = err e

  -- Serialized content in shared memory, the containers that `ContainerFactory` makes for the location `memory`: the
  -- file of a new one is empty. Memory management may move it to disk.
  abbrev pub serialized_containers : Containers Content Container
  serialized_containers = record {
    make = λ k j. in_file shared_memory (some []);
    write = λ c container. as_written (write_stored serializer c container);
    read = λ container. as_cache_error (read_stored serializer container);
    clear = clear_stored;
    is_releasable = true;
    size = size_stored;
    read-write = λ c k j written h. written-read c _ written refl h;
  }
