-- ===== src/Cache/Provider.antt =====
-- The cache of a process: `_caches`, which the methods of `CacheProvider` read and change. What a
-- container is and does is an interface. The keys are numbers.
use bndl.Prelude.{ℕ, ◌≡◌, Bool, Option, none, some, List, [], ◌∷◌, ◌++◌, if◌then◌else◌}
use bndl.Prelude.Exec.{Result, ok, err}
use bndl.Prelude.Dict.{get, set_item, del_item}

pub data CacheError : Type 0 where
  key_error file_not_found storage_error : CacheError

-- A container class with its factory: what is written to a new container is read
-- from it.
pub record Containers (Content Container : Type 0) : Type 0 where
  pub make : ℕ → ℕ → Container
  pub write : Content → Container → Result CacheError Container
  pub read : Container → Result CacheError Content
  pub clear : Container → Container
  -- whether it has `to_disk`
  pub is_releasable : Bool
  pub size : Container → ℕ
  pub read-write :
      (c : Content) (k j : ℕ) (written : Container)
      → write c (make k j) ≡ ok written
      → read written ≡ ok c

-- `memory_manager.add_releasable(container.to_disk, ..., size)`: what was registered.
pub record Caches (Container : Type 0) : Type 0 where
  -- {cache key : {object key : container}}
  pub caches : List (ℕ × List (ℕ × Container))
  -- (cache key, object key, size)
  pub releasable : List (ℕ × ℕ × ℕ)

module _ {Content Container : Type 0} (ops : Containers Content Container) where
  abbrev pub or_empty : Option (List (ℕ × Container)) → List (ℕ × Container)
  or_empty none = []
  or_empty (some cache) = cache

  -- `_caches[cache_key].get(obj_key)`, with nothing under a cache key that is not there
  abbrev pub container_of : ℕ → ℕ → Caches Container → Option Container
  container_of cache_key obj_key s = get obj_key (or_empty (get cache_key s.caches))

  -- A missing file is reported as a missing key.
  abbrev pub as_key_error : Result CacheError Content → Result CacheError Content
  as_key_error (err file_not_found) = err key_error
  as_key_error r = r

  abbrev pub read_found : Option Container → Result CacheError Content
  read_found none = err key_error
  read_found (some container) = as_key_error (ops.read container)

  unfoldable pub read : ℕ → ℕ → Caches Container → Result CacheError Content
  read cache_key obj_key s = read_found (container_of cache_key obj_key s)

  abbrev pub store :
      ℕ
      → ℕ
      → Caches Container
      → Result CacheError Container
      → Result CacheError (Unit {0}) × Caches Container
  store cache_key obj_key s (err e) = (err e, s)
  store cache_key obj_key s (ok container) = (
    ok tt,
    record {
      caches =
          set_item cache_key (set_item obj_key container (or_empty (get cache_key s.caches)))
            s.caches;
      releasable =
          if ops.is_releasable
          then s.releasable ++ (cache_key, obj_key, ops.size container) ∷ []
          else s.releasable;
    },
  )

  unfoldable pub write :
      ℕ → ℕ → Content → Caches Container → Result CacheError (Unit {0}) × Caches Container
  write cache_key obj_key content s =
      store cache_key obj_key s (ops.write content (ops.make cache_key obj_key))

  abbrev pub clear_found :
      ℕ
      → ℕ
      → Caches Container
      → Option (List (ℕ × Container))
      → Option Container
      → Result CacheError (Unit {0}) × Caches Container
  clear_found cache_key obj_key s (some cache) (some container) =
      (ok tt, record s { caches = set_item cache_key (del_item obj_key cache) s.caches })
  clear_found cache_key obj_key s cache container = (err key_error, s)

  -- `clear` with an object key: the container is cleared and goes.
  unfoldable pub clear : ℕ → ℕ → Caches Container → Result CacheError (Unit {0}) × Caches Container
  clear cache_key obj_key s =
      clear_found cache_key obj_key s (get cache_key s.caches) (container_of cache_key obj_key s)

  abbrev pub clear_cache_found :
      ℕ
      → Caches Container
      → Option (List (ℕ × Container))
      → Result CacheError (Unit {0}) × Caches Container
  clear_cache_found cache_key s none = (err key_error, s)
  clear_cache_found cache_key s (some cache) =
      (ok tt, record s { caches = del_item cache_key s.caches })

  -- `clear` without an object key.
  unfoldable pub clear_cache :
      ℕ → Caches Container → Result CacheError (Unit {0}) × Caches Container
  clear_cache cache_key s = clear_cache_found cache_key s (get cache_key s.caches)

  -- `clear_all`, at the end of the process
  unfoldable pub clear_all : Caches Container → Caches Container
  clear_all s = record s { caches = [] }
