-- ===== src/Cache/Laws.antt =====
-- The cache is a store: what was written last under a pair of keys is what is read there.
use bndl.Prelude.{
  ℕ, ◌≡◌, refl, ap, ◌∙◌, Bool, true, false, ◌&&◌, ◌==◌, Option, none, some, List, arith,
  if◌then◌else◌,
}
use bndl.Prelude.Exec.{Result, ok, err}
use bndl.Prelude.Dict.{get, set_item, del_item, get-set_item, get-del_item}
use bndl.Cache.Provider.{
  CacheError, key_error, Containers, Caches, container_of, or_empty, read_found, as_key_error,
  store, read, write, clear, clear_found,
}

module _ {Content Container : Type 0} (ops : Containers Content Container) where
  -- What is found after a container has been put under a pair of keys.
  container_of-set_item :
      (i j k l : ℕ) (c : Container) (s s' : Caches Container)
      → s'.caches ≡ set_item i (set_item j c (or_empty ops (get i s.caches))) s.caches
      → container_of ops k l s' ≡ (if k == i && l == j then some c else container_of ops k l s)
  container_of-set_item i j k l c s s' e = ground (
    arith,
    ap (get k) e,
    get-set_item k i (set_item j c (or_empty ops (get i s.caches))) s.caches,
    get-set_item l j c (or_empty ops (get i s.caches)),
    same,
  )
    where
      same : k ≡ i → get k s.caches ≡ get i s.caches
      same h = rw h refl

  read_found-if :
      (b : Bool) (o o' : Option Container)
      → read_found ops (if b then o else o') ≡ (if b then read_found ops o else read_found ops o')
  read_found-if true o o' = refl
  read_found-if false o o' = refl

  read-after :
      (i j k l : ℕ) (o : Option Container) (s s' : Caches Container)
      → container_of ops k l s' ≡ (if k == i && l == j then o else container_of ops k l s)
      → read ops k l s' ≡ (if k == i && l == j then read_found ops o else read ops k l s)
  unfolding read
  read-after i j k l o s s' e =
      ap (read_found ops) e ∙ read_found-if (k == i && l == j) o (container_of ops k l s)

  -- Whatever is read under a pair of keys after a write that returned: what was written, if it was
  -- under these keys, and what was read there before otherwise.
  pub read-write_lem :
      (i j k l : ℕ) (c : Content) (s : Caches Container)
      → (write ops i j c s).0 ≡ ok tt
      → read ops k l (write ops i j c s).1 ≡ (if k == i && l == j then ok c else read ops k l s)
  unfolding write
  read-write_lem i j k l c s h = stored (ops.write c (ops.make i j)) refl h
    where
      stored :
          (r : Result CacheError Container)
          → ops.write c (ops.make i j) ≡ r
          → (store ops i j s r).0 ≡ ok tt
          → read ops k l (store ops i j s r).1 ≡ (if k == i && l == j then ok c else read ops k l s)
      stored (err x) e h = ground (arith, h)
      stored (ok container) e h = rw (← ap as_found (ops.read-write c i j container e)) (
          read-after i j k l (some container) s (store ops i j s (ok container)).1
            (container_of-set_item i j k l container s (store ops i j s (ok container)).1 refl))
        where
          as_found : Result CacheError Content → Result CacheError Content
          as_found = as_key_error ops

  -- After a `clear` that returned, the object is gone, and every other one is as before.
  pub read-clear :
      (i j k l : ℕ) (s : Caches Container)
      → (clear ops i j s).0 ≡ ok tt
      → read ops k l (clear ops i j s).1
        ≡ (if k == i && l == j then err key_error else read ops k l s)
  unfolding clear
  read-clear i j k l s h = cleared (get i s.caches) (container_of ops i j s) refl h
    where
      cleared :
          (cache : Option (List (ℕ × Container))) (o : Option Container)
          → get i s.caches ≡ cache
          → (clear_found ops i j s cache o).0 ≡ ok tt
          → read ops k l (clear_found ops i j s cache o).1
            ≡ (if k == i && l == j then err key_error else read ops k l s)
      cleared none none e h = ground (arith, h)
      cleared none (some container) e h = ground (arith, h)
      cleared (some cache) none e h = ground (arith, h)
      cleared (some cache) (some container) e h =
          read-after i j k l none s (clear_found ops i j s (some cache) (some container)).1 (
            ground (
              arith,
              get-set_item k i (del_item j cache) s.caches,
              get-del_item l j cache,
              e,
              same,
            ))
        where
          same : k ≡ i → get k s.caches ≡ get i s.caches
          same h = rw h refl
