-- ===== src/Cache.antt =====
-- `CacheProvider` of bndl/compute/cache.py, on the containers of bndl/compute/storage.py.
pub mod Provider
pub mod Containers
pub mod Laws
