-- ===== src/Storage.antt =====
-- How bndl/compute/storage.py frames the chunks of a container: in memory with `binary_dumps` and
-- `binary_load_gen`, on disk with `_write_all` and `_read_all` of `OnDiskContainer`. Each loop runs
-- on fuel: a round consumes the four bytes of a length field or ends the loop.
pub mod Framing
pub mod RoundTrip
pub mod Containers
pub mod Spilling
