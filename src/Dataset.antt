-- ===== src/Dataset.antt =====
-- bndl/compute/dataset.py: taking the first elements of a data set and the partitions of composed data sets.
pub mod Take
pub mod Parts
pub mod Coalesced
pub mod Locality
pub mod Barrier
