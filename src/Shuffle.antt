-- ===== src/Shuffle.antt =====
-- The exchange of blocks in bndl/compute/shuffle.py: what a worker keeps and serves
-- (`ShuffleManager`), and how a reading partition asks for it.
pub mod Sources
pub mod Manager
pub mod Requests
pub mod Batching
pub mod Fetch
pub mod Sizes
pub mod Selection
