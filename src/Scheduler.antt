-- ===== src/Scheduler.antt =====
-- bndl/compute/scheduler.py, one child for each part of it and one for each group of proofs.
pub mod State
pub mod Blocking
pub mod Completion
pub mod Dispatch
pub mod Steps
pub mod Frame
pub mod Rounds
pub mod Exclusive
pub mod Choice
pub mod Selection
pub mod Retry
