-- ===== src/Lib.antt =====
-- bndl is a library for distributed data processing: a driver cuts data sets into partitions,
-- makes a task of the work on each and runs the tasks on executors, which it reaches over
-- connections. This library models, by the files of the repository:
--
-- - bndl/compute/job.py and bndl/util/lifecycle.py: `Job`. A task's state is a record; a time
--   stamp is a Boolean, since only its presence is read.
-- - bndl/compute/scheduler.py: `Scheduler`. `State` holds the fields of `Scheduler` and the tasks
--   by id, since tasks are shared with the jobs. `Blocking`, `Completion` and `Dispatch` translate
--   the methods, one definition for each, in a monad of state and exceptions (`Prelude.Exec`).
--   `Steps` is the relation of what the scheduler's thread and the threads beside it do. `Frame`
--   and `Rounds` are the interface by which an invariant of the small changes of state is an
--   invariant of every step; `Exclusive` and `Choice` implement it.
-- - bndl/compute/storage.py: `Storage`, the framing of chunks in memory and on disk, on the fields
--   that `struct` packs (`Bytes`), and the containers of serialized chunks, in memory, in shared memory and
--   on disk (`Containers`).
-- - bndl/compute/cache.py: `Cache`. `Provider` is `CacheProvider` on an interface of containers, and
--   `Containers` fills it with those of storage.py.
-- - bndl/compute/accumulate.py: `Accumulate`.
-- - bndl/util/pool.py and bndl/util/retry.py: `Pool` and `Retry`. What is called is a parameter.
-- - bndl/net/peer.py, node.py, watchdog.py and messages.py: `Net`. `Table` is the state of a node and
--   of its peers, `Peer`, `Node` and `Watchdog` are the classes; what the network does comes as
--   arguments, and `Registry.Events` takes what happens to a node as a sequence.
-- - bndl/net/connection.py: `Connection`, the format of messages with attachments.
-- - bndl/compute/shuffle.py: `Shuffle`. `Manager` is `ShuffleManager`, `Sizes` and `Requests` are
--   `get_sizes` and `blocks` of `ShuffleReadingPartition`, which ask managers for sizes and blocks,
--   and `Sources` is its `get_sources`.
-- - bndl/compute/memory.py: `Memory`, how a release of memory is spread over processes,
--   and `Local`, what one process releases.
-- - bndl/compute/blocks.py: `Blocks`, the available ranges of a block that is downloaded.
-- - bndl/compute/ranges.py: `Ranges`, the partitions of a range.
-- - bndl/compute/dataset.py: `Dataset`. `Take` is `itake`, `Parts` are unions, `Coalesced` is
--   `CoalescedDataset`, `Locality` is `Partition.locality` and `Barrier` is what tasks learn of the executors of
--   their dependencies.
-- - bndl/compute/tasks.py: `TaskService`, with `Results.Event` for what happens to it.
-- - bndl/compute/files.py: `Files`, how files are put in batches.
--
-- Floating point numbers are exact fractions here: the offsets of coalesced data sets, the backoff of an action
-- that is tried again, and the random waits of the watchdog.
--
-- Sorted sets (`sortedcontainers`) and each task's locality are parameters, in `Env`; an instance
-- with lists is in `Tests`. Chains of recursive calls (`_mark_blocked`, `_task_done`) run on fuel
-- that stands for the recursion limit of the interpreter and end in `RecursionError` without it.
-- The loops that read frames run on fuel too, one more than the number of bytes, and so do those
-- that split a file, with two rounds for each byte, and `itake`, with a round for each partition. Locks,
-- logging, waiting on conditions and the contents of pickled data have no part in the models.
-- The other transformations of data sets, broadcasts, the calls of services of other nodes and the opening of server
-- sockets are not modelled.
pub mod Prelude
pub mod Accumulate
pub mod Blocks
pub mod Bytes
pub mod Cache
pub mod Connection
pub mod Dataset
pub mod Files
pub mod Job
pub mod Memory
pub mod Net
pub mod Pool
pub mod Ranges
pub mod Retry
pub mod Scheduler
pub mod Shuffle
pub mod Storage
pub mod TaskService
pub mod Tests
