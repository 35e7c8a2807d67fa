-- ===== src/Tests.antt =====
-- Runs of the modelled code at concrete inputs.
mod SortedList
mod SchedulerRuns
mod FramingRuns
mod ShuffleRuns
mod MemoryRuns
mod ServiceRuns
mod NetRuns
mod DatasetRuns
mod TaskRuns
