-- ===== src/Lru.antt =====
-- core/lrucache.go: the least-recently-used cache with expiry times, statistics and a memory limit.
pub mod Heap
pub mod Defs
pub mod Methods
pub mod Batch
pub mod Index
pub mod Model
pub mod Reps
pub mod Refine
pub mod History
pub mod Behaviour
pub mod Departures
pub mod Tests
