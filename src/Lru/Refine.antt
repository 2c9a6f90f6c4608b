-- ===== src/Lru/Refine.antt =====
-- The methods of core/lrucache.go do on the pointers what the model does on the entries.
pub mod Deletion
pub mod Reading
pub mod Writing
pub mod Eviction
pub mod Setting
pub mod Creation
