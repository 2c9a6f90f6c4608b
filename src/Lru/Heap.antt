-- ===== src/Lru/Heap.antt =====
-- The doubly linked list of core/lrucache.go, on an explicit heap, and the list that it spells.
pub mod Defs
pub mod Chain
pub mod Ops
