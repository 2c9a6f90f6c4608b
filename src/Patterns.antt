-- ===== src/Patterns.antt =====
-- tutorial/02-patterns: three ways to keep a cache in front of a database.
pub mod Spec
pub mod Database
pub mod Cache
pub mod Coherent
pub mod Aside
pub mod Through
pub mod Back
pub mod Flushed
pub mod Behind
pub mod Durable
pub mod Race
pub mod Tests
