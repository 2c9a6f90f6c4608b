-- ===== src/Levels.antt =====
-- tutorial/05-multilevel: the local cache of the first level.
pub mod Local
pub mod Room
pub mod Tests
