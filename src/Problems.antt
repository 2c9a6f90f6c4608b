-- ===== src/Problems.antt =====
-- tutorial/03-problems: the Bloom filter against requests for keys that do not exist.
pub mod Bloom
pub mod Members
pub mod Null
pub mod Tests
