-- ===== src/Basics.antt =====
-- tutorial/01-basics: the first caches, plain, with expiry times, and with counts.
pub mod Simple
pub mod Ttl
pub mod Stats
pub mod Tests
