-- ===== src/Cluster.antt =====
-- core/distributed_cache.go: a cache over several nodes on a consistent hash ring.
pub mod Search
pub mod Sorting
pub mod Defs
pub mod Owner
pub mod Maps
pub mod Ring
pub mod Routing
pub mod Methods
pub mod Service
pub mod Creation
pub mod Plain
pub mod Departures
pub mod Tests
