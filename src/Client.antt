-- ===== src/Client.antt =====
-- distributed/client.go: a client of the cluster. So far its node manager and its choice of a
-- node.
pub mod Nodes
pub mod Defs
pub mod Health
pub mod Rounds
pub mod Retry
pub mod Calls
pub mod Bounds
pub mod Tests
