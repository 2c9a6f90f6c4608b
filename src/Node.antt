-- ===== src/Node.antt =====
-- The server's side of distributed/: a node, what it knows of the others, the changes of the
-- cluster, and the handlers of the requests.
pub mod Defs
pub mod Manager
pub mod Coordinator
pub mod Health
pub mod Local
pub mod Migration
pub mod Changes
pub mod Handlers
pub mod Forwarding
pub mod Routes
pub mod EndToEnd
pub mod ReadBack
pub mod Tests
