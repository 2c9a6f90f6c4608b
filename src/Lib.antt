-- ===== src/Lib.antt =====
-- ryan_cache: a cache in Go. `core` holds a least-recently-used cache with expiry times and a memory
-- limit (core/lrucache.go) and a cache over several nodes on a consistent hash ring
-- (core/distributed_cache.go); `distributed` serves it over HTTP.
--
-- Files. Prelude and its children: shared names, tests, lists, texts, and `Result`, a value or the
-- fault that stops the program. GoMap: Go's maps as association lists, with their laws.
--
-- Lru: core/lrucache.go.
--   Lru/Heap/Defs: `LRUNode` and the pointer operations (addToHead, removeNode, moveToHead, removeTail)
--     on an explicit heap; nil is address 0, and to follow it is a fault. Chain and Ops prove what the
--     operations do to the list that the pointers spell.
--   Lru/Defs, Lru/Methods, Lru/Batch: the state `LRUCache`, its constructors and methods; a method
--     returns the new state beside its result. The time is an argument of the methods that read it.
--   Lru/Model: the same cache without pointers, as the list of its entries, most recent first; its
--     children hold the laws of that model. Lru/Index and Lru/Reps relate the two, and Lru/Refine
--     proves that each method does on the pointers what the model does on the entries.
--   Lru/History, Lru/Behaviour, Lru/Departures: histories of calls, what a user can rely on, and where
--     the code departs from its comments.
--
-- Cluster: core/distributed_cache.go, over the caches of Lru.
--   Cluster/Search, Cluster/Sorting: `sort.Search` and `slices.Sort` as the code calls them.
--   Cluster/Defs: the state `DistributedCache`, the hash ring and its operations, with SHA-1 as a
--     parameter; Cluster/Methods: the constructors, Set, Get, Delete, AddNode and RemoveNode.
--   Cluster/Owner, Cluster/Maps, Cluster/Ring, Cluster/Routing: the clockwise successor of a hash, the
--     invariant of the ring, and which node a key has before and after a change of the nodes.
--   Cluster/Service, Cluster/Plain, Cluster/Creation, Cluster/Departures: what the calls on a cluster do
--     with the local caches, from the constructor on, and where the code departs from its comments.
--
-- Http: the requests and replies of distributed/ as data. The network is a parameter of what uses
-- them, and so is `Wire`, what net/http, gin and encoding/json do with what is sent: the path of a URL
-- that ends in a key, the key that a route reads from it, and the JSON of the bodies.
--
-- Client: distributed/client.go.
--   Client/Nodes: `NodeManager` and its methods, with the answer of a health check as an argument.
--   Client/Health: histories of what is reported of the nodes.
--   Client/Defs, Client/Rounds: the client, its constructor, getNextNode and getNextHealthyNode.
--   Client/Retry, Client/Calls, Client/Bounds: executeWithRetry, the requests and the calls that use
--     it, and how often it tries.
--
-- Node: the server's side of distributed/.
--   Node/Defs: distributed_node.go, a node that keeps its keys and passes the others on, over Lru and
--     Cluster. Node/Manager: cluster_manager.go. Node/Coordinator: cluster_coordinator.go.
--   Node/Handlers, Node/Forwarding, Node/Routes: api_handlers.go and the routes of node_server.go, and
--     a network in which a request runs the handler of the node at its address.
--   Node/Health, Node/Local, Node/Migration, Node/Changes: the checks, the local entries, the migration
--     over the network, and what a join leaves behind.
--   Node/EndToEnd, Node/ReadBack: from the client's requests down to the caches.
--
-- Patterns: tutorial/02-patterns, the caches in front of a database.
--   Patterns/Spec: histories of calls, and what it is to answer them as one map does.
--   Patterns/Database, Patterns/Cache: the two stores of cache_aside.go.
--   Patterns/Coherent, Patterns/Aside, Patterns/Through: cache_aside.go and write_through.go.
--   Patterns/Back, Patterns/Flushed, Patterns/Behind, Patterns/Durable: write_back.go.
--   Patterns/Race: a read and a write of cache_aside.go that overlap, as a step relation; a read and a
--     write that run alone take the steps of Get and Set.
--
-- Basics: tutorial/01-basics/simple_cache.go, its plain cache, the one with expiry times and the one
-- that counts. Problems: tutorial/03-problems/penetration.go, its Bloom filter, with the FNV hash as a
-- parameter, its cache of empty values and its counting database. Levels:
-- tutorial/05-multilevel/local_cache.go; Levels/Room is about its size.
--
-- Numbers. Sizes, counters and byte counts (int and int64 in the code) are unbounded naturals; where
-- the code subtracts, the model stops with the fault `below_zero` if the result would be negative. A
-- memory limit that is not positive is 0. Times and durations are naturals, so that an expiry time is
-- never before the time of the call. Lengths of strings count bytes of UTF-8.
--
-- Fuel. The eviction loop runs on `size + 1` rounds; each round takes one entry, and the loop ends by
-- its own condition before the fuel does. The binary search runs on as many rounds as there are
-- hashes, and each round shortens the range.
--
-- Loops over maps. Go leaves the order open; where it matters, the order is an argument.
--
-- Locks. A method that holds the lock of its cache for its whole body is one step.
--
-- Network. A request changes the state behind the network and gets a reply; requests of one call are
-- in sequence. A key is written into a URL unescaped, as in the code: where the URL does not parse the
-- call returns an error and sends nothing, and where no route matches the path the reply is status 404;
-- the redirects of gin are not followed. In the network of Node/Routes the requests between nodes ask no further, as those of
-- the internal routes for a key do. A fault of a handler is answered with status 500.
--
-- Not modelled: goroutines and tickers, signals, the settings of HTTP servers and clients, logging, the
-- command line programs, the configuration files, HitRate and other floating-point figures.
pub mod Prelude
pub mod GoMap
pub mod Http
pub mod Lru
pub mod Cluster
pub mod Client
pub mod Node
pub mod Patterns
pub mod Problems
pub mod Basics
pub mod Levels
