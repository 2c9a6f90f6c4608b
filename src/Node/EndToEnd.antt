-- ===== src/Node/EndToEnd.antt =====
-- From the client of distributed/client.go over the handlers and the nodes to the caches: a value
-- that is set through one node is read through another.
use ryan_cache.Prelude.{ℕ, ◌≡◌, ◌≢◌, ◌↔◌, String, String_discrete, true, some, arith, ok}
use ryan_cache.GoMap.{lookup, insert}
use ryan_cache.Lru.Defs.{LruCache}
use ryan_cache.Lru.Methods
use ryan_cache.Lru.Methods.{Reply, set_internal}
use ryan_cache.Cluster.Defs.{get_node_for_key}
use ryan_cache.Http.{Request, Wire, CacheResponse, Route, put, get, api_cache, internal_cache}
use ryan_cache.Node.Defs.{entries_of}
use ryan_cache.Node.Coordinator.{ClusterCoordinator, Run}
use ryan_cache.Node.Handlers.{Bodies, with_node, cache_reply}
use ryan_cache.Node.Routes.{Network, between_nodes, from_client}

-- The node with another local cache.
abbrev pub with_cache : ClusterCoordinator → LruCache → ClusterCoordinator
with_cache cc c = with_node cc (record (cc.node) { local_cache = c })

-- The reply of the node `id` to a read that found the value.
abbrev pub found_it : String → String → String → CacheResponse
found_it key value id = record {
  key = key;
  value = value;
  found = true;
  node_id = id;
  message = "";
}

module _ (sha1 : String → ℕ → ℕ) (wire : Wire) (bodies : Bodies) (run : Run)
    (key value : String) where
  abbrev pub put_request : String → Route → Request
  put_request address route = record {
    verb = put;
    address = address;
    route = route;
    body = wire.write_value value;
  }

  abbrev pub get_request : String → Route → Request
  get_request address route = record { verb = get; address = address; route = route; body = "" }

  -- The nodes of a network agree on a key: each ring gives it to the node `target`, which is at
  -- `owner`, and each other node knows that address.
  pub record Agrees (net : Network) (target owner : String) : Type 0 where
    pub routed :
        (at : String) (cc : ClusterCoordinator)
        → lookup String_discrete at net ≡ some cc
        → get_node_for_key sha1 key cc.node.hash_ring ≡ ok target
    pub named :
        (at : String) (cc : ClusterCoordinator)
        → lookup String_discrete at net ≡ some cc
        → (target ≡ cc.node.node_id) ↔ (at ≡ owner)
    pub known :
        (at : String) (cc : ClusterCoordinator)
        → lookup String_discrete at net ≡ some cc
        → target ≢ cc.node.node_id
        → lookup String_discrete target (entries_of cc.node.cluster_nodes) ≡ some owner

  -- The key is the end of a URL, and is read from it as it was written.
  module _ (path : String) (sent : wire.send_path key ≡ some path)
      (taken : wire.path_key path ≡ some key) where
    module _ (bound : wire.bind_value (wire.write_value value) ≡ some value) where
      -- A write between nodes.
      put_between :
          (owner : String) (cc : ClusterCoordinator) (c1 : LruCache) (net : Network)
          → lookup String_discrete owner net ≡ some cc
          → set_internal key value cc.node.local_cache ≡ ok c1
          → between_nodes sha1 wire bodies run (put_request owner (internal_cache path)) net ≡ (
            insert String_discrete owner (with_cache cc c1) net,
            cache_reply wire key value true cc.node.node_id "success",
          )
      unfolding between_nodes
      put_between owner cc c1 net e ran = ground (arith, e, sent, taken, ran, bound)

      -- A write at the node that has the key.
      pub put_here :
          (owner target : String) (cc : ClusterCoordinator) (c1 : LruCache) (net : Network)
          → lookup String_discrete owner net ≡ some cc
          → get_node_for_key sha1 key cc.node.hash_ring ≡ ok target
          → target ≡ cc.node.node_id
          → set_internal key value cc.node.local_cache ≡ ok c1
          → from_client sha1 wire bodies run (put_request owner (api_cache path)) net ≡ (
            insert String_discrete owner (with_cache cc c1) net,
            cache_reply wire key value true cc.node.node_id "success",
          )
      unfolding from_client
      put_here owner target cc c1 net e routed own ran =
          ground (arith, e, sent, taken, routed, own, ran, bound)

      -- A write at another node, which passes it on.
      pub put_there :
          (at owner target : String) (other cc : ClusterCoordinator) (c1 : LruCache) (net : Network)
          → lookup String_discrete at net ≡ some other
          → lookup String_discrete owner net ≡ some cc
          → get_node_for_key sha1 key other.node.hash_ring ≡ ok target
          → target ≢ other.node.node_id
          → lookup String_discrete target (entries_of other.node.cluster_nodes) ≡ some owner
          → set_internal key value cc.node.local_cache ≡ ok c1
          → from_client sha1 wire bodies run (put_request at (api_cache path)) net ≡ (
            insert String_discrete at other (insert String_discrete owner (with_cache cc c1) net),
            cache_reply wire key value true other.node.node_id "success",
          )
      unfolding from_client
      put_there at owner target other cc c1 net e f routed away known ran = ground (
        arith,
        e,
        sent,
        taken,
        routed,
        away,
        known,
        sent,
        taken,
        bound,
        put_between owner cc c1 net f ran,
      )

    module _
        (read_back : (id : String)
          → wire.read_response (wire.write_response (found_it key value id))
            ≡ some (found_it key value id)) where
      get_between :
          (owner : String) (cc : ClusterCoordinator) (c1 : LruCache) (net : Network)
          → lookup String_discrete owner net ≡ some cc
          → Methods.get run.now key cc.node.local_cache ≡ ok (c1, (value, true))
          → between_nodes sha1 wire bodies run (get_request owner (internal_cache path)) net ≡ (
            insert String_discrete owner (with_cache cc c1) net,
            cache_reply wire key value true cc.node.node_id "",
          )
      unfolding between_nodes
      get_between owner cc c1 net e ran = ground (arith, e, sent, taken, ran)

      pub get_here :
          (owner target : String) (cc : ClusterCoordinator) (c1 : LruCache) (net : Network)
          → lookup String_discrete owner net ≡ some cc
          → get_node_for_key sha1 key cc.node.hash_ring ≡ ok target
          → target ≡ cc.node.node_id
          → Methods.get run.now key cc.node.local_cache ≡ ok (c1, (value, true))
          → from_client sha1 wire bodies run (get_request owner (api_cache path)) net ≡ (
            insert String_discrete owner (with_cache cc c1) net,
            cache_reply wire key value true cc.node.node_id "",
          )
      unfolding from_client
      get_here owner target cc c1 net e routed own ran =
          ground (arith, e, sent, taken, routed, own, ran)

      pub get_there :
          (at owner target : String) (other cc : ClusterCoordinator) (c1 : LruCache) (net : Network)
          → lookup String_discrete at net ≡ some other
          → lookup String_discrete owner net ≡ some cc
          → get_node_for_key sha1 key other.node.hash_ring ≡ ok target
          → target ≢ other.node.node_id
          → lookup String_discrete target (entries_of other.node.cluster_nodes) ≡ some owner
          → Methods.get run.now key cc.node.local_cache ≡ ok (c1, (value, true))
          → from_client sha1 wire bodies run (get_request at (api_cache path)) net ≡ (
            insert String_discrete at other (insert String_discrete owner (with_cache cc c1) net),
            cache_reply wire key value true other.node.node_id "",
          )
      unfolding from_client
      get_there at owner target other cc c1 net e f routed away known ran = ground (
        arith,
        sent,
        taken,
        e,
        routed,
        away,
        known,
        get_between owner cc c1 net f ran,
        read_back cc.node.node_id,
      )
