-- ===== src/Node/Defs.antt =====
-- distributed/distributed_node.go: a node of the cluster, which keeps its own keys and passes the
-- others on. The network, what URLs and bodies carry, and SHA-1 are parameters; `now` is the time
-- of a read.
use ryan_cache.Prelude.{
  ℕ, String, String_discrete, Bool, true, false, List, [], ◌∷◌, Option, none, some, ite, Result, ok,
  panic, nil_map, ◌>>=◌, ◌==◌, if◌then◌else◌,
}
use ryan_cache.GoMap.{GoMap, lookup, insert, delete}
use ryan_cache.Lru.Defs.{Time, LruCache, new_lru_cache}
use ryan_cache.Lru.Methods
use ryan_cache.Lru.Methods.{Reply, set_internal}
use ryan_cache.Cluster.Defs.{DistributedCache, get_node_for_key}
use ryan_cache.Cluster.Methods.{new_distributed_cache, new_distributed_cache_with_virtual_nodes}
use ryan_cache.Http.{
  Http, Response, transport_error, response, status_ok, Wire, with_path, CallError, Attempt,
  returned, errored, request_failed, bad_status, undecodable, no_target, internal_cache,
}
use ryan_cache.Http

pub record NodeConfig : Type 0 where
  pub node_id : String
  pub address : String
  pub cluster_nodes : Option (GoMap String String)
  pub cache_size : ℕ
  pub virtual_nodes : ℕ

pub record DistributedNode : Type 0 where
  pub node_id : String
  pub node_address : String
  pub hash_ring : DistributedCache
  pub local_cache : LruCache
  pub cluster_nodes : Option (GoMap String String)

-- The entries of a map that may be nil: none is a nil map, which is read as an empty one.
abbrev pub entries_of : Option (GoMap String String) → GoMap String String
entries_of m = elim m [ none ↦ [] | some entries ↦ entries ]

-- `m[k]` on a map of texts.
abbrev pub text_at : String → GoMap String String → String
text_at k m = elim (lookup String_discrete k m) [ none ↦ "" | some s ↦ s ]

-- The remote branch: the address of the target, and the request to it.
unfoldable pub pass_on :
    {W A : Type 0}
    → String
    → (String → W → W × Attempt A)
    → DistributedNode
    → W
    → Result (DistributedNode × W × Attempt A)
pass_on target forward dn w = elim (lookup String_discrete target (entries_of dn.cluster_nodes)) [
  | none ↦ ok (dn, w, errored (no_target target))
  | some address ↦ let (w1, attempt) = forward address w in ok (dn, w1, attempt)
]

-- The error for a status other than 200; the message quotes the status alone.
unfoldable pub forwarded : Response → Attempt String
forwarded (transport_error e) = errored (request_failed e)
forwarded (response status body) =
    if status == status_ok then returned body else errored (bad_status "")

-- `SetLocal`, `GetLocal` and `DeleteLocal`
unfoldable pub set_local : String → String → DistributedNode → Result DistributedNode
unfolding set_internal
set_local key value dn = do
  c ← set_internal key value dn.local_cache
  ok (record dn { local_cache = c })

unfoldable pub get_local : Time → String → DistributedNode → Result (DistributedNode × Reply)
unfolding Methods.get
get_local now key dn = do
  (c, reply) ← Methods.get now key dn.local_cache
  ok (record dn { local_cache = c }, reply)

unfoldable pub delete_local : String → DistributedNode → Result DistributedNode
unfolding Methods.delete_key
delete_local key dn = do
  (c, found) ← Methods.delete_key key dn.local_cache
  ok (record dn { local_cache = c })

-- `AddClusterNode`, `RemoveClusterNode` and `UpdateClusterNodes`: a write to a nil map panics, and a
-- deletion from one does nothing.
unfoldable pub add_cluster_node : String → String → DistributedNode → Result DistributedNode
add_cluster_node id address dn = elim dn.cluster_nodes [
  | none ↦ panic nil_map
  | some entries ↦
      ok (record dn { cluster_nodes = some (insert String_discrete id address entries) })
]

abbrev pub remove_cluster_node : String → DistributedNode → DistributedNode
remove_cluster_node id dn = record dn {
  cluster_nodes = elim dn.cluster_nodes [
    | none ↦ none
    | some entries ↦ some (delete String_discrete id entries)
  ];
}

-- The loop that copies a map, over its entries.
unfoldable pub copy_into : List (String × String) → GoMap String String → GoMap String String
copy_into [] m = m
copy_into ((id, address) ∷ entries) m = copy_into entries (insert String_discrete id address m)

unfoldable pub update_cluster_nodes : List (String × String) → DistributedNode → DistributedNode
unfolding copy_into
update_cluster_nodes entries dn = record dn { cluster_nodes = some (copy_into entries []) }

module _ (sha1 : String → ℕ → ℕ) where
  -- `NewDistributedNode`; `ids` are the keys of `ClusterNodes` in the order in which the loop visits
  -- them.
  unfoldable pub new_distributed_node : List String → NodeConfig → Result DistributedNode
  unfolding new_distributed_cache new_distributed_cache_with_virtual_nodes new_lru_cache
  new_distributed_node ids config = do
    ring ←
        (if config.virtual_nodes == 0
          then new_distributed_cache sha1 ids
          else new_distributed_cache_with_virtual_nodes sha1 ids config.virtual_nodes)
    c ← new_lru_cache (if config.cache_size == 0 then 1000 else config.cache_size)
    ok record {
      node_id = config.node_id;
      node_address = text_at config.node_id (entries_of config.cluster_nodes);
      hash_ring = ring;
      local_cache = c;
      cluster_nodes = config.cluster_nodes;
    }

  -- `IsLocalKey`
  unfoldable pub is_local_key : String → DistributedNode → Result Bool
  unfolding get_node_for_key
  is_local_key key dn = do
    target ← get_node_for_key sha1 key dn.hash_ring
    ok (ite (String_discrete target dn.node_id) true false)

  module _ {W : Type 0} (http : Http W) (wire : Wire) where
    -- `forwardSetRequestSafe`
    unfoldable pub forward_set : String → String → String → W → W × Attempt String
    unfolding forwarded
    forward_set address key value w = with_path wire key w (λ path.
        let (w1, reply) =
          http
            (record {
              verb = Http.put;
              address = address;
              route = internal_cache path;
              body = wire.write_value value;
            })
            w in
        (w1, forwarded reply))

    -- What `forwardGetRequestSafe` reads of a body.
    unfoldable pub read_reply : Attempt String → Attempt Reply
    read_reply (errored e) = errored e
    read_reply (returned body) = elim (wire.read_response body) [
      | none ↦ errored (undecodable body)
      | some r ↦ returned (r.value, r.found)
    ]

    -- `forwardGetRequestSafe`
    unfoldable pub forward_get : String → String → W → W × Attempt Reply
    unfolding forwarded read_reply
    forward_get address key w = with_path wire key w (λ path.
        let (w1, reply) =
          http
            (record { verb = Http.get; address = address; route = internal_cache path; body = "" })
            w in
        (w1, read_reply (forwarded reply)))

    -- `forwardDeleteRequestSafe`
    unfoldable pub forward_delete : String → String → W → W × Attempt String
    unfolding forwarded
    forward_delete address key w = with_path wire key w (λ path.
        let (w1, reply) =
          http
            (record {
              verb = Http.delete;
              address = address;
              route = internal_cache path;
              body = "";
            })
            w in
        (w1, forwarded reply))

    -- `Set`: here, or at the node that the ring names.
    unfoldable pub set :
        String → String → DistributedNode → W → Result (DistributedNode × W × Attempt String)
    unfolding get_node_for_key set_local forward_set pass_on
    set key value dn w = do
      target ← get_node_for_key sha1 key dn.hash_ring
      let here = set_local key value dn >>= λ dn1. ok (dn1, w, returned "")
      ite (String_discrete target dn.node_id) here
          (pass_on target (λ address. forward_set address key value) dn w)

    -- `Get`
    unfoldable pub get :
        Time → String → DistributedNode → W → Result (DistributedNode × W × Attempt Reply)
    unfolding get_node_for_key get_local forward_get pass_on
    get now key dn w = do
      target ← get_node_for_key sha1 key dn.hash_ring
      let here = get_local now key dn >>= λ p. ok (p.0, w, returned p.1)
      ite (String_discrete target dn.node_id) here
          (pass_on target (λ address. forward_get address key) dn w)

    -- `Delete`
    unfoldable pub delete_key :
        String → DistributedNode → W → Result (DistributedNode × W × Attempt String)
    unfolding get_node_for_key delete_local forward_delete pass_on
    delete_key key dn w = do
      target ← get_node_for_key sha1 key dn.hash_ring
      let here = delete_local key dn >>= λ dn1. ok (dn1, w, returned "")
      ite (String_discrete target dn.node_id) here
          (pass_on target (λ address. forward_delete address key) dn w)
