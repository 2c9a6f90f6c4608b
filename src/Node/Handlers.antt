-- ===== src/Node/Handlers.antt =====
-- distributed/api_handlers.go and the routes of distributed/node_server.go: a request to a node, and
-- its reply. The state is the node with its manager, which the handlers and the coordinator share.
-- The network, what URLs and bodies carry, and SHA-1 are parameters; where a body holds the time, or counts that
-- are only shown, it is the encoder that adds them.
use ryan_cache.Prelude.{ℕ, String, Bool, true, Option, none, some, Result, ok, ◌>>=◌, length}
use ryan_cache.GoMap.{GoMap}
use ryan_cache.Lru.Defs.{Time}
use ryan_cache.Cluster.Defs.{BasicMigrationStats}
use ryan_cache.Http.{Http, Response, response, status_ok, Wire, returned, errored}
use ryan_cache.Node.Defs.{DistributedNode, set_local, get_local, delete_local}
use ryan_cache.Node.Defs as Node
use ryan_cache.Node.Manager.{ClusterStatus, NodeInfo, get_cluster_status, get_nodes, is_healthy}
use ryan_cache.Node.Coordinator.{
  ClusterCoordinator, NodeChangeRequest, Run, add_node_to_cluster, remove_node_from_cluster,
  sync_add_node, sync_remove_node, trigger_rebalance,
}

abbrev pub bad_request : ℕ
bad_request = 400

abbrev pub not_found : ℕ
not_found = 404

abbrev pub server_error : ℕ
server_error = 500

-- The bodies of the other requests and replies.
pub record Bodies : Type 0 where
  pub error : String → String
  pub done : String → String → String → String
  pub health : Bool → String → String
  pub stats : String → DistributedNode → ClusterStatus → String
  pub cluster : ClusterStatus → String → String
  pub nodes : GoMap String NodeInfo → ℕ → String
  pub metrics : String → DistributedNode → BasicMigrationStats → ClusterStatus → String
  pub read_join : String → Option (String × String)
  pub read_leave : String → Option String
  pub read_change : String → Option NodeChangeRequest
  pub write_change : NodeChangeRequest → String

-- `sendError`
abbrev pub send_error : Bodies → ℕ → String → Response
send_error bodies status kind = response status (bodies.error kind)

abbrev pub with_node : ClusterCoordinator → DistributedNode → ClusterCoordinator
with_node cc dn = record cc { node = dn }

-- The reply that holds a key, its value and the node.
abbrev pub cache_reply : Wire → String → String → Bool → String → String → Response
cache_reply wire key value found id message = response status_ok (
    wire.write_response
      (record { key = key; value = value; found = found; node_id = id; message = message }))

-- `HandleInternalGet`, `HandleInternalSet` and `HandleInternalDelete`: these never send a request.
unfoldable pub handle_internal_get :
    Wire → Time → String → ClusterCoordinator → Result (ClusterCoordinator × Response)
unfolding get_local
handle_internal_get wire now key cc = do
  (dn, reply) ← get_local now key cc.node
  ok (with_node cc dn, cache_reply wire key reply.0 reply.1 cc.node.node_id "")

unfoldable pub handle_internal_set :
    Wire → Bodies → String → String → ClusterCoordinator → Result (ClusterCoordinator × Response)
unfolding set_local
handle_internal_set wire bodies key body cc = elim (wire.bind_value body) [
  | none ↦ ok (cc, send_error bodies bad_request "invalid_request")
  | some value ↦ do
    dn ← set_local key value cc.node
    ok (with_node cc dn, cache_reply wire key value true cc.node.node_id "success")
]

unfoldable pub handle_internal_delete :
    Bodies → String → ClusterCoordinator → Result (ClusterCoordinator × Response)
unfolding delete_local
handle_internal_delete bodies key cc = do
  dn ← delete_local key cc.node
  ok (with_node cc dn, response status_ok (bodies.done "deleted" key cc.node.node_id))

-- `HandleGetStats`, `HandleHealthCheck`, `HandleClusterHealth` and `HandleGetCluster`: a health check
-- is answered with status 200 whatever it says.
unfoldable pub handle_get_stats : Bodies → Time → ClusterCoordinator → Response
unfolding get_cluster_status
handle_get_stats bodies now cc =
    response status_ok (bodies.stats cc.node.node_id cc.node (get_cluster_status now cc.cluster))

unfoldable pub handle_health_check : Bodies → ClusterCoordinator → Response
unfolding is_healthy
handle_health_check bodies cc =
    response status_ok (bodies.health (is_healthy cc.cluster) cc.cluster.node_id)

unfoldable pub handle_cluster_health : Bodies → ClusterCoordinator → Response
handle_cluster_health bodies cc = response status_ok (bodies.health true cc.cluster.node_id)

unfoldable pub handle_get_cluster : Bodies → Time → ClusterCoordinator → Response
unfolding get_cluster_status
handle_get_cluster bodies now cc =
    response status_ok (bodies.cluster (get_cluster_status now cc.cluster) cc.cluster.node_id)

-- `HandleGetNodes`
unfoldable pub handle_get_nodes : Bodies → ClusterCoordinator → Response
handle_get_nodes bodies cc =
    let nodes = get_nodes cc.cluster in response status_ok (bodies.nodes nodes (length nodes))

-- `HandleGetMetrics`
unfoldable pub handle_get_metrics : Bodies → Time → ClusterCoordinator → Response
unfolding get_cluster_status
handle_get_metrics bodies now cc = response status_ok (
    bodies.metrics cc.node.node_id cc.node cc.node.hash_ring.basic_migration_stats
      (get_cluster_status now cc.cluster))

-- `HandleRebalance`
unfoldable pub handle_rebalance : Bodies → ClusterCoordinator → Response
unfolding trigger_rebalance
handle_rebalance bodies cc = elim (trigger_rebalance cc) [
  | some e ↦ send_error bodies server_error "rebalance_error"
  | none ↦ response status_ok (bodies.done "rebalance completed" "" cc.cluster.node_id)
]

module _ {W : Type 0} (http : Http W) (sha1 : String → ℕ → ℕ) (wire : Wire) (bodies : Bodies) where
  abbrev pub Served : Type 0
  Served = Result (ClusterCoordinator × W × Response)

  -- `HandleGet`
  unfoldable pub handle_get : Time → String → ClusterCoordinator → W → Served
  unfolding Node.get
  handle_get now key cc w = do
    (dn, w1, attempt) ← Node.get sha1 http wire now key cc.node w
    elim attempt [
      | errored e ↦ ok (with_node cc dn, w1, send_error bodies server_error "cache_error")
      | returned reply ↦
          ok (with_node cc dn, w1, cache_reply wire key reply.0 reply.1 cc.node.node_id "")
    ]

  -- `HandleSet`
  unfoldable pub handle_set : String → String → ClusterCoordinator → W → Served
  unfolding Node.set
  handle_set key body cc w = elim (wire.bind_value body) [
    | none ↦ ok (cc, w, send_error bodies bad_request "invalid_request")
    | some value ↦ do
      (dn, w1, attempt) ← Node.set sha1 http wire key value cc.node w
      elim attempt [
        | errored e ↦ ok (with_node cc dn, w1, send_error bodies server_error "cache_error")
        | returned b ↦
            ok (with_node cc dn, w1, cache_reply wire key value true cc.node.node_id "success")
      ]
  ]

  -- `HandleDelete`
  unfoldable pub handle_delete : String → ClusterCoordinator → W → Served
  unfolding Node.delete_key
  handle_delete key cc w = do
    (dn, w1, attempt) ← Node.delete_key sha1 http wire key cc.node w
    elim attempt [
      | errored e ↦ ok (with_node cc dn, w1, send_error bodies server_error "cache_error")
      | returned b ↦
          ok (with_node cc dn, w1, response status_ok (bodies.done "deleted" key cc.node.node_id))
    ]

  -- `HandleNodeJoin`
  unfoldable pub handle_node_join : Run → String → ClusterCoordinator → W → Served
  unfolding add_node_to_cluster
  handle_node_join run body cc w = elim (bodies.read_join body) [
    | none ↦ ok (cc, w, send_error bodies bad_request "invalid_request")
    | some (id, address) ↦ do
      (cc1, w1) ← add_node_to_cluster http sha1 wire bodies.write_change run id address cc w
      ok (cc1, w1, response status_ok (bodies.done "node joined successfully" "" id))
  ]

  -- `HandleNodeLeave`
  unfoldable pub handle_node_leave : Run → String → ClusterCoordinator → W → Served
  unfolding remove_node_from_cluster
  handle_node_leave run body cc w = elim (bodies.read_leave body) [
    | none ↦ ok (cc, w, send_error bodies bad_request "invalid_request")
    | some id ↦ do
      (cc1, w1, failure) ← remove_node_from_cluster http sha1 wire bodies.write_change run id cc w
      ok (
        cc1,
        w1,
        elim failure [
          | some e ↦ send_error bodies server_error "remove_node_error"
          | none ↦ response status_ok (bodies.done "node left successfully" "" id)
        ],
      )
  ]

  -- `HandleSyncAddNode`
  unfoldable pub handle_sync_add_node : Run → String → ClusterCoordinator → W → Served
  unfolding sync_add_node
  handle_sync_add_node run body cc w = elim (bodies.read_change body) [
    | none ↦ ok (cc, w, send_error bodies bad_request "invalid_request")
    | some change ↦ do
      (cc1, w1) ← sync_add_node http sha1 wire run change.node_id change.address cc w
      ok (cc1, w1, response status_ok (bodies.done "node synced successfully" "" change.node_id))
  ]

  -- `HandleSyncRemoveNode`
  unfoldable pub handle_sync_remove_node : Run → String → ClusterCoordinator → W → Served
  unfolding sync_remove_node
  handle_sync_remove_node run body cc w = elim (bodies.read_change body) [
    | none ↦ ok (cc, w, send_error bodies bad_request "invalid_request")
    | some change ↦ do
      (cc1, failure) ← sync_remove_node http sha1 wire run change.node_id cc
      ok (
        cc1,
        w,
        elim failure [
          | some e ↦ send_error bodies server_error "sync_remove_error"
          | none ↦ response status_ok (bodies.done "node removed successfully" "" change.node_id)
        ],
      )
  ]
