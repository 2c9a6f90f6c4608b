-- ===== src/Node/Routes.antt =====
-- The routes that distributed/node_server.go sets up, and a network of such nodes.
use ryan_cache.Prelude.{List, ℕ, String, String_discrete, none, some, Result, ok, panic, ◌>>=◌}
use ryan_cache.GoMap.{GoMap, lookup, insert}
use ryan_cache.Lru.Defs.{Time}
use ryan_cache.Http.{
  Http, Response, transport_error, response, Wire, Verb, get, put, post, delete, Route, api_cache,
  api_stats, api_health, admin_cluster, admin_nodes, admin_metrics, admin_rebalance, internal_cache,
  internal_join, internal_leave, internal_sync_add, internal_sync_remove, internal_health,
}
use ryan_cache.Node.Defs.{NodeConfig, new_distributed_node}
use ryan_cache.Node.Manager.{NodeInfo, new_cluster_manager, leave, stop}
use ryan_cache.Node.Coordinator.{ClusterCoordinator, Run}
use ryan_cache.Node.Handlers.{
  Bodies, not_found, server_error, handle_get, handle_set, handle_delete, handle_get_stats,
  handle_health_check, handle_internal_get, handle_internal_set, handle_internal_delete,
  handle_node_join, handle_node_leave, handle_sync_add_node, handle_sync_remove_node,
  handle_cluster_health, handle_get_cluster, handle_get_nodes, handle_get_metrics, handle_rebalance,
}

-- `NewNodeServer`: the node and its manager; `ids` and `entries` are what the loops over the
-- configured nodes visit.
unfoldable pub new_node_server :
    (String → ℕ → ℕ)
    → Time
    → List String
    → List (String × String)
    → NodeConfig
    → Result ClusterCoordinator
unfolding new_distributed_node new_cluster_manager
new_node_server sha1 now ids entries config = do
  dn ← new_distributed_node sha1 ids config
  ok record { node = dn; cluster = new_cluster_manager now config.node_id entries }

-- `Shutdown`: the other nodes are told before the manager stops.
unfoldable pub shutdown :
    {W : Type 0}
    → Http W
    → (String → String)
    → List (String × NodeInfo)
    → ClusterCoordinator
    → W
    → Result (ClusterCoordinator × W)
unfolding leave stop
shutdown http leave_body visited cc w = do
  let w1 = leave http leave_body visited cc.cluster w
  cm ← stop cc.cluster
  ok (record cc { cluster = cm }, w1)

-- A handler that sends nothing.
abbrev pub quiet :
    {W : Type 0}
    → W
    → Result (ClusterCoordinator × Response)
    → Result (ClusterCoordinator × W × Response)
quiet w r = r >>= λ p. ok (p.0, w, p.1)

-- A handler of a route with `:key`, for the end of a path.
abbrev pub with_key :
    {W : Type 0}
    → Wire
    → String
    → ClusterCoordinator
    → W
    → (String → Result (ClusterCoordinator × W × Response))
    → Result (ClusterCoordinator × W × Response)
with_key wire path cc w handle = elim (wire.path_key path) [
  | none ↦ ok (cc, w, response not_found "")
  | some key ↦ handle key
]

-- `setupRoutes`: the handler of a verb and a route. Any other pair is not found.
unfoldable pub dispatch :
    {W : Type 0}
    → Http W
    → (String → ℕ → ℕ)
    → Wire
    → Bodies
    → Run
    → Verb
    → Route
    → String
    → ClusterCoordinator
    → W
    → Result (ClusterCoordinator × W × Response)
unfolding handle_get handle_set handle_delete handle_get_stats handle_health_check
    handle_internal_get handle_internal_set handle_internal_delete handle_node_join
    handle_node_leave handle_sync_add_node handle_sync_remove_node handle_cluster_health
    handle_get_cluster handle_get_nodes handle_get_metrics handle_rebalance
dispatch http sha1 wire bodies run get (api_cache path) body cc w =
    with_key wire path cc w (λ key. handle_get http sha1 wire bodies run.now key cc w)
dispatch http sha1 wire bodies run put (api_cache path) body cc w =
    with_key wire path cc w (λ key. handle_set http sha1 wire bodies key body cc w)
dispatch http sha1 wire bodies run delete (api_cache path) body cc w =
    with_key wire path cc w (λ key. handle_delete http sha1 wire bodies key cc w)
dispatch http sha1 wire bodies run get api_stats body cc w =
    ok (cc, w, handle_get_stats bodies run.now cc)
dispatch http sha1 wire bodies run get api_health body cc w =
    ok (cc, w, handle_health_check bodies cc)
dispatch http sha1 wire bodies run get (internal_cache path) body cc w =
    with_key wire path cc w (λ key. quiet w (handle_internal_get wire run.now key cc))
dispatch http sha1 wire bodies run put (internal_cache path) body cc w =
    with_key wire path cc w (λ key. quiet w (handle_internal_set wire bodies key body cc))
dispatch http sha1 wire bodies run delete (internal_cache path) body cc w =
    with_key wire path cc w (λ key. quiet w (handle_internal_delete bodies key cc))
dispatch http sha1 wire bodies run post internal_join body cc w =
    handle_node_join http sha1 wire bodies run body cc w
dispatch http sha1 wire bodies run post internal_leave body cc w =
    handle_node_leave http sha1 wire bodies run body cc w
dispatch http sha1 wire bodies run post internal_sync_add body cc w =
    handle_sync_add_node http sha1 wire bodies run body cc w
dispatch http sha1 wire bodies run post internal_sync_remove body cc w =
    handle_sync_remove_node http sha1 wire bodies run body cc w
dispatch http sha1 wire bodies run get internal_health body cc w =
    ok (cc, w, handle_cluster_health bodies cc)
dispatch http sha1 wire bodies run get admin_cluster body cc w =
    ok (cc, w, handle_get_cluster bodies run.now cc)
dispatch http sha1 wire bodies run get admin_nodes body cc w =
    ok (cc, w, handle_get_nodes bodies cc)
dispatch http sha1 wire bodies run get admin_metrics body cc w =
    ok (cc, w, handle_get_metrics bodies run.now cc)
dispatch http sha1 wire bodies run post admin_rebalance body cc w =
    ok (cc, w, handle_rebalance bodies cc)
dispatch http sha1 wire bodies run verb route body cc w = ok (cc, w, response not_found "")

-- The nodes by their addresses.
abbrev pub Network : Type 0
Network = GoMap String ClusterCoordinator

-- A network that delivers: the request goes to the node at its address. A fault of a handler is
-- caught and answered with status 500, with the node as it was before, and nothing is at another
-- address. A node's own requests go through `http`.
unfoldable pub deliver : Http Network → (String → ℕ → ℕ) → Wire → Bodies → Run → Http Network
unfolding dispatch
deliver http sha1 wire bodies run request net = elim (lookup String_discrete request.address net) [
  | none ↦ (net, transport_error request.address)
  | some cc ↦
      elim (dispatch http sha1 wire bodies run request.verb request.route request.body cc net) [
        | panic e ↦ (net, response server_error "")
        | ok p ↦ (insert String_discrete request.address p.0 p.1, p.2)
      ]
]

-- Requests between nodes, which ask no further, and those of a client.
abbrev pub unreachable : Http Network
unreachable request net = (net, transport_error request.address)

unfoldable pub between_nodes : (String → ℕ → ℕ) → Wire → Bodies → Run → Http Network
unfolding deliver
between_nodes sha1 wire bodies run = deliver unreachable sha1 wire bodies run

unfoldable pub from_client : (String → ℕ → ℕ) → Wire → Bodies → Run → Http Network
unfolding deliver between_nodes
from_client sha1 wire bodies run = deliver (between_nodes sha1 wire bodies run) sha1 wire bodies run
