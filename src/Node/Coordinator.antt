-- ===== src/Node/Coordinator.antt =====
-- distributed/cluster_coordinator.go: a change of the cluster, on the node that is told of it first
-- and on those that hear of it from that node. The network, what URLs and
-- bodies carry, and SHA-1 are parameters.
use ryan_cache.Prelude.{
  ℕ, ◌+◌, String, String_discrete, List, [], ◌∷◌, Option, none, some, ite, Result, ok, ◌>>=◌, ltb,
  if◌then◌else◌, length,
}
use ryan_cache.Lru.Heap.Defs.{Ptr}
use ryan_cache.Lru.Defs.{Time}
use ryan_cache.Lru.Batch.{get_all_data}
use ryan_cache.Cluster.Defs.{DistributedCache, get_node_for_key}
use ryan_cache.Cluster.Methods as Cluster
use ryan_cache.Cluster.Methods.{Order, ClusterError}
use ryan_cache.Http.{
  Http, Response, transport_error, response, status_ok, Wire, with_path, CallError, Attempt,
  returned, errored, request_failed, bad_status, no_target, internal_cache, internal_sync_add,
  internal_sync_remove, Route,
}
use ryan_cache.Http
use ryan_cache.Node.Defs.{
  DistributedNode, forwarded, delete_local, add_cluster_node, remove_cluster_node,
}
use ryan_cache.Node.Manager as Manager
use ryan_cache.Node.Manager.{NodeInfo, ClusterManager, is_healthy_status, get_healthy_nodes}

pub record ClusterCoordinator : Type 0 where
  pub node : DistributedNode
  pub cluster : ClusterManager

-- The operations of a change; any other text is refused.
pub data Operation : Type 0 where
  add remove : Operation
  other_operation : String → Operation

pub record NodeChangeRequest : Type 0 where
  pub node_id : String
  pub address : String
  pub operation : Operation

pub data CoordinatorError : Type 0 where
  remove_failed : ClusterError → CoordinatorError
  too_few_nodes : CoordinatorError

-- What one change reads of the clock, and the orders of its loops over maps.
pub record Run : Type 0 where
  pub now : Time
  pub took : ℕ
  pub order : Order
  pub visit_entries : List (String × Ptr) → List (String × Ptr)
  pub visit_pairs : List (String × String) → List (String × String)
  pub visit_nodes : List (String × NodeInfo) → List (String × NodeInfo)

-- `updateMigrationStats`
unfoldable pub update_migration_stats : Time → ℕ → ℕ → DistributedCache → DistributedCache
update_migration_stats now migrated took ring = record ring {
  basic_migration_stats = record {
    migrated_keys = ring.basic_migration_stats.migrated_keys + migrated;
    duration = ring.basic_migration_stats.duration + took;
    last_migration = now;
  };
}

-- `TriggerRebalance` moves nothing yet.
unfoldable pub trigger_rebalance : ClusterCoordinator → Option CoordinatorError
unfolding get_healthy_nodes
trigger_rebalance cc =
    if ltb (length (get_healthy_nodes cc.cluster.nodes)) 2 then some too_few_nodes else none

module _ (sha1 : String → ℕ → ℕ) where
  -- `hashRing.AddNode`, on the ring of the node.
  unfoldable pub grow_ring : Run → String → DistributedNode → Result DistributedNode
  unfolding Cluster.add_node
  grow_ring run id dn = do
    ring ← Cluster.add_node sha1 run.now run.took run.order id dn.hash_ring
    ok (record dn { hash_ring = ring })

  -- `hashRing.RemoveNode`
  unfoldable pub shrink_ring :
      Run → String → DistributedNode → Result (DistributedNode × Option ClusterError)
  unfolding Cluster.remove_node
  shrink_ring run id dn = do
    (ring, failure) ←
        Cluster.remove_node sha1 run.now run.took run.visit_entries run.visit_pairs id dn.hash_ring
    ok (record dn { hash_ring = ring }, failure)

module _ {W : Type 0} (http : Http W) where
  -- `sendNodeChangeRequest`
  unfoldable pub send_node_change_request : String → String → Operation → W → W × Attempt String
  unfolding forwarded
  send_node_change_request address body add w =
      let (w1, reply) =
        http
          (record { verb = Http.post; address = address; route = internal_sync_add; body = body })
          w in
      (w1, forwarded reply)
  send_node_change_request address body remove w =
      let (w1, reply) =
        http
          (record {
            verb = Http.post;
            address = address;
            route = internal_sync_remove;
            body = body;
          })
          w in
      (w1, forwarded reply)
  send_node_change_request address body (other_operation o) w = (w, errored (no_target o))

  -- The loop of `broadcastNodeChange`: the errors, by node. Only healthy nodes are told.
  unfoldable pub broadcast_to :
      String
      → String
      → Operation
      → List (String × NodeInfo)
      → List (String × CallError)
      → W
      → W × List (String × CallError)
  unfolding send_node_change_request
  broadcast_to self body operation [] errors w = (w, errors)
  broadcast_to self body operation ((id, info) ∷ nodes) errors w =
      let skipped = broadcast_to self body operation nodes errors w in
      let (w1, attempt) = send_node_change_request info.address body operation w in
      let told : W × List (String × CallError) = elim attempt [
        | returned b ↦ broadcast_to self body operation nodes errors w1
        | errored e ↦ broadcast_to self body operation nodes ((id, e) ∷ errors) w1
      ] in
      ite (String_discrete id self) skipped
        (if is_healthy_status info.status then told else skipped)

  -- `broadcastNodeChange`
  unfoldable pub broadcast_node_change :
      (NodeChangeRequest → String)
      → (List (String × NodeInfo) → List (String × NodeInfo))
      → NodeChangeRequest
      → ClusterCoordinator
      → W
      → W × List (String × CallError)
  unfolding broadcast_to
  broadcast_node_change change_body visit request cc w =
      broadcast_to cc.node.node_id (change_body request) request.operation (visit cc.cluster.nodes)
        [] w

  module _ (sha1 : String → ℕ → ℕ) (wire : Wire) where
    -- `migrateKeyToNode`
    unfoldable pub migrate_key_to_node : String → String → String → W → W × Attempt String
    unfolding forwarded
    migrate_key_to_node key value address w = with_path wire key w (λ path.
        let (w1, reply) =
          http
            (record {
              verb = Http.put;
              address = address;
              route = internal_cache path;
              body = wire.write_value value;
            })
            w in
        (w1, forwarded reply))

    -- The loop of `performNetworkDataMigration`, with `migratedCount`.
    unfoldable pub migrate_pairs :
        String
        → String
        → List (String × String)
        → ℕ
        → DistributedNode
        → W
        → Result (DistributedNode × W × ℕ)
    unfolding get_node_for_key migrate_key_to_node delete_local
    migrate_pairs new address [] count dn w = ok (dn, w, count)
    migrate_pairs new address ((key, value) ∷ pairs) count dn w =
        let stay = migrate_pairs new address pairs count dn w in
        let (w1, attempt) = migrate_key_to_node key value address w in
        let move : Result (DistributedNode × W × ℕ) = elim attempt [
          | errored e ↦ migrate_pairs new address pairs count dn w1
          | returned b ↦ do
            dn1 ← delete_local key dn
            migrate_pairs new address pairs (count + 1) dn1 w1
        ] in
        get_node_for_key sha1 key dn.hash_ring >>= λ target.
        ite (String_discrete target new) move stay

    -- `performNetworkDataMigration`
    unfoldable pub perform_network_data_migration :
        Run → String → String → DistributedNode → W → Result (DistributedNode × W)
    unfolding get_all_data migrate_pairs update_migration_stats
    perform_network_data_migration run new address dn w = do
      all ← get_all_data (λ key. run.now) (run.visit_entries dn.local_cache.cache) dn.local_cache
      (dn1, w1, migrated) ← migrate_pairs new address (run.visit_pairs all) 0 dn w
      ok (
        record dn1 { hash_ring = update_migration_stats run.now migrated run.took dn1.hash_ring },
        w1,
      )

    -- `SyncAddNode`
    unfoldable pub sync_add_node :
        Run → String → String → ClusterCoordinator → W → Result (ClusterCoordinator × W)
    unfolding add_cluster_node grow_ring perform_network_data_migration Manager.add_node
    sync_add_node run id address cc w = do
      dn ← add_cluster_node id address cc.node
      dn1 ← grow_ring sha1 run id dn
      (dn2, w1) ← perform_network_data_migration run id address dn1 w
      ok (record { node = dn2; cluster = Manager.add_node run.now id address cc.cluster }, w1)

    -- `SyncRemoveNode`
    unfoldable pub sync_remove_node :
        Run → String → ClusterCoordinator → Result (ClusterCoordinator × Option CoordinatorError)
    unfolding shrink_ring Manager.remove_node
    sync_remove_node run id cc = do
      (dn1, failure) ← shrink_ring sha1 run id cc.node
      elim failure [
        | some e ↦ ok (record cc { node = dn1 }, some (remove_failed e))
        | none ↦ ok (
          record { node = remove_cluster_node id dn1; cluster = Manager.remove_node id cc.cluster },
          none,
        )
      ]

    module _ (change_body : NodeChangeRequest → String) where
      -- `AddNodeToCluster`; an error of the broadcast is only logged.
      unfoldable pub add_node_to_cluster :
          Run → String → String → ClusterCoordinator → W → Result (ClusterCoordinator × W)
      unfolding grow_ring perform_network_data_migration Manager.add_node broadcast_node_change
      add_node_to_cluster run id address cc w = do
        dn1 ← grow_ring sha1 run id cc.node
        (dn2, w1) ← perform_network_data_migration run id address dn1 w
        let cc1 : ClusterCoordinator = record {
          node = dn2;
          cluster = Manager.add_node run.now id address cc.cluster;
        }
        let request : NodeChangeRequest = record {
          node_id = id;
          address = address;
          operation = add;
        }
        let (w2, errors) = broadcast_node_change change_body run.visit_nodes request cc1 w1
        ok (cc1, w2)

      -- `RemoveNodeFromCluster`
      unfoldable pub remove_node_from_cluster :
          Run
          → String
          → ClusterCoordinator
          → W
          → Result (ClusterCoordinator × W × Option CoordinatorError)
      unfolding shrink_ring Manager.remove_node broadcast_node_change
      remove_node_from_cluster run id cc w = do
        (dn1, failure) ← shrink_ring sha1 run id cc.node
        elim failure [
          | some e ↦ ok (record cc { node = dn1 }, w, some (remove_failed e))
          | none ↦
              let cc1 : ClusterCoordinator = record {
                node = dn1;
                cluster = Manager.remove_node id cc.cluster;
              } in
              let request : NodeChangeRequest = record {
                node_id = id;
                address = "";
                operation = remove;
              } in
              let (w1, errors) = broadcast_node_change change_body run.visit_nodes request cc1 w in
              ok (cc1, w1, none)
        ]
