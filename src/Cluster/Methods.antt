-- ===== src/Cluster/Methods.antt =====
-- The methods of core/distributed_cache.go on the caches. Each holds the lock for its whole body, or
-- touches one cache after it has read the map. `now` is the time that a method reads and `took` a
-- duration that it measures; `order` gives the orders in which loops over maps visit.
use ryan_cache.Prelude.{
  ℕ, ◌+◌, String, String_discrete, false, List, [], ◌∷◌, ◌++◌, Option, none, some, ite, Result, ok,
  panic, ◌>>=◌, nil_deref, ℕ_discrete, length, ◌==◌, if◌then◌else◌,
}
use ryan_cache.GoMap.{GoMap, lookup, insert, delete}
use ryan_cache.Lru.Heap.Defs.{Ptr}
use ryan_cache.Lru.Defs.{Time, LruCache, new_lru_cache}
use ryan_cache.Lru.Methods
use ryan_cache.Lru.Methods.{Reply, set_internal}
use ryan_cache.Lru.Batch.{get_all_data}
use ryan_cache.Cluster.Defs.{
  DistributedCache, node_or_empty, hashes_of, ring_index, get_node_for_key, add_node_to_hash_ring,
  remove_node_from_hash_ring, build_hash_ring,
}
use ryan_cache.Cluster.Sorting.{get_or}

-- The errors of these methods: 节点不存在.
pub data ClusterError : Type 0 where
  node_missing : String → ClusterError

-- The orders of the loops, which Go leaves open: over a node's hashes, and at each of these hashes
-- over the hash table of a cache and over the data read from it.
pub record Order : Type 0 where
  pub hashes : List ℕ → List ℕ
  pub entries : ℕ → List (String × Ptr) → List (String × Ptr)
  pub pairs : ℕ → List (String × String) → List (String × String)

abbrev pub local : String → DistributedCache → Option LruCache
local node dc = lookup String_discrete node dc.local_caches

abbrev pub put_local : String → LruCache → DistributedCache → DistributedCache
put_local node c dc = record dc { local_caches = insert String_discrete node c dc.local_caches }

-- `dc.LocalCaches[node].Set(key, value)` and `.Delete(key)`: a missing cache is a nil pointer.
unfoldable pub set_at : String → String → String → DistributedCache → Result DistributedCache
unfolding set_internal
set_at node key value dc = elim (local node dc) [
  | none ↦ panic nil_deref
  | some c ↦ do c1 ← set_internal key value c; ok (put_local node c1 dc)
]

unfoldable pub delete_at : String → String → DistributedCache → Result DistributedCache
unfolding Methods.delete_key
delete_at node key dc = elim (local node dc) [
  | none ↦ panic nil_deref
  | some c ↦ do (c1, found) ← Methods.delete_key key c; ok (put_local node c1 dc)
]

-- The loop of the constructors over the nodes, from a map of caches on.
unfoldable pub make_caches : List String → DistributedCache → Result DistributedCache
unfolding new_lru_cache
make_caches [] dc = ok dc
make_caches (node ∷ nodes) dc = do c ← new_lru_cache 1000; make_caches nodes (put_local node c dc)

-- `removeNodeFromNodes`: the first occurrence goes.
unfoldable pub remove_first : String → List String → List String
remove_first node [] = []
remove_first node (n ∷ nodes) =
    let rest = remove_first node nodes in ite (String_discrete n node) nodes (n ∷ rest)

-- `updateBasicMigrationStats`
unfoldable pub update_basic_migration_stats : Time → ℕ → ℕ → DistributedCache → DistributedCache
update_basic_migration_stats now migrated took dc = record dc {
  basic_migration_stats = record {
    migrated_keys = dc.basic_migration_stats.migrated_keys + migrated;
    duration = took;
    last_migration = now;
  };
}

-- `findResponsibleNodeInOldRing`: the old hashes, with the nodes of the ring of today.
unfoldable pub find_responsible_node_in_old_ring : ℕ → List ℕ → DistributedCache → String
unfolding ring_index node_or_empty
find_responsible_node_in_old_ring hash old dc =
    if length old == 0
    then ""
    else node_or_empty (lookup ℕ_discrete (get_or old (ring_index hash old) 0) dc.hash_ring)

-- The sums of `GetStats`: hits, misses and sizes.
unfoldable pub sum_stats : GoMap String LruCache → ℕ × ℕ × ℕ
sum_stats [] = (0, 0, 0)
sum_stats ((node, c) ∷ caches) =
    let (hits, misses, size) = sum_stats caches in
    (c.stats.hits + hits, c.stats.misses + misses, c.size + size)

module _ (sha1 : String → ℕ → ℕ) where
  -- `NewDistributedCacheWithVirtualNodes`
  unfoldable pub new_distributed_cache_with_virtual_nodes :
      List String → ℕ → Result DistributedCache
  unfolding build_hash_ring make_caches
  new_distributed_cache_with_virtual_nodes nodes count = make_caches nodes (
      build_hash_ring sha1 record {
        hash_ring = [];
        nodes = nodes;
        virtual_nodes = count;
        sorted_hashes = [];
        local_caches = [];
        basic_migration_stats = record { migrated_keys = 0; duration = 0; last_migration = 0 };
      })

  -- `NewDistributedCache`
  unfoldable pub new_distributed_cache : List String → Result DistributedCache
  unfolding new_distributed_cache_with_virtual_nodes
  new_distributed_cache nodes = new_distributed_cache_with_virtual_nodes nodes 150

  -- `Set`
  unfoldable pub set :
      String → String → DistributedCache → Result (DistributedCache × Option ClusterError)
  unfolding get_node_for_key set_internal
  set key value dc = do
    node ← get_node_for_key sha1 key dc
    elim (local node dc) [
      | none ↦ ok (dc, some (node_missing node))
      | some c ↦ do c1 ← set_internal key value c; ok (put_local node c1 dc, none)
    ]

  -- `Get`
  unfoldable pub get :
      Time → String → DistributedCache → Result (DistributedCache × Reply × Option ClusterError)
  unfolding get_node_for_key Methods.get
  get now key dc = do
    node ← get_node_for_key sha1 key dc
    elim (local node dc) [
      | none ↦ ok (dc, ("", false), some (node_missing node))
      | some c ↦ do (c1, reply) ← Methods.get now key c; ok (put_local node c1 dc, reply, none)
    ]

  -- `Delete`
  unfoldable pub delete_key :
      String → DistributedCache → Result (DistributedCache × Option ClusterError)
  unfolding get_node_for_key Methods.delete_key
  delete_key key dc = do
    node ← get_node_for_key sha1 key dc
    elim (local node dc) [
      | none ↦ ok (dc, some (node_missing node))
      | some c ↦ do (c1, found) ← Methods.delete_key key c; ok (put_local node c1 dc, none)
    ]

  -- The inner loop of `migrateDataForAddedNode`, with `migratedCount`.
  unfoldable pub migrate_keys :
      String
      → String
      → List (String × String)
      → ℕ
      → DistributedCache
      → Result (DistributedCache × ℕ)
  unfolding get_node_for_key set_at delete_at
  migrate_keys new old [] count dc = ok (dc, count)
  migrate_keys new old ((key, value) ∷ pairs) count dc =
      let stay = migrate_keys new old pairs count dc in
      let move =
        set_at new key value dc >>= delete_at old key >>= migrate_keys new old pairs (count + 1) in
      get_node_for_key sha1 key dc >>= λ node. ite (String_discrete node new) move stay

  -- The outer loop, over the hashes of the new node.
  unfoldable pub migrate_hashes :
      Time → Order → String → List ℕ → List ℕ → ℕ → DistributedCache → Result (DistributedCache × ℕ)
  unfolding find_responsible_node_in_old_ring get_all_data migrate_keys
  migrate_hashes now order new old_hashes [] count dc = ok (dc, count)
  migrate_hashes now order new old_hashes (hash ∷ hashes) count dc =
      let old = find_responsible_node_in_old_ring hash old_hashes dc in
      let skip = migrate_hashes now order new old_hashes hashes count dc in
      let rest =
        λ (p : DistributedCache × ℕ). migrate_hashes now order new old_hashes hashes p.1 p.0 in
      let scan = λ (c : LruCache).
        get_all_data (λ key. now) (order.entries hash c.cache) c >>= λ all.
        migrate_keys new old (order.pairs hash all) count dc >>= rest in
      ite (String_discrete old "") skip
        (ite (String_discrete old new) skip (elim (local old dc) [ none ↦ skip | some c ↦ scan c ]))

  -- `migrateDataForAddedNode`
  unfoldable pub migrate_data_for_added_node :
      Time → Order → String → List ℕ → DistributedCache → Result (DistributedCache × ℕ)
  unfolding hashes_of migrate_hashes
  migrate_data_for_added_node now order new old_hashes dc =
      migrate_hashes now order new old_hashes (order.hashes (hashes_of new dc.hash_ring)) 0 dc

  -- `AddNode`
  unfoldable pub add_node : Time → ℕ → Order → String → DistributedCache → Result DistributedCache
  unfolding new_lru_cache add_node_to_hash_ring migrate_data_for_added_node
      update_basic_migration_stats
  add_node now took order node dc = do
    c ← new_lru_cache 1000
    let dc1 = put_local node c (record dc { nodes = dc.nodes ++ node ∷ [] })
    (dc2, migrated) ←
        migrate_data_for_added_node now order node dc.sorted_hashes
          (add_node_to_hash_ring sha1 node dc1)
    ok (update_basic_migration_stats now migrated took dc2)

  -- `redistributeDataBasic`
  unfoldable pub redistribute_data_basic :
      List (String × String) → ℕ → DistributedCache → Result (DistributedCache × ℕ)
  unfolding get_node_for_key set_at
  redistribute_data_basic [] count dc = ok (dc, count)
  redistribute_data_basic ((key, value) ∷ pairs) count dc =
      let skip = redistribute_data_basic pairs count dc in
      let store =
        λ (node : String). set_at node key value dc >>= redistribute_data_basic pairs (count + 1) in
      get_node_for_key sha1 key dc >>= λ node. elim (local node dc) [
        | none ↦ skip
        | some c ↦ store node
      ]

  -- `RemoveNode`
  unfoldable pub remove_node :
      Time
      → ℕ
      → (List (String × Ptr) → List (String × Ptr))
      → (List (String × String) → List (String × String))
      → String
      → DistributedCache
      → Result (DistributedCache × Option ClusterError)
  unfolding get_all_data remove_first remove_node_from_hash_ring redistribute_data_basic
      update_basic_migration_stats
  remove_node now took visit_entries visit_pairs node dc = elim (local node dc) [
    | none ↦ ok (dc, some (node_missing node))
    | some c ↦ do
      all ← get_all_data (λ key. now) (visit_entries c.cache) c
      let dc1 = record dc {
        nodes = remove_first node dc.nodes;
        local_caches = delete String_discrete node dc.local_caches;
      }
      (dc2, migrated) ←
          redistribute_data_basic (visit_pairs all) 0 (remove_node_from_hash_ring node dc1)
      ok (update_basic_migration_stats now migrated took dc2, none)
  ]
