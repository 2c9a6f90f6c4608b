-- ===== src/Cluster/Defs.antt =====
-- The state and the hash ring of core/distributed_cache.go. SHA-1 is a parameter: the bytes of a
-- digest. A hash is a `uint32`, and sums of it wrap at 2 ^ 32. The number of virtual nodes is a
-- natural; a negative one behaves as 0 in the code.
use ryan_cache.Prelude.{
  ℕ, zero, suc, ◌+◌, ◌*◌, ◌%◌, ◌^◌, String, String_discrete, ℕ_discrete, List, [], ◌∷◌, ◌++◌,
  Option, none, some, ite, Result, ok, panic, index_range, leb, ◌==◌, if◌then◌else◌, length, concat,
  itoa,
}
use ryan_cache.GoMap.{GoMap, lookup, insert, delete}
use ryan_cache.Lru.Defs.{Time, LruCache}
use ryan_cache.Cluster.Search.{sort_search}
use ryan_cache.Cluster.Sorting.{sort, get_or}

pub record BasicMigrationStats : Type 0 where
  pub migrated_keys : ℕ
  pub duration : ℕ
  pub last_migration : Time

-- The caches are reached from `local_caches` alone, each under one name, so that the map holds them
-- by value.
pub record DistributedCache : Type 0 where
  pub hash_ring : GoMap ℕ String
  pub nodes : List String
  pub virtual_nodes : ℕ
  pub sorted_hashes : List ℕ
  pub local_caches : GoMap String LruCache
  pub basic_migration_stats : BasicMigrationStats

-- `m[h]` on the ring: the empty string where the hash is missing.
unfoldable pub node_or_empty : Option String → String
node_or_empty none = ""
node_or_empty (some n) = n

-- The hashes that are kept: those whose node on the ring is not the empty string.
unfoldable pub keep_hashes : GoMap ℕ String → List ℕ → List ℕ
unfolding lookup node_or_empty
keep_hashes ring [] = []
keep_hashes ring (h ∷ hs) =
    let rest = keep_hashes ring hs in
    ite (String_discrete (node_or_empty (lookup ℕ_discrete h ring)) "") rest (h ∷ rest)

-- The first loop of `removeNodeFromHashRing`: the hashes of a node.
unfoldable pub hashes_of : String → GoMap ℕ String → List ℕ
hashes_of node [] = []
hashes_of node ((h, n) ∷ ring) =
    let rest = hashes_of node ring in ite (String_discrete n node) (h ∷ rest) rest

-- The second loop; the order of the hashes does not matter to what is left.
unfoldable pub delete_hashes : List ℕ → GoMap ℕ String → GoMap ℕ String
delete_hashes [] ring = ring
delete_hashes (h ∷ hs) ring = delete_hashes hs (delete ℕ_discrete h ring)

-- `removeNodeFromHashRing`
unfoldable pub remove_node_from_hash_ring : String → DistributedCache → DistributedCache
unfolding keep_hashes hashes_of delete_hashes
remove_node_from_hash_ring node dc =
    let ring = delete_hashes (hashes_of node dc.hash_ring) dc.hash_ring in
    record dc { hash_ring = ring; sorted_hashes = keep_hashes ring dc.sorted_hashes }

-- The index into the sorted hashes, past the end wrapping to the first.
unfoldable pub ring_index : ℕ → List ℕ → ℕ
unfolding sort_search
ring_index hash hashes =
    let idx = sort_search (length hashes) (λ i. leb hash (get_or hashes i 0)) in
    if idx == length hashes then 0 else idx

-- The end of `getNodeForKeyUnsafe`: an index into an empty list is a fault.
unfoldable pub node_at : ℕ → DistributedCache → Result String
node_at idx dc =
    if leb (length dc.sorted_hashes) idx
    then panic index_range
    else ok (node_or_empty (lookup ℕ_discrete (get_or dc.sorted_hashes idx 0) dc.hash_ring))

module _ (sha1 : String → ℕ → ℕ) where
  -- `hashKey`
  unfoldable pub hash_key : String → ℕ
  hash_key key =
      (sha1 key 0 * 2 ^ 24 + sha1 key 1 * 2 ^ 16 + sha1 key 2 * 2 ^ 8 + sha1 key 3) % 2 ^ 32

  -- The loop of `addNodeToHashRing`, from round `i` on.
  unfoldable pub add_virtual_nodes : ℕ → String → ℕ → DistributedCache → DistributedCache
  add_virtual_nodes zero node i dc = dc
  add_virtual_nodes (suc rounds) node i dc =
      let hash = hash_key (concat (concat node "#") (itoa i)) in
      add_virtual_nodes rounds node (i + 1) (record dc {
        hash_ring = insert ℕ_discrete hash node dc.hash_ring;
        sorted_hashes = dc.sorted_hashes ++ hash ∷ [];
      })

  -- `addNodeToHashRing`
  unfoldable pub add_node_to_hash_ring : String → DistributedCache → DistributedCache
  unfolding add_virtual_nodes
  add_node_to_hash_ring node dc =
      let dc1 = add_virtual_nodes dc.virtual_nodes node 0 dc in
      record dc1 { sorted_hashes = sort dc1.sorted_hashes }

  unfoldable pub add_nodes : List String → DistributedCache → DistributedCache
  unfolding add_node_to_hash_ring
  add_nodes [] dc = dc
  add_nodes (node ∷ nodes) dc = add_nodes nodes (add_node_to_hash_ring node dc)

  -- `buildHashRing`
  unfoldable pub build_hash_ring : DistributedCache → DistributedCache
  unfolding add_nodes
  build_hash_ring dc = add_nodes dc.nodes (record dc { hash_ring = []; sorted_hashes = [] })

  -- `getNodeForKeyUnsafe`, and `GetNodeForKey`, which takes the lock around it.
  unfoldable pub get_node_for_key : String → DistributedCache → Result String
  unfolding hash_key ring_index node_at
  get_node_for_key key dc = node_at (ring_index (hash_key key) dc.sorted_hashes) dc
