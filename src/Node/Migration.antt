-- ===== src/Node/Migration.antt =====
-- The network migration of distributed/cluster_coordinator.go loses no entry.
use ryan_cache.Prelude.{ℕ, ◌<◌, ◌≡◌, ◌⊎◌, String, List, [], ◌∷◌, Option, Result, ok, length}
use ryan_cache.Lru.Defs.{LruCache}
use ryan_cache.Cluster.Defs.{get_node_for_key}
use ryan_cache.Cluster.Ring.{IsRing}
use ryan_cache.Cluster.Service.{IsPlain}
use ryan_cache.Http.{Http, Wire, returned}
use ryan_cache.Node.Defs.{DistributedNode}
use ryan_cache.Node.Local.{held}
use ryan_cache.Node.Coordinator.{migrate_key_to_node, migrate_pairs}

abbrev pub Pairs : Type 0
Pairs = List (String × String)

abbrev pub Has : String → String → Pairs → Type 0
Has k x [] = ⊥
Has k x ((j, y) ∷ pairs) = ((j ≡ k) × (y ≡ x)) ⊎ Has k x pairs

-- A node that can route and that keeps a plain cache.
pub record CanRoute (dn : DistributedNode) : Type 0 where
  pub ring : IsRing dn.hash_ring
  pub inhabited : 0 < length dn.hash_ring.sorted_hashes
  pub plain : IsPlain dn.local_cache

module _ {W : Type 0} (http : Http W) (sha1 : String → ℕ → ℕ) (wire : Wire)
    (new address : String) where
  -- The new node answered the transfer of a value of the key.
  abbrev pub IsSent : String → Pairs → Type 0
  IsSent k pairs =
      (x : String) × (w : W) × (w1 : W) × (body : String) × Has k x pairs
      × (migrate_key_to_node http sha1 wire k x address w ≡ (w1, returned body))

  -- An entry is there still, or the ring gives its key to the new node and that has answered.
  abbrev pub IsSafe : DistributedNode → Pairs → Option String → Option String → String → Type 0
  IsSafe dn pairs before after k =
      (after ≡ before) ⊎ ((get_node_for_key sha1 k dn.hash_ring ≡ ok new) × IsSent k pairs)

  -- One round, by what the ring says and the network answers.
  module _ (key value : String) (pairs : Pairs) (count : ℕ) (dn : DistributedNode) (w : W) where
    abbrev loop : ℕ → DistributedNode → W → Result (DistributedNode × W × ℕ)
    loop = migrate_pairs http sha1 wire new address pairs

  -- What a migration of some pairs promises.
  abbrev pub Migrates : Pairs → ℕ → (dn : DistributedNode) → CanRoute dn → W → Type 0
  Migrates pairs count dn r w =
      (c1 : LruCache) × (w1 : W) × (migrated : ℕ) × (p1 : IsPlain c1) × (migrate_pairs http sha1
          wire new address pairs count dn w
        ≡ ok (record dn { local_cache = c1 }, w1, migrated))
      × ((k : String) → IsSafe dn pairs (held dn.local_cache r.plain k) (held c1 p1 k) k)
