-- ===== src/Cluster/Service.antt =====
-- What a user of core/distributed_cache.go can rely on while no node comes or goes.
use ryan_cache.Prelude.{
  ℕ, ◌<◌, ◌≡◌, refl, ◌∙◌, true, Bool, String, String_discrete, List, none, some, arith, ok, length,
}
use ryan_cache.GoMap.{lookup-insert}
use ryan_cache.Lru.Heap.Defs.{Ptr}
use ryan_cache.Lru.Defs.{Time, LruCache}
use ryan_cache.Lru.Methods
use ryan_cache.Lru.Methods.{Reply, set_internal, is_expired, ttl_lookup}
use ryan_cache.Lru.Model.{view, IsValid}
use ryan_cache.Lru.Reps.{Reps}
use ryan_cache.Lru.Behaviour.{Fits, IsLive}
use ryan_cache.Lru.Behaviour
use ryan_cache.Cluster.Defs.{DistributedCache, get_node_for_key, node_at}
use ryan_cache.Cluster.Maps.{at}
use ryan_cache.Cluster.Ring.{IsRing}
use ryan_cache.Cluster.Routing.{get_node_for_key_lem, to_routed}
use ryan_cache.Cluster.Methods as Cluster
use ryan_cache.Cluster.Methods.{ClusterError, local, put_local}

-- A local cache as the constructors make it: well-formed, with no expiry times and no memory limit.
pub record IsPlain (c : LruCache) : Type 0 where
  pub nodes : List Ptr
  pub reps : Reps c nodes
  pub valid : IsValid (view c nodes)
  pub no_expiry : c.ttl_map ≡ none
  pub no_limit : c.memory_limit ≡ 0

-- A consistent ring that is not empty, and a plain cache for every node on it.
pub record IsReady (dc : DistributedCache) : Type 0 where
  pub ring : IsRing dc
  pub inhabited : 0 < length dc.sorted_hashes
  pub cached :
      (h : ℕ) (node : String)
      → at h dc.hash_ring ≡ some node
      → (c : LruCache) × (local node dc ≡ some c) × IsPlain c

pub local-put_same :
    (node : String) (c : LruCache) (dc : DistributedCache)
    → local node (put_local node c dc) ≡ some c
local-put_same node c dc = ground (arith, lookup-insert String_discrete node node c dc.local_caches)

pub plain-Fits : (k x : String) (c : LruCache) → IsPlain c → Fits k x c
plain-Fits k x c p = rw p.no_limit refl

pub plain-IsLive : (now : Time) (k : String) (c : LruCache) → IsPlain c → IsLive now k c
unfolding is_expired ttl_lookup
plain-IsLive now k c p = rw p.no_expiry refl

-- Each method, once the node, its cache and the answer of that cache are known.
module _ (sha1 : String → ℕ → ℕ) (key node : String) (dc : DistributedCache) (c c1 : LruCache) where
  pub set_on :
      (value : String)
      → get_node_for_key sha1 key dc ≡ ok node
      → local node dc ≡ some c
      → set_internal key value c ≡ ok c1
      → Cluster.set sha1 key value dc ≡ ok (put_local node c1 dc, none)
  unfolding Cluster.set
  set_on value e ec ran = ground (arith, e, ec, ran)

  pub get_on :
      (now : Time) (reply : Reply)
      → get_node_for_key sha1 key dc ≡ ok node
      → local node dc ≡ some c
      → Methods.get now key c ≡ ok (c1, reply)
      → Cluster.get sha1 now key dc ≡ ok (put_local node c1 dc, reply, none)
  unfolding Cluster.get
  get_on now reply e ec ran = ground (arith, e, ec, ran)

  pub delete_on :
      (found : Bool)
      → get_node_for_key sha1 key dc ≡ ok node
      → local node dc ≡ some c
      → Methods.delete_key key c ≡ ok (c1, found)
      → Cluster.delete_key sha1 key dc ≡ ok (put_local node c1 dc, none)
  unfolding Cluster.delete_key
  delete_on found e ec ran = ground (arith, e, ec, ran)

-- The node of a key does not depend on the caches.
put_local-node :
    (sha1 : String → ℕ → ℕ) (key node : String) (c : LruCache) (dc : DistributedCache)
    → get_node_for_key sha1 key (put_local node c dc) ≡ get_node_for_key sha1 key dc
unfolding get_node_for_key node_at
put_local-node sha1 key node c dc = refl

module _ (sha1 : String → ℕ → ℕ) (now : Time) (key value : String) (dc : DistributedCache) where
  -- In a cluster with a consistent ring that is not empty, and a well-formed cache for each of its
  -- nodes, a value is read back right after it is set: both calls answer without a fault and without
  -- an error.
  pub get-set_cluster :
      IsReady dc
      → (dc1 : DistributedCache) × (dc2 : DistributedCache) × (Cluster.set sha1 key value dc
          ≡ ok (dc1, none))
        × (Cluster.get sha1 now key dc1 ≡ ok (dc2, (value, true), none))
  get-set_cluster ready =
      let (node, e) = (get_node_for_key_lem sha1 key dc ready.ring).1 ready.inhabited in
      let (s, o, es) = to_routed sha1 key dc ready.ring node e in
      let (c, ec, plain) = ready.cached s node es in
      let (c1, c2, ran, ran2) =
        Behaviour.get-set now key value c plain.nodes plain.reps plain.valid
          (plain-Fits key value c plain) (plain-IsLive now key c plain) in
      (
        put_local node c1 dc,
        put_local node c2 (put_local node c1 dc),
        set_on sha1 key node dc c c1 value e ec ran,
        get_on sha1 key node (put_local node c1 dc) c1 c2 now (value, true)
            (put_local-node sha1 key node c1 dc ∙ e) (local-put_same node c1 dc) ran2,
      )
