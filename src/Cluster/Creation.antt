-- ===== src/Cluster/Creation.antt =====
-- A new cache of core/distributed_cache.go is ready for use.
use ryan_cache.Prelude.{
  ℕ, zero, suc, ◌+◌, ◌<◌, String, String_discrete, ◌≡◌, refl, sym, ◌∙◌, ◌⊎◌, inl, inr, List, [],
  ◌∷◌, some, arith, ok, Fresh, concat, itoa,
}
use ryan_cache.GoMap.{GoMap, lookup, insert, lookup-insert}
use ryan_cache.Lru.Defs.{LruCache, new_lru_cache, empty_cache}
use ryan_cache.Lru.Refine.Creation.{empty-Reps}
use ryan_cache.Cluster.Sorting.{In, append-In_right, sort-In}
use ryan_cache.Cluster.Defs.{
  DistributedCache, hash_key, add_virtual_nodes, add_node_to_hash_ring, add_nodes, build_hash_ring,
}
use ryan_cache.Cluster.Maps.{at}
use ryan_cache.Cluster.Routing.{In-nonempty}
use ryan_cache.Cluster.Ring.{
  empty_at, put, add_node_at, add_node-In, add_virtual_nodes-In, build_hash_ring-IsRing,
}
use ryan_cache.Cluster.Methods.{put_local, make_caches, new_distributed_cache_with_virtual_nodes}
use ryan_cache.Cluster.Service.{IsPlain, IsReady}

abbrev pub Has : String → List String → Type 0
Has n [] = ⊥
Has n (m ∷ ms) = (m ≡ n) ⊎ Has n ms

pub empty-IsPlain : IsPlain (empty_cache 1000)
empty-IsPlain = record {
  nodes = [];
  reps = empty-Reps 1000;
  valid = record {
    positive = omega arith;
    bounded = omega arith;
    distinct = tt;
    charged = omega arith;
  };
  no_expiry = refl;
  no_limit = refl;
}

abbrev HasCache : String → GoMap String LruCache → Type 0
HasCache n m = (c : LruCache) × (lookup String_discrete n m ≡ some c) × IsPlain c

insert-HasCache :
    (node n : String) (m : GoMap String LruCache)
    → (node ≡ n) ⊎ HasCache n m
    → HasCache n (insert String_discrete node (empty_cache 1000) m)
insert-HasCache node n m h = elim (String_discrete node n) [
  | yes p ↦ (
    empty_cache 1000,
    ground (arith, lookup-insert String_discrete node n (empty_cache 1000) m),
    empty-IsPlain,
  )
  | no p ↦ elim h [
    | inl e ↦ absurd (p e)
    | inr (c, e, plain) ↦
        (c, ground (arith, lookup-insert String_discrete node n (empty_cache 1000) m), plain)
  ]
]

-- The loop of the constructors gives every node a cache and changes nothing else.
make_caches-HasCache :
    (nodes : List String) (dc : DistributedCache)
    → (m : GoMap String LruCache) × (make_caches nodes dc ≡ ok (record dc { local_caches = m }))
      × ((n : String) → Has n nodes ⊎ HasCache n dc.local_caches → HasCache n m)
unfolding make_caches new_lru_cache
make_caches-HasCache [] dc = (dc.local_caches, refl, λ n h. elim h [ inl b ↦ absurd b | inr c ↦ c ])
make_caches-HasCache (node ∷ nodes) dc =
    let (m, ran, has) = make_caches-HasCache nodes (put_local node (empty_cache 1000) dc) in
    (
      m,
      ran,
      λ n h. has n (elim h [
        | inl (inl e) ↦ inr (insert-HasCache node n dc.local_caches (inl e))
        | inl (inr j) ↦ inl j
        | inr c ↦ inr (insert-HasCache node n dc.local_caches (inr c))
      ]),
    )

module _ (sha1 : String → ℕ → ℕ) where
  pub add_nodes-Has :
      (nodes : List String) (dc : DistributedCache) (h : ℕ) (n : String)
      → at h (add_nodes sha1 nodes dc).hash_ring ≡ some n
      → Has n nodes ⊎ (at h dc.hash_ring ≡ some n)
  unfolding add_nodes
  add_nodes-Has [] dc h n e = inr e
  add_nodes-Has (node ∷ nodes) dc h n e =
      elim (add_nodes-Has nodes (add_node_to_hash_ring sha1 node dc) h n e) [
        | inl j ↦ inl (inr j)
        | inr f ↦ elim (add_node_at sha1 node dc h) [
          | inl q ↦ inl (inl (cc (q, f)))
          | inr q ↦ inr (sym q ∙ f)
        ]
      ]

  add_nodes-In :
      (nodes : List String) (dc : DistributedCache) (h : ℕ)
      → In h dc.sorted_hashes
      → In h (add_nodes sha1 nodes dc).sorted_hashes
  unfolding add_nodes
  add_nodes-In [] dc h i = i
  add_nodes-In (node ∷ nodes) dc h i =
      add_nodes-In nodes (add_node_to_hash_ring sha1 node dc) h (add_node-In sha1 node dc h i)

  abbrev first_hash : String → ℕ
  first_hash node = hash_key sha1 (concat (concat node "#") (itoa 0))

  add_node-first :
      (node : String) (dc : DistributedCache)
      → 0 < dc.virtual_nodes
      → In (first_hash node) (add_node_to_hash_ring sha1 node dc).sorted_hashes
  unfolding add_node_to_hash_ring
  add_node-first node dc lt = sort-In _ _ (loop dc.virtual_nodes lt)
    where
      loop :
          (rounds : ℕ)
          → 0 < rounds
          → In (first_hash node) (add_virtual_nodes sha1 rounds node 0 dc).sorted_hashes
      loop zero lt = absurd (omega arith)
      loop (suc rounds) lt =
          unfold add_virtual_nodes in
          add_virtual_nodes-In sha1 node rounds 1 _ (first_hash node)
            (append-In_right (first_hash node) dc.sorted_hashes _ (inl refl))

  add_virtual_nodes-nodes :
      (rounds i : ℕ) (node : String) (dc : DistributedCache)
      → (add_virtual_nodes sha1 rounds node i dc).nodes ≡ dc.nodes
  unfolding add_virtual_nodes
  add_virtual_nodes-nodes zero i node dc = refl
  add_virtual_nodes-nodes (suc rounds) i node dc =
      add_virtual_nodes-nodes rounds (i + 1) node (put _ node dc)

  add_nodes-nodes :
      (nodes : List String) (dc : DistributedCache) → (add_nodes sha1 nodes dc).nodes ≡ dc.nodes
  unfolding add_nodes add_node_to_hash_ring
  add_nodes-nodes [] dc = refl
  add_nodes-nodes (node ∷ nodes) dc =
      add_nodes-nodes nodes (add_node_to_hash_ring sha1 node dc)
      ∙ add_virtual_nodes-nodes dc.virtual_nodes 0 node dc

  -- The first virtual node of the first node is on the ring that is built.
  build-first :
      (node : String) (nodes : List String) (dc : DistributedCache)
      → 0 < dc.virtual_nodes
      → In (first_hash node) (add_nodes sha1 (node ∷ nodes) dc).sorted_hashes
  unfolding add_nodes
  build-first node nodes dc lt =
      add_nodes-In nodes (add_node_to_hash_ring sha1 node dc) (first_hash node)
        (add_node-first node dc lt)

  -- A cache built from a first node and others, all with names, and at least one virtual node for
  -- each is ready: its ring is consistent and not empty, and every node on it has a new local cache.
  pub new_distributed_cache-IsReady :
      (node : String) (nodes : List String) (count : ℕ)
      → Fresh "" (node ∷ nodes)
      → 0 < count
      → (dc : DistributedCache) × (new_distributed_cache_with_virtual_nodes sha1
            (node ∷ nodes)
            count
          ≡ ok dc)
        × (dc.nodes ≡ node ∷ nodes)
        × IsReady dc
  unfolding new_distributed_cache_with_virtual_nodes build_hash_ring
  new_distributed_cache-IsReady node nodes count named lt =
      let start : DistributedCache = record {
        hash_ring = [];
        nodes = node ∷ nodes;
        virtual_nodes = count;
        sorted_hashes = [];
        local_caches = [];
        basic_migration_stats = record { migrated_keys = 0; duration = 0; last_migration = 0 };
      } in
      let built = build_hash_ring sha1 start in
      let (m, ran, has) = make_caches-HasCache (node ∷ nodes) built in
      let r = build_hash_ring-IsRing sha1 start named in
      (
        record built { local_caches = m },
        ran,
        add_nodes-nodes (node ∷ nodes) start,
        record {
          ring = record {
            filled = record {
              distinct = r.filled.distinct;
              on_ring = r.filled.on_ring;
              listed = r.filled.listed;
            };
            sorted = r.sorted;
          };
          inhabited = In-nonempty (first_hash node) _ (build-first node nodes start lt);
          cached = λ h n e. has n (elim (add_nodes-Has (node ∷ nodes) start h n e) [
            | inl j ↦ inl j
            | inr b ↦ absurd (empty_at h n b)
          ]);
        },
      )
