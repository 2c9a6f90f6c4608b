-- ===== src/Cluster/Departures.antt =====
-- Where core/distributed_cache.go departs from what its comments promise, in a cluster of one node.
use ryan_cache.Prelude.{
  ℕ, zero, suc, ◌+◌, ◌≡◌, refl, sym, ap, ◌∙◌, subst, ◌⊎◌, inl, inr, String, String_discrete, List,
  [], ◌∷◌, ◌++◌, none, some, Option-cases, arith, ok, panic, index_range, Bool-cases, length, ◌==◌,
}
use ryan_cache.GoMap.{lookup, delete}
use ryan_cache.Lru.Heap.Defs.{Ptr}
use ryan_cache.Lru.Defs.{Time, LruCache, new_lru_cache, empty_cache}
use ryan_cache.Lru.Batch.{get_all_data}
use ryan_cache.Cluster.Sorting.{In, get_or}
use ryan_cache.Cluster.Defs.{
  DistributedCache, add_virtual_nodes, node_or_empty, hashes_of, ring_index, add_node_to_hash_ring,
  remove_node_from_hash_ring,
}
use ryan_cache.Cluster.Maps.{at}
use ryan_cache.Cluster.Ring.{put, IsRing, add_node_at, remove_node_at, remove_node-IsRing}
use ryan_cache.Cluster.Routing.{get_node_for_key_lem}
use ryan_cache.Cluster.Service.{local-put_same}
use ryan_cache.Cluster.Methods.{
  remove_first, Order, local, put_local, find_responsible_node_in_old_ring, migrate_hashes,
  migrate_data_for_added_node, add_node, redistribute_data_basic, remove_node,
  update_basic_migration_stats,
}

-- Every hash on the ring is the node's.
abbrev pub IsAlone : String → DistributedCache → Type 0
IsAlone node dc = (h : ℕ) (n : String) → at h dc.hash_ring ≡ some n → n ≡ node

nothing-In : (hs : List ℕ) → ((h : ℕ) → In h hs → ⊥) → hs ≡ []
nothing-In [] f = refl
nothing-In (x ∷ hs) f = absurd (f x (inl refl))

-- Without its only node, the ring is empty.
alone-empty :
    (node : String) (dc : DistributedCache)
    → IsRing dc
    → IsAlone node dc
    → (remove_node_from_hash_ring node dc).sorted_hashes ≡ []
alone-empty node dc r alone = nothing-In _ (λ h i.
    let (n, e, ne) = (remove_node-IsRing node dc r).filled.on_ring h i in
    let (f, other) = (remove_node_at node dc r h n).0 e in other (alone h n f))

module _ (sha1 : String → ℕ → ℕ) (now : Time) (took : ℕ) (node : String)
    (dc : DistributedCache) where
  redistribute-empty :
      (pair : String × String) (pairs : List (String × String)) (d : DistributedCache)
      → IsRing d
      → d.sorted_hashes ≡ []
      → redistribute_data_basic sha1 (pair ∷ pairs) 0 d ≡ panic index_range
  unfolding redistribute_data_basic
  redistribute-empty (key, value) pairs d r e =
      ground (arith, (get_node_for_key_lem sha1 key d r).2 e)

  -- Where the only node of a consistent ring is removed while its cache holds an entry, the removal
  -- panics with an index out of range: there is no node left to ask for.
  pub remove_node-last_panics :
      (visit_entries : List (String × Ptr) → List (String × Ptr))
      (visit_pairs : List (String × String) → List (String × String)) (c : LruCache)
      (all : List (String × String)) (pair : String × String) (pairs : List (String × String))
      → IsRing dc
      → IsAlone node dc
      → local node dc ≡ some c
      → get_all_data (λ key. now) (visit_entries c.cache) c ≡ ok all
      → visit_pairs all ≡ pair ∷ pairs
      → remove_node sha1 now took visit_entries visit_pairs node dc ≡ panic index_range
  unfolding remove_node
  remove_node-last_panics visit_entries visit_pairs c all pair pairs r alone here read visited =
      let dc1 = record dc {
        nodes = remove_first node dc.nodes;
        local_caches = delete String_discrete node dc.local_caches;
      } in
      let r1 : IsRing dc1 = record {
        filled = record {
          distinct = r.filled.distinct;
          on_ring = r.filled.on_ring;
          listed = r.filled.listed;
        };
        sorted = r.sorted;
      } in
      let left = remove_node_from_hash_ring node dc1 in
      let stops : redistribute_data_basic sha1 (visit_pairs all) 0 left ≡ panic index_range =
        subst (λ ps. redistribute_data_basic sha1 ps 0 left ≡ panic index_range) (sym visited)
          (redistribute-empty pair pairs left (remove_node-IsRing node dc1 r1)
            (alone-empty node dc1 r1 alone)) in
      ground (arith, here, read, stops)

  -- The old node of a hash is the only node, or none.
  old-alone :
      (hash : ℕ) (old : List ℕ) (d : DistributedCache)
      → ((h : ℕ) → (at h d.hash_ring ≡ some node) ⊎ (at h d.hash_ring ≡ none))
      → (find_responsible_node_in_old_ring hash old d ≡ node)
        ⊎ (find_responsible_node_in_old_ring hash old d ≡ "")
  unfolding find_responsible_node_in_old_ring node_or_empty
  old-alone hash old d f = elim (Bool-cases (length old == 0)) [
    | inl e ↦ rw e (inr refl)
    | inr e ↦ elim (f (get_or old (ring_index hash old) 0)) [
      | inl q ↦ rw (e, q) (inl refl)
      | inr q ↦ rw (e, q) (inr refl)
    ]
  ]

  migrate-alone :
      (order : Order) (old hashes : List ℕ) (count : ℕ) (d : DistributedCache)
      → ((h : ℕ) → (at h d.hash_ring ≡ some node) ⊎ (at h d.hash_ring ≡ none))
      → migrate_hashes sha1 now order node old hashes count d ≡ ok (d, count)
  unfolding migrate_hashes
  migrate-alone order old [] count d f = refl
  migrate-alone order old (hash ∷ hashes) count d f =
      let ih = migrate-alone order old hashes count d f in
      elim (old-alone hash old d f) [
        | inl e ↦ ground (arith, ih, e)
        | inr e ↦ ground (arith, ih, e)
      ]

  grown_at :
      (d : DistributedCache)
      → IsAlone node d
      → (h : ℕ)
      → (at h (add_node_to_hash_ring sha1 node d).hash_ring ≡ some node)
        ⊎ (at h (add_node_to_hash_ring sha1 node d).hash_ring ≡ none)
  grown_at d alone h = elim (add_node_at sha1 node d h) [
    | inl q ↦ inl q
    | inr q ↦ elim (Option-cases (at h d.hash_ring)) [
      | inl e ↦ inr (q ∙ e)
      | inr (n, e) ↦ inl (q ∙ (e ∙ ap some (alone h n e)))
    ]
  ]

  grown-local :
      (rounds i : ℕ) (d : DistributedCache)
      → (add_virtual_nodes sha1 rounds node i d).local_caches ≡ d.local_caches
  unfolding add_virtual_nodes
  grown-local zero i d = refl
  grown-local (suc rounds) i d = grown-local rounds (i + 1) (put _ node d)

  -- Where a node is added that is the only node of a ring already, its cache is replaced
  -- by an empty one: every entry is lost.
  pub add_node-present_forgets :
      (order : Order)
      → IsAlone node dc
      → (dc1 : DistributedCache) × (add_node sha1 now took order node dc ≡ ok dc1)
        × (local node dc1 ≡ some (empty_cache 1000))
  unfolding add_node migrate_data_for_added_node new_lru_cache update_basic_migration_stats
      add_node_to_hash_ring
  add_node-present_forgets order alone =
      let start = put_local node (empty_cache 1000) (record dc { nodes = dc.nodes ++ node ∷ [] }) in
      let grown = add_node_to_hash_ring sha1 node start in
      let ran =
        migrate-alone order dc.sorted_hashes (order.hashes (hashes_of node grown.hash_ring)) 0 grown
          (grown_at start alone) in
      let kept : local node grown ≡ some (empty_cache 1000) =
        ap (λ m. lookup String_discrete node m) (grown-local dc.virtual_nodes 0 start)
        ∙ local-put_same node (empty_cache 1000) (record dc { nodes = dc.nodes ++ node ∷ [] }) in
      (update_basic_migration_stats now 0 took grown, rw ran refl, kept)
