-- ===== src/Node/Changes.antt =====
-- Whether a node can reach one that joins: distributed/cluster_coordinator.go on the node that is
-- asked to add it, and on those that hear of it.
use ryan_cache.Prelude.{
  ℕ, ◌+◌, ◌≡◌, ◌≢◌, refl, ap, subst, ◌∙◌, inl, inr, String, String_discrete, if_neg, [], ◌∷◌, none,
  arith, Result, ok, ◌>>=◌, ok_parts,
}
use ryan_cache.GoMap.{lookup}
use ryan_cache.Lru.Defs.{Time}
use ryan_cache.Lru.Methods
use ryan_cache.Lru.Batch.{get_all_data}
use ryan_cache.Cluster.Defs.{get_node_for_key}
use ryan_cache.Cluster.Methods as Cluster
use ryan_cache.Http.{Http, Wire, errored, no_target}
use ryan_cache.Client.Bounds.{attempt_cases}
use ryan_cache.Node.Defs.{DistributedNode, delete_local, pass_on, entries_of}
use ryan_cache.Node.Defs as Node
use ryan_cache.Node.Coordinator.{
  ClusterCoordinator, NodeChangeRequest, Run, migrate_key_to_node, migrate_pairs,
  perform_network_data_migration, grow_ring, add_node_to_cluster,
}
use ryan_cache.Node.Migration.{Pairs}

-- The name and the addresses of a node are as they were.
abbrev IsSame : DistributedNode → DistributedNode → Type 0
IsSame dn dn1 = (dn1.cluster_nodes ≡ dn.cluster_nodes) × (dn1.node_id ≡ dn.node_id)

IsSame-trans : (a b c : DistributedNode) → IsSame a b → IsSame b c → IsSame a c
IsSame-trans a b c p q = (q.0 ∙ p.0, q.1 ∙ p.1)

ok_node : (a b : DistributedNode) → ok a ≡ ok b → a ≡ b
ok_node a b e = cc e

ok_first :
    {A B : Type 0} (a b : A) (x y : B) → ◌≡◌ {A = Result (A × B)} (ok (a, x)) (ok (b, y)) → a ≡ b
ok_first a b x y e = cc e

ok_first_of_three :
    {A B C : Type 0} (a b : A) (x y : B) (u v : C)
    → ◌≡◌ {A = Result (A × B × C)} (ok (a, x, u)) (ok (b, y, v))
    → a ≡ b
ok_first_of_three a b x y u v e = cc e

delete_local-IsSame :
    (key : String) (dn dn1 : DistributedNode) → delete_local key dn ≡ ok dn1 → IsSame dn dn1
unfolding delete_local
delete_local-IsSame key dn dn1 e =
    let (p, ran, done) = ok_parts (Methods.delete_key key dn.local_cache) _ e in
    subst (IsSame dn) (ok_node (record dn { local_cache = p.0 }) dn1 done) (refl, refl)

grow_ring-IsSame :
    (sha1 : String → ℕ → ℕ) (run : Run) (id : String) (dn dn1 : DistributedNode)
    → grow_ring sha1 run id dn ≡ ok dn1
    → IsSame dn dn1
unfolding grow_ring
grow_ring-IsSame sha1 run id dn dn1 e =
    let (ring, ran, done) =
      ok_parts (Cluster.add_node sha1 run.now run.took run.order id dn.hash_ring) _ e in
    subst (IsSame dn) (ok_node (record dn { hash_ring = ring }) dn1 done) (refl, refl)

module _ {W : Type 0} (http : Http W) (sha1 : String → ℕ → ℕ) (wire : Wire)
    (id address : String) where
  migrate_pairs-IsSame :
      (pairs : Pairs) (count : ℕ) (dn : DistributedNode) (w : W) (dn1 : DistributedNode) (w1 : W)
      (n : ℕ)
      → migrate_pairs http sha1 wire id address pairs count dn w ≡ ok (dn1, w1, n)
      → IsSame dn dn1
  unfolding migrate_pairs
  migrate_pairs-IsSame [] count dn w dn1 w1 n e =
      subst (IsSame dn) (ok_first_of_three dn dn1 w w1 count n e) (refl, refl)
  migrate_pairs-IsSame ((key, value) ∷ pairs) count dn w dn1 w1 n e =
      let (target, routed, rest) = ok_parts (get_node_for_key sha1 key dn.hash_ring) _ e in
      elim (String_discrete target id) [
        | no ne ↦ migrate_pairs-IsSame pairs count dn w dn1 w1 n (rw (if_neg _ ne) at rest)
        | yes q ↦ elim (attempt_cases (migrate_key_to_node http sha1 wire key value address w)) [
          | inr (w2, err, sent) ↦
              migrate_pairs-IsSame pairs count dn w2 dn1 w1 n (ground (arith, rest, q, sent))
          | inl (w2, body, sent) ↦
              let moved : (delete_local key dn >>= λ dn2.
              migrate_pairs http sha1 wire id address pairs (count + 1) dn2 w2)
                  ≡ ok (dn1, w1, n) =
                ground (arith, rest, q, sent) in
              let (dn2, gone, after) = ok_parts (delete_local key dn) _ moved in
              IsSame-trans dn dn2 dn1 (delete_local-IsSame key dn dn2 gone)
                (migrate_pairs-IsSame pairs (count + 1) dn2 w2 dn1 w1 n after)
        ]
      ]

  migration-IsSame :
      (run : Run) (dn : DistributedNode) (w : W) (dn1 : DistributedNode) (w1 : W)
      → perform_network_data_migration http sha1 wire run id address dn w ≡ ok (dn1, w1)
      → IsSame dn dn1
  unfolding perform_network_data_migration
  migration-IsSame run dn w dn1 w1 e =
      let (all, read, rest) =
        ok_parts
          (get_all_data (λ key. run.now) (run.visit_entries dn.local_cache.cache) dn.local_cache) _
          e in
      let ((dn2, w2, n), moved, done) =
        ok_parts (migrate_pairs http sha1 wire id address (run.visit_pairs all) 0 dn w) _ rest in
      let same = migrate_pairs-IsSame (run.visit_pairs all) 0 dn w dn2 w2 n moved in
      subst (IsSame dn) (ok_first _ dn1 w2 w1 done) same

-- Whether a read of a key that the ring gives to another node finds an address for it.
module _ {W : Type 0} (http : Http W) (sha1 : String → ℕ → ℕ) (wire : Wire) (now : Time)
    (id address key : String) (dn : DistributedNode) (w : W)
    (routed : get_node_for_key sha1 key dn.hash_ring ≡ ok id) (other : id ≢ dn.node_id) where
  get-no_address :
      lookup String_discrete id (entries_of dn.cluster_nodes) ≡ none
      → Node.get sha1 http wire now key dn w ≡ ok (dn, w, errored (no_target id))
  unfolding Node.get pass_on
  get-no_address e = ground (arith, routed, other, e)

module _ {W : Type 0} (http : Http W) (sha1 : String → ℕ → ℕ) (wire : Wire) (run : Run)
    (id address : String) where
  add_node_to_cluster-IsSame :
      (change_body : NodeChangeRequest → String) (cc cc1 : ClusterCoordinator) (w w1 : W)
      → add_node_to_cluster http sha1 wire change_body run id address cc w ≡ ok (cc1, w1)
      → IsSame cc.node cc1.node
  unfolding add_node_to_cluster
  add_node_to_cluster-IsSame change_body cc cc1 w w1 e =
      let (dn1, grown, rest) = ok_parts (grow_ring sha1 run id cc.node) _ e in
      let ((dn2, w2), moved, done) =
        ok_parts (perform_network_data_migration http sha1 wire run id address dn1 w) _ rest in
      let same =
        IsSame-trans cc.node dn1 dn2 (grow_ring-IsSame sha1 run id cc.node dn1 grown)
          (migration-IsSame http sha1 wire id address run dn1 w dn2 w2 moved) in
      subst (λ c. IsSame cc.node c.node) (ok_first _ cc1 _ w1 done) same

  -- `AddNodeToCluster` does not tell its own node the address of a new one: where the node had none
  -- for that name, its reads of every key that the ring gives to the new node then return an error
  -- and send nothing.
  pub get-add_node_to_cluster :
      (change_body : NodeChangeRequest → String) (cc cc1 : ClusterCoordinator) (w w1 : W)
      (key : String) (now : Time) (w2 : W)
      → add_node_to_cluster http sha1 wire change_body run id address cc w ≡ ok (cc1, w1)
      → id ≢ cc.node.node_id
      → lookup String_discrete id (entries_of cc.node.cluster_nodes) ≡ none
      → get_node_for_key sha1 key cc1.node.hash_ring ≡ ok id
      → Node.get sha1 http wire now key cc1.node w2 ≡ ok (cc1.node, w2, errored (no_target id))
  get-add_node_to_cluster change_body cc cc1 w w1 key now w2 e other out routed =
      let (nodes, name) = add_node_to_cluster-IsSame change_body cc cc1 w w1 e in
      get-no_address http sha1 wire now id address key cc1.node w2 routed (λ p. other (p ∙ name))
        (ap (λ m. lookup String_discrete id (entries_of m)) nodes ∙ out)
