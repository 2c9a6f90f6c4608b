-- ===== src/Node/Tests.antt =====
-- Runs of a node of distributed/ on the ring of two nodes, and each theorem about nodes at them.
use ryan_cache.Prelude.{
  ℕ, ◌+◌, ◌*◌, ◌≤◌, ◌≡◌, ◌≢◌, ◌⊎◌, ◌↔◌, refl, sym, subst, ◌∙◌, inl, inr, true, String,
  String_discrete, ℕ_discrete, [], ◌∷◌, none, some, arith, Result, ok, panic, length, itoa,
  itoa_digits, if◌then◌else◌,
}
use text.Mathlib.Text.{◌==◌}
use text.Mathlib.TextEquality.{eq_iff}
use ryan_cache.GoMap.{lookup, insert, delete}
use ryan_cache.Lru.Defs.{LruCache, empty_cache}
use ryan_cache.Cluster.Tests.{toy, ready, any_order, same}
use ryan_cache.Cluster.Creation.{empty-IsPlain}
use ryan_cache.Http.{
  Http, response, Wire, CacheResponse, transport_error, returned, errored, no_target,
}
use ryan_cache.Node.Manager.{
  unknown, millis, NodeInfo, ClusterManager, new_cluster_manager, add_nodes, add_node,
  get_cluster_status, get_healthy_nodes, is_healthy, info_of, perform_health_check,
}
use ryan_cache.Node.Defs.{DistributedNode, entries_of, add_cluster_node}
use ryan_cache.Lru.Methods.{set_internal, must_evict, is_expired, ttl_lookup}
use ryan_cache.Lru.Defs.{new_lru_cache, calculate_memory_usage}
use ryan_cache.Lru.Batch.{get_all_data, collect}
use ryan_cache.Lru.Heap.Defs.{deref, update}
use ryan_cache.Cluster.Search.{search_loop, sort_search}
use ryan_cache.Cluster.Sorting.{sort, sorted_insert}
use ryan_cache.Cluster.Defs.{
  hash_key, add_virtual_nodes, add_node_to_hash_ring, build_hash_ring, ring_index, node_at,
  node_or_empty, get_node_for_key, keep_hashes, hashes_of, delete_hashes,
}
use ryan_cache.Cluster.Defs
use ryan_cache.Cluster.Methods
use ryan_cache.Cluster.Methods.{
  migrate_data_for_added_node, migrate_hashes, migrate_keys, find_responsible_node_in_old_ring,
  set_at, delete_at,
}
use ryan_cache.Node.Defs as Node
use ryan_cache.Node.Defs.{forwarded, delete_local}
use ryan_cache.Node.Coordinator.{
  ClusterCoordinator, NodeChangeRequest, Run, add_node_to_cluster, sync_add_node, grow_ring,
  perform_network_data_migration, migrate_pairs, migrate_key_to_node, update_migration_stats,
}
use ryan_cache.Node.Changes
use ryan_cache.Client.Calls.{set_to_node, get_from_node}
use ryan_cache.Node.Handlers.{Bodies}
use ryan_cache.Node.Routes.{Network, from_client}
use ryan_cache.Node.EndToEnd.{Agrees}
use ryan_cache.Node.ReadBack
use ryan_cache.Node.Health
use ryan_cache.Node.Health.{IsJudged}
use ryan_cache.Node.Migration
use ryan_cache.Node.Migration.{Pairs}

program : Unit {0}
unfolding new_cluster_manager add_nodes add_node lookup insert delete String_discrete
program = tt

-- The node "a" knows of "b" and "c"; only "b" answers.
abbrev manager : ClusterManager
manager = new_cluster_manager 3 "a" (("a", "a:1") ∷ ("b", "b:1") ∷ ("c", "c:1") ∷ [])

abbrev only_b : Http ℕ
only_b request w =
    if request.address == "b:1" then (w + 1, response 200 "") else (w, transport_error "refused")

abbrev checked : ClusterManager
checked = (perform_health_check only_b 5 (λ id. 1) ("c" ∷ "b" ∷ "a" ∷ []) manager 0).0

get_cluster_status_counts_example :
    let status = get_cluster_status 6 checked in
    (status.healthy_nodes + status.unhealthy_nodes ≡ status.total_nodes)
    × (length status.nodes ≡ status.total_nodes)
    × (length (get_healthy_nodes checked.nodes) ≡ status.healthy_nodes)
get_cluster_status_counts_example = Health.get_cluster_status_counts 6 checked

is_healthy_iff_example :
    (is_healthy checked ≡ true)
    ↔ (length checked.nodes ≤ 2 * length (get_healthy_nodes checked.nodes) + 1)
is_healthy_iff_example = Health.is_healthy_iff checked

abbrev c_info : NodeInfo
c_info = record {
  node_id = "c";
  address = "c:1";
  status = unknown;
  last_seen = 3;
  response_time = millis 0;
}

perform_health_check-IsJudged_example :
    (after : NodeInfo) × (info_of "c" checked ≡ some after) × IsJudged only_b "a" "c" "c:1" after
unfolding program
perform_health_check-IsJudged_example =
    Health.perform_health_check-IsJudged only_b 5 (λ id. 1) ("c" ∷ "b" ∷ "a" ∷ []) manager 0 "c"
      c_info (inl refl) refl

-- The node "a" with nothing in its cache, on the ring of "a" and "b".
abbrev node_a : DistributedNode
node_a = record {
  node_id = "a";
  node_address = "a:1";
  hash_ring = ready;
  local_cache = empty_cache 1000;
  cluster_nodes = some (("a", "a:1") ∷ ("b", "b:1") ∷ []);
}

-- URLs that end in the key, and JSON in which a value is its text, and a reply is the name of the
-- node that has "v" under "key".
abbrev plain_wire : Wire
plain_wire = record {
  send_path = λ k. some k;
  path_key = λ p. some p;
  write_value = λ v. v;
  bind_value = λ b. some b;
  write_response = λ r. r.node_id;
  read_response =
      λ b. some (record { key = "key"; value = "v"; found = true; node_id = b; message = "" });
}

-- The node with an entry, to which the node "c" joins; the key then belongs to "c".
abbrev outcome : {A : Type 0} → A → Result A → A
outcome a (ok b) = b
outcome a (panic e) = a

abbrev filled : LruCache
filled = outcome (empty_cache 1000) (set_internal "key" "v" (empty_cache 1000))

abbrev before : ClusterCoordinator
before = record { node = record node_a { local_cache = filled }; cluster = manager }

abbrev plain_run : Run
plain_run = record {
  now = 5;
  took = 1;
  order = any_order;
  visit_entries = same;
  visit_pairs = same;
  visit_nodes = same;
}

abbrev stored_at_c : Http ℕ
stored_at_c request w = (w + 1, response 200 "")

abbrev change_body : NodeChangeRequest → String
change_body request = request.node_id

abbrev joined : ClusterCoordinator × ℕ
joined =
    outcome (before, 0)
      (add_node_to_cluster stored_at_c toy plain_wire change_body plain_run "c" "c:1" before 0)

abbrev synced : ClusterCoordinator × ℕ
synced = outcome (before, 0) (sync_add_node stored_at_c toy plain_wire plain_run "c" "c:1" before 0)

runs : Unit {0}
unfolding program hash_key add_virtual_nodes add_node_to_hash_ring build_hash_ring ring_index
    node_at node_or_empty get_node_for_key search_loop sort_search sort sorted_insert ℕ_discrete
    itoa itoa_digits keep_hashes hashes_of delete_hashes Defs.add_nodes Methods.add_node
    migrate_data_for_added_node migrate_hashes migrate_keys find_responsible_node_in_old_ring set_at
    delete_at new_lru_cache get_all_data collect is_expired ttl_lookup deref update set_internal
    add_node_to_cluster sync_add_node add_cluster_node grow_ring perform_network_data_migration
    migrate_pairs migrate_key_to_node forwarded delete_local update_migration_stats must_evict
    calculate_memory_usage
runs = tt

added :
    add_node_to_cluster stored_at_c toy plain_wire change_body plain_run "c" "c:1" before 0
    ≡ ok joined
unfolding runs
added = refl

a_ne_c : ◌≢◌ {A = String} "c" "a"
a_ne_c p = cc ((eq_iff "c" "a").1 p)

get-add_node_to_cluster_example :
    Node.get toy stored_at_c plain_wire 9 "key" joined.0.node 7
    ≡ ok (joined.0.node, 7, errored (no_target "c"))
unfolding runs
get-add_node_to_cluster_example =
    Changes.get-add_node_to_cluster stored_at_c toy plain_wire plain_run "c" "c:1" change_body
      before joined.0 0 joined.1 "key" 9 7 added a_ne_c refl refl

-- A network of the nodes "a" and "b"; the key belongs to "a".
abbrev at_a : ClusterCoordinator
at_a = record { node = node_a; cluster = manager }

abbrev at_b : ClusterCoordinator
at_b = record { node = record node_a { node_id = "b"; node_address = "b:1" }; cluster = manager }

abbrev net : Network
net = ("a:1", at_a) ∷ ("b:1", at_b) ∷ []

abbrev no_bodies : Bodies
no_bodies = record {
  error = same;
  done = λ a b c. a;
  health = λ ok id. id;
  stats = λ id dn status. id;
  cluster = λ status id. id;
  nodes = λ nodes n. "";
  metrics = λ id dn m status. id;
  read_join = λ b. none;
  read_leave = λ b. none;
  read_change = λ b. none;
  write_change = change_body;
}

net-cases :
    (at : String) (cc : ClusterCoordinator)
    → lookup String_discrete at net ≡ some cc
    → ((at ≡ "a:1") × (at_a ≡ cc)) ⊎ ((at ≡ "b:1") × (at_b ≡ cc))
unfolding lookup
net-cases at cc e = ground arith

b_ne_a : ◌≢◌ {A = String} "b" "a"
b_ne_a p = cc ((eq_iff "b" "a").1 p)

b1_ne_a1 : ◌≢◌ {A = String} "b:1" "a:1"
b1_ne_a1 p = cc ((eq_iff "b:1" "a:1").1 p)

net-Agrees : Agrees toy plain_wire no_bodies plain_run "key" "v" net "a" "a:1"
unfolding runs
net-Agrees = record {
  routed = λ at cc e. elim (net-cases at cc e) [
    | inl (p, q) ↦ subst (λ c. get_node_for_key toy "key" c.node.hash_ring ≡ ok "a") q refl
    | inr (p, q) ↦ subst (λ c. get_node_for_key toy "key" c.node.hash_ring ≡ ok "a") q refl
  ];
  named = λ at cc e. elim (net-cases at cc e) [
    | inl (p, q) ↦ (λ n. p, λ a. subst (λ c. "a" ≡ c.node.node_id) q refl)
    | inr (p, q) ↦ (
      λ n. absurd (b_ne_a (subst (λ c. c.node.node_id ≡ "a") (sym q) (sym n))),
      λ a. absurd (b1_ne_a1 (sym p ∙ a)),
    )
  ];
  known = λ at cc e ne. elim (net-cases at cc e) [
    | inl (p, q) ↦ absurd (ne (subst (λ c. "a" ≡ c.node.node_id) q refl))
    | inr (p, q) ↦
        subst (λ c. lookup String_discrete "a" (entries_of c.node.cluster_nodes) ≡ some "a:1") q
          refl
  ];
}

get-set_network_example :
    (net1 : Network) × (net2 : Network) × (body : String) × (r : CacheResponse) × (set_to_node
        (from_client toy plain_wire no_bodies plain_run)
        plain_wire
        "key"
        "v"
        "b:1"
        net
      ≡ (net1, returned body))
    × (get_from_node (from_client toy plain_wire no_bodies plain_run) plain_wire "key" "a:1" net1
        ≡ (net2, returned r))
    × (r.value ≡ "v")
    × (r.found ≡ true)
unfolding runs
get-set_network_example =
    ReadBack.get-set_network toy plain_wire no_bodies plain_run "key" "v" "key" refl refl net "a"
      "a:1" at_a "b:1" "a:1" at_b at_a refl (λ id. refl) net-Agrees refl empty-IsPlain refl refl
