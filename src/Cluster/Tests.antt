-- ===== src/Cluster/Tests.antt =====
-- Runs of core/distributed_cache.go on a ring of two nodes, and each theorem about it at that ring.
use ryan_cache.Prelude.{
  ℕ, zero, suc, ◌<◌, ◌≡◌, ◌≢◌, ◌⊎◌, ◌↔◌, refl, sym, inl, inr, true, String, String_discrete,
  ℕ_discrete, [], ◌∷◌, none, some, arith, ok, panic, index_range, if◌then◌else◌, itoa, itoa_digits,
  length,
}
use text.Mathlib.Text.{◌==◌}
use text.Mathlib.TextEquality.{eq_iff}
use ryan_cache.Lru.Tests.{two as two_entries}
use ryan_cache.Lru.Batch.{get_all_data, collect}
use ryan_cache.Lru.Methods.{is_expired, ttl_lookup}
use ryan_cache.Lru.Heap.Defs.{deref, update}
use ryan_cache.GoMap.{lookup, insert, delete}
use ryan_cache.Lru.Defs.{empty_cache}
use ryan_cache.Lru.Methods.{Reply}
use ryan_cache.Cluster.Search.{search_loop, sort_search}
use ryan_cache.Cluster.Sorting.{sort, sorted_insert}
use ryan_cache.Cluster.Defs.{
  DistributedCache, hash_key, add_virtual_nodes, add_node_to_hash_ring, add_nodes, build_hash_ring,
  ring_index, node_at, node_or_empty, get_node_for_key, remove_node_from_hash_ring, keep_hashes,
  hashes_of, delete_hashes,
}
use ryan_cache.Cluster.Ring.{IsRing, build_hash_ring-IsRing, empty_at}
use ryan_cache.Cluster.Routing
use ryan_cache.Cluster.Ring
use ryan_cache.Cluster.Creation
use ryan_cache.Cluster.Service
use ryan_cache.Cluster.Service.{IsReady}
use ryan_cache.Cluster.Plain
use ryan_cache.Cluster.Departures
use ryan_cache.Cluster.Methods as Cluster
use ryan_cache.Cluster.Methods.{local}
use ryan_cache.Cluster.Maps.{at}
use ryan_cache.Cluster.Creation.{add_nodes-Has, empty-IsPlain}
use ryan_cache.Cluster.Departures.{IsAlone}

-- A digest that puts the hashes where the runs want them.
abbrev place : String → ℕ
place s =
    if s == "a#0"
    then 10
    else if s == "a#1"
    then 30
    else if s == "b#0"
    then 20
    else if s == "b#1"
    then 40
    else if s == "c#0"
    then 27
    else if s == "c#1"
    then 50
    else if s == "key"
    then 25
    else if s == "late"
    then 60
    else 15

abbrev pub toy : String → ℕ → ℕ
toy s (suc (suc (suc zero))) = place s
toy s other = 0

abbrev start : DistributedCache
start = record {
  hash_ring = [];
  nodes = "a" ∷ "b" ∷ [];
  virtual_nodes = 2;
  sorted_hashes = [];
  local_caches = [];
  basic_migration_stats = record { migrated_keys = 0; duration = 0; last_migration = 0 };
}

abbrev pub two : DistributedCache
two = build_hash_ring toy start

program : Unit {0}
unfolding hash_key add_virtual_nodes add_node_to_hash_ring add_nodes build_hash_ring ring_index
    node_at node_or_empty get_node_for_key search_loop sort_search sort sorted_insert lookup insert
    ℕ_discrete String_discrete itoa itoa_digits remove_node_from_hash_ring keep_hashes hashes_of
    delete_hashes delete
program = tt

two_hashes : two.sorted_hashes ≡ 10 ∷ 20 ∷ 30 ∷ 40 ∷ []
unfolding program
two_hashes = refl

key_node : get_node_for_key toy "key" two ≡ ok "a"
unfolding program
key_node = refl

wraps : get_node_for_key toy "late" two ≡ ok "a"
unfolding program
wraps = refl

key_moves : get_node_for_key toy "key" (add_node_to_hash_ring toy "c" two) ≡ ok "c"
unfolding program
key_moves = refl

key_falls_back : get_node_for_key toy "key" (remove_node_from_hash_ring "a" two) ≡ ok "b"
unfolding program
key_falls_back = refl

a_named : ◌≢◌ {A = String} "a" ""
a_named p = cc ((eq_iff "a" "").1 p)

b_named : ◌≢◌ {A = String} "b" ""
b_named p = cc ((eq_iff "b" "").1 p)

c_named : ◌≢◌ {A = String} "c" ""
c_named p = cc ((eq_iff "c" "").1 p)

pub a_ne_b : ◌≢◌ {A = String} "a" "b"
a_ne_b p = cc ((eq_iff "a" "b").1 p)

pub two-IsRing : IsRing two
two-IsRing = build_hash_ring-IsRing toy start (a_named, (b_named, tt))

get_node_for_key_example :
    ((n : String) → (get_node_for_key toy "key" two ≡ ok n) ↔ Routing.IsRouted toy "key" two n)
    × (0 < length two.sorted_hashes → (n : String) × (get_node_for_key toy "key" two ≡ ok n))
    × (two.sorted_hashes ≡ [] → get_node_for_key toy "key" two ≡ panic index_range)
get_node_for_key_example = Routing.get_node_for_key_lem toy "key" two two-IsRing

get_node-add_node_example :
    (get_node_for_key toy "key" (add_node_to_hash_ring toy "c" two) ≡ ok "a")
    ⊎ (get_node_for_key toy "key" (add_node_to_hash_ring toy "c" two) ≡ ok "c")
unfolding program
get_node-add_node_example = Routing.get_node-add_node toy "key" two two-IsRing "c" "a" c_named refl

get_node-remove_node_example :
    get_node_for_key toy "key" (remove_node_from_hash_ring "b" two) ≡ ok "a"
unfolding program
get_node-remove_node_example =
    Routing.get_node-remove_node toy "key" two two-IsRing "b" "a" refl a_ne_b

add_node-IsRing_example : IsRing (add_node_to_hash_ring toy "c" two)
add_node-IsRing_example = Ring.add_node-IsRing toy "c" two c_named two-IsRing

remove_node-IsRing_example : IsRing (remove_node_from_hash_ring "a" two)
remove_node-IsRing_example = Ring.remove_node-IsRing "a" two two-IsRing

new_distributed_cache-IsReady_example :
    (dc : DistributedCache) × (Cluster.new_distributed_cache_with_virtual_nodes toy
        ("a" ∷ "b" ∷ [])
        2
      ≡ ok dc)
    × (dc.nodes ≡ "a" ∷ "b" ∷ [])
    × IsReady dc
new_distributed_cache-IsReady_example =
    Creation.new_distributed_cache-IsReady toy "a" ("b" ∷ []) 2 (a_named, (b_named, tt))
      (omega arith)

-- The ring of two nodes with a new cache for each.
abbrev pub ready : DistributedCache
ready = record two { local_caches = ("a", empty_cache 1000) ∷ ("b", empty_cache 1000) ∷ [] }

on_two : (h : ℕ) (n : String) → at h two.hash_ring ≡ some n → ("a" ≡ n) ⊎ ("b" ≡ n)
unfolding build_hash_ring
on_two h n e = elim (add_nodes-Has toy ("a" ∷ "b" ∷ []) start h n e) [
  | inl (inl p) ↦ inl p
  | inl (inr (inl p)) ↦ inr p
  | inl (inr (inr b)) ↦ absurd b
  | inr b ↦ absurd (empty_at h n b)
]

has_cache : (n : String) → ("a" ≡ n) ⊎ ("b" ≡ n) → local n ready ≡ some (empty_cache 1000)
unfolding lookup
has_cache n e = ground arith

pub two-inhabited : 0 < length two.sorted_hashes
unfolding program
two-inhabited = omega arith

pub ready-IsReady : IsReady ready
ready-IsReady = record {
  ring = record {
    filled = record {
      distinct = two-IsRing.filled.distinct;
      on_ring = two-IsRing.filled.on_ring;
      listed = two-IsRing.filled.listed;
    };
    sorted = two-IsRing.sorted;
  };
  inhabited = two-inhabited;
  cached = λ h n e. (empty_cache 1000, has_cache n (on_two h n e), empty-IsPlain);
}

get-set_cluster_example :
    (dc1 : DistributedCache) × (dc2 : DistributedCache) × (Cluster.set toy "key" "value" ready
      ≡ ok (dc1, none))
    × (Cluster.get toy 5 "key" dc1 ≡ ok (dc2, ("value", true), none))
get-set_cluster_example = Service.get-set_cluster toy 5 "key" "value" ready ready-IsReady

calls-IsReady_example :
    ((value : String)
      → (dc1 : DistributedCache) × (Cluster.set toy "key" value ready ≡ ok (dc1, none))
        × IsReady dc1)
    × ((now : ℕ)
        → (dc1 : DistributedCache) × (reply : Reply) × (Cluster.get toy now "key" ready
            ≡ ok (dc1, reply, none))
          × IsReady dc1)
    × ((dc1 : DistributedCache) × (Cluster.delete_key toy "key" ready ≡ ok (dc1, none))
        × IsReady dc1)
calls-IsReady_example = Plain.calls-IsReady toy "key" ready ready-IsReady

-- A cluster of one node, whose cache holds two entries.
abbrev one_start : DistributedCache
one_start = record start { nodes = "a" ∷ []; local_caches = ("a", two_entries) ∷ [] }

abbrev one : DistributedCache
one = build_hash_ring toy one_start

one-IsRing : IsRing one
one-IsRing = build_hash_ring-IsRing toy one_start (a_named, tt)

one-IsAlone : IsAlone "a" one
unfolding build_hash_ring
one-IsAlone h n e = elim (add_nodes-Has toy ("a" ∷ []) one_start h n e) [
  | inl (inl p) ↦ sym p
  | inl (inr b) ↦ absurd b
  | inr b ↦ absurd (empty_at h n b)
]

abbrev pub same {ℓ} : {A : Type ℓ} → A → A
same x = x

remove_node-last_panics_example : Cluster.remove_node toy 5 1 same same "a" one ≡ panic index_range
unfolding program get_all_data collect is_expired ttl_lookup deref update
remove_node-last_panics_example =
    Departures.remove_node-last_panics toy 5 1 "a" one same same two_entries
      (("a", "1") ∷ ("b", "2") ∷ []) ("a", "1") (("b", "2") ∷ []) one-IsRing one-IsAlone refl refl
      refl

abbrev pub any_order : Cluster.Order
any_order = record { hashes = same; entries = λ h. same; pairs = λ h. same }

add_node-present_forgets_example :
    (dc1 : DistributedCache) × (Cluster.add_node toy 5 1 any_order "a" one ≡ ok dc1)
    × (local "a" dc1 ≡ some (empty_cache 1000))
add_node-present_forgets_example =
    Departures.add_node-present_forgets toy 5 1 "a" one any_order one-IsAlone
