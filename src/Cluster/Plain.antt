-- ===== src/Cluster/Plain.antt =====
-- The calls that core/distributed_cache.go passes to a local cache keep it plain, and with it the
-- whole cache ready.
use ryan_cache.Prelude.{
  ℕ, ◌≡◌, refl, sym, ◌∙◌, subst, inl, inr, String, String_discrete, List, Option, none, some,
  Option-cases, Bool-cases, arith, Result, ok, length,
}
use ryan_cache.GoMap.{GoMap, lookup, lookup-insert}
use ryan_cache.Lru.Defs.{Time, LruCache, calculate_memory_usage}
use ryan_cache.Lru.Methods
use ryan_cache.Lru.Methods.{Reply, set_internal, ttl_delete, ttl_lookup, is_expired}
use ryan_cache.Lru.Model
use ryan_cache.Lru.Model.{View, view, IsValid, make_room}
use ryan_cache.Lru.Model.Room.{make_room_same}
use ryan_cache.Lru.Model.Valid.{set-IsValid, get-IsValid, delete_key-IsValid}
use ryan_cache.Lru.Reps.{Reps}
use ryan_cache.Lru.History.Sound.{set-ttl_map}
use ryan_cache.Lru.Refine.Setting.{set_internal-refines}
use ryan_cache.Lru.Refine.Reading.{get-refines}
use ryan_cache.Lru.Refine.Deletion.{delete_key-refines}
use ryan_cache.Cluster.Defs.{DistributedCache, get_node_for_key}
use ryan_cache.Cluster.Methods as Cluster
use ryan_cache.Cluster.Methods.{local, put_local}
use ryan_cache.Cluster.Routing.{get_node_for_key_lem, to_routed}
use ryan_cache.Cluster.Service.{IsPlain, IsReady, set_on, get_on, delete_on}
use ryan_cache.Lru.Heap.Defs.{Ptr}

-- A view with no expiry times and no memory limit.
abbrev pub IsBare : View → Type 0
IsBare v = (v.ttl_map ≡ none) × (v.memory_limit ≡ 0)

set-IsBare : (k x : String) (v : View) → IsBare v → IsBare (Model.set k x v)
unfolding Model.set Model.store
set-IsBare k x v (t, l) = (
  set-ttl_map k x v ∙ t,
  ground (arith, (make_room_same (length v.items) (calculate_memory_usage k x) v).1),
)

ttl_delete-none : (k : String) (o : Option (GoMap String Time)) → o ≡ none → ttl_delete k o ≡ none
unfolding ttl_delete
ttl_delete-none k o e = rw e refl

get-IsBare : (now : Time) (k : String) (v : View) → IsBare v → IsBare (Model.get now k v).0
unfolding Model.get
get-IsBare now k v (t, l) = elim (Option-cases (lookup String_discrete k v.items)) [
  | inl gone ↦ rw (gone, Model.get) (t, l)
  | inr (x, here) ↦ elim (Bool-cases (is_expired now (ttl_lookup k v.ttl_map))) [
    | inl late ↦ rw (here, Model.get, late) (ttl_delete-none k v.ttl_map t, l)
    | inr live ↦ rw (here, Model.get, live) (t, l)
  ]
]

pub delete_key-IsBare : (k : String) (v : View) → IsBare v → IsBare (Model.delete_key k v).0
unfolding Model.delete_key
delete_key-IsBare k v (t, l) = elim (Option-cases (lookup String_discrete k v.items)) [
  | inl gone ↦ rw (gone, Model.delete_key) (t, l)
  | inr (x, here) ↦ rw (here, Model.delete_key) (ttl_delete-none k v.ttl_map t, l)
]

-- What a local cache does with a call: no fault, and it stays plain.
abbrev Stays : {B : Type 0} → Result (LruCache × B) → Type 0
Stays {B} r = (c : LruCache) × (b : B) × (r ≡ ok (c, b)) × IsPlain c

bare-IsPlain :
    (c : LruCache) (xs : List Ptr) (v : View)
    → Reps c xs
    → view c xs ≡ v
    → IsValid v
    → IsBare v
    → IsPlain c
bare-IsPlain c xs v r e valid bare = record {
  nodes = xs;
  reps = r;
  valid = subst {A = View} IsValid (sym e) valid;
  no_expiry = (subst {A = View} IsBare (sym e) bare).0;
  no_limit = (subst {A = View} IsBare (sym e) bare).1;
}

module _ (k : String) (c : LruCache) (p : IsPlain c) where
  pub set-IsPlain : (x : String) → (c1 : LruCache) × (set_internal k x c ≡ ok c1) × IsPlain c1
  set-IsPlain x =
      let (c1, ys, ran, r, w) = set_internal-refines k x c p.nodes p.reps p.valid in
      (
        c1,
        ran,
        bare-IsPlain c1 ys _ r w (set-IsValid k x _ p.valid)
            (set-IsBare k x (view c p.nodes) (p.no_expiry, p.no_limit)),
      )

  get-IsPlain : (now : Time) → Stays (Methods.get now k c)
  get-IsPlain now =
      let (c1, ys, ran, r, w) = get-refines now c p.nodes k p.reps in
      (
        c1,
        _,
        ran,
        bare-IsPlain c1 ys _ r w (get-IsValid now k _ p.valid)
            (get-IsBare now k (view c p.nodes) (p.no_expiry, p.no_limit)),
      )

  delete_key-IsPlain : Stays (Methods.delete_key k c)
  delete_key-IsPlain =
      let (c1, ys, ran, r, w) = delete_key-refines c p.nodes k p.reps p.valid in
      (
        c1,
        _,
        ran,
        bare-IsPlain c1 ys _ r w (delete_key-IsValid k _ p.valid)
            (delete_key-IsBare k (view c p.nodes) (p.no_expiry, p.no_limit)),
      )

put_local-IsReady :
    (node : String) (c : LruCache) (dc : DistributedCache)
    → IsPlain c
    → IsReady dc
    → IsReady (put_local node c dc)
put_local-IsReady node c dc p r = record {
  ring = record {
    filled = record {
      distinct = r.ring.filled.distinct;
      on_ring = r.ring.filled.on_ring;
      listed = r.ring.filled.listed;
    };
    sorted = r.ring.sorted;
  };
  inhabited = r.inhabited;
  cached = λ h n e. elim (String_discrete node n) [
    | yes q ↦ (c, ground (arith, lookup-insert String_discrete node n c dc.local_caches), p)
    | no q ↦
        let (d, f, plain) = r.cached h n e in
        (d, ground (arith, lookup-insert String_discrete node n c dc.local_caches), plain)
  ];
}

module _ (sha1 : String → ℕ → ℕ) (key : String) (dc : DistributedCache) (r : IsReady dc) where
  -- The node of a key, and its cache.
  owner :
      (node : String) × (get_node_for_key sha1 key dc ≡ ok node)
      × (c : LruCache) × (local node dc ≡ some c)
      × IsPlain c
  owner =
      let (node, e) = (get_node_for_key_lem sha1 key dc r.ring).1 r.inhabited in
      let (s, o, es) = to_routed sha1 key dc r.ring node e in
      let (c, ec, plain) = r.cached s node es in (node, e, c, ec, plain)

  -- While a cluster has a consistent ring that is not empty and a well-formed cache for each of its
  -- nodes, `Set`, `Get` and `Delete` end without a fault and without an error, and keep it so.
  pub calls-IsReady :
      ((value : String)
        → (dc1 : DistributedCache) × (Cluster.set sha1 key value dc ≡ ok (dc1, none)) × IsReady dc1)
      × ((now : Time)
          → (dc1 : DistributedCache) × (reply : Reply) × (Cluster.get sha1 now key dc
              ≡ ok (dc1, reply, none))
            × IsReady dc1)
      × ((dc1 : DistributedCache) × (Cluster.delete_key sha1 key dc ≡ ok (dc1, none)) × IsReady dc1)
  calls-IsReady =
      let (node, e, c, ec, p) = owner in
      (
        λ value.
            let (c1, ran, p1) = set-IsPlain key c p value in
            (
              put_local node c1 dc,
              set_on sha1 key node dc c c1 value e ec ran,
              put_local-IsReady node c1 dc p1 r,
            ),
        λ now.
            let (c1, reply, ran, p1) = get-IsPlain key c p now in
            (
              put_local node c1 dc,
              reply,
              get_on sha1 key node dc c c1 now reply e ec ran,
              put_local-IsReady node c1 dc p1 r,
            ),
        let (c1, found, ran, p1) = delete_key-IsPlain key c p in
            (
              put_local node c1 dc,
              delete_on sha1 key node dc c c1 found e ec ran,
              put_local-IsReady node c1 dc p1 r,
            ),
      )
