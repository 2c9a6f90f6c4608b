-- ===== src/Lru/Refine/Reading.antt =====
-- `Get` of core/lrucache.go: a miss, an expired key, or a hit that moves to the front.
use ryan_cache.Prelude.{
  ◌+◌, ◌≡◌, ap, ◌∙◌, sym, subst₂, inl, inr, true, false, Bool-cases, String, String_discrete, List,
  ◌∷◌, ◌++◌, arith, length-append,
}
use ryan_cache.GoMap.{delete}
use ryan_cache.Lru.Heap.Defs.{Ptr}
use ryan_cache.Lru.Heap.Ops.{move_to_head-IsList}
use ryan_cache.Lru.Defs.{LruCache, Time, CacheStats}
use ryan_cache.Lru.Methods
use ryan_cache.Lru.Methods.{
  Reply, hit, drop_expired, count_request, count_hit, count_miss, ttl_lookup, ttl_delete,
  is_expired,
}
use ryan_cache.Lru.Model
use ryan_cache.Lru.Index.{entries, entries-remove, find-front, map-Distinct-front}
use ryan_cache.Lru.Model.{View, view, IsValid}
use ryan_cache.Lru.Reps.{
  Reps, Returns, Gives, unlink-Reps, Reps-update, key_cases, present-cache, present-items,
  present-real, deref_lem, SameNodes-entries, SameNodes-Distinct,
}

module _ (c : LruCache) (ys : List Ptr) (a : Ptr) (zs : List Ptr) (r : Reps c (ys ++ a ∷ zs)) where
  -- A hit moves its entry to the front and returns the value.
  pub hit-Returns : Returns (hit a c) (
    record (view c (ys ++ a ∷ zs)) {
      items =
          (c.heap.key a, c.heap.value a)
          ∷ delete String_discrete (c.heap.key a) (entries c.heap.key c.heap.value (ys ++ a ∷ zs));
    },
    (c.heap.value a, true),
  )
  unfolding hit
  hit-Returns =
      let (h, ran, l, same) = move_to_head-IsList c.heap c.head c.tail ys a zs r.list in
      (
        record c { heap = h },
        a ∷ ys ++ zs,
        rw (ran, deref_lem a (h.value a) (present-real c ys a zs r), same.value),
        record {
          list = l;
          indexed =
              λ j. rw (same.key, r.indexed j) (sym (find-front c.heap.key j ys a zs r.distinct));
          sized = omega (arith, r.sized, length-append ys (a ∷ zs), length-append ys zs);
          distinct =
              SameNodes-Distinct (a ∷ ys ++ zs) same
                (map-Distinct-front c.heap.key ys a zs r.distinct);
        },
        ap {A = List (String × String)} {B = View}
            (λ m. record (view c (ys ++ a ∷ zs)) { items = m })
            (SameNodes-entries (a ∷ ys ++ zs) same
              ∙ ap (◌∷◌ (c.heap.key a, c.heap.value a))
                  (entries-remove c.heap.key c.heap.value ys a zs r.distinct)),
      )

  -- An expired key is dropped with its expiry time, and its memory stays counted.
  drop_expired-Gives : Gives (drop_expired (c.heap.key a) a c) (record (view c (ys ++ a ∷ zs)) {
    items = delete String_discrete (c.heap.key a) (entries c.heap.key c.heap.value (ys ++ a ∷ zs));
    ttl_map = ttl_delete (c.heap.key a) c.ttl_map;
  })
  unfolding drop_expired
  drop_expired-Gives =
      let (c1, ran, r1, e) = unlink-Reps c ys a zs r in
      let ttl = ttl_delete (c.heap.key a) c1.ttl_map in
      (
        record c1 { ttl_map = ttl },
        ys ++ zs,
        rw ran,
        Reps-update c1 (ys ++ zs) r1 ttl c1.cleanup_stats c1.stats c1.memory_usage,
        ap {A = View} {B = View} (λ w. record w { ttl_map = ttl_delete (c.heap.key a) w.ttl_map })
            e,
      )

-- Counters change nothing that a pointer reaches.
pub counted :
    (c : LruCache) (xs : List Ptr) (stats : CacheStats)
    → Reps c xs
    → Reps (record c { stats = stats }) xs
counted c xs stats r = Reps-update c xs r c.ttl_map c.cleanup_stats stats c.memory_usage

module _ (now : Time) (c : LruCache) (ys : List Ptr) (a : Ptr) (zs : List Ptr) where
  live :
      Reps c (ys ++ a ∷ zs)
      → is_expired now (ttl_lookup (c.heap.key a) c.ttl_map) ≡ false
      → Returns
          (Methods.get now (c.heap.key a) c)
          (Model.get now (c.heap.key a) (view c (ys ++ a ∷ zs)))
  unfolding Methods.get Model.get
  live r e =
      let (c1, xs, ran, r1, v) =
        hit-Returns (count_hit (count_request c)) ys a zs (counted c (ys ++ a ∷ zs) _ r) in
      (
        c1,
        xs,
        rw (present-cache c ys a zs r, present-items c ys a zs r, Methods.get, Model.get, e) ran,
        r1,
        rw (present-items c ys a zs r, Model.get, e) v,
      )

  expired :
      Reps c (ys ++ a ∷ zs)
      → is_expired now (ttl_lookup (c.heap.key a) c.ttl_map) ≡ true
      → Returns
          (Methods.get now (c.heap.key a) c)
          (Model.get now (c.heap.key a) (view c (ys ++ a ∷ zs)))
  unfolding Methods.get Model.get
  expired r e =
      let (c1, xs, ran, r1, v) =
        drop_expired-Gives (count_request c) ys a zs (counted c (ys ++ a ∷ zs) _ r) in
      (
        count_miss c1,
        xs,
        rw (present-cache c ys a zs r, present-items c ys a zs r, Methods.get, Model.get, e, ran),
        counted c1 xs _ r1,
        rw (present-items c ys a zs r, Model.get, e)
            (ap {A = View} {B = View}
              (λ w. record w { stats = record (w.stats) { misses = w.stats.misses + 1 } }) v),
      )

  present :
      Reps c (ys ++ a ∷ zs)
      → Returns
          (Methods.get now (c.heap.key a) c)
          (Model.get now (c.heap.key a) (view c (ys ++ a ∷ zs)))
  present r = elim (Bool-cases (is_expired now (ttl_lookup (c.heap.key a) c.ttl_map))) [
    | inl e ↦ expired r e
    | inr e ↦ live r e
  ]

-- From a state that represents a list of entries, `Get` ends without a fault, returns what the model
-- returns and leaves a state that represents what the model leaves.
pub get-refines :
    (now : Time) (c : LruCache) (xs : List Ptr) (k : String)
    → Reps c xs
    → Returns (Methods.get now k c) (Model.get now k (view c xs))
unfolding Methods.get Model.get
get-refines now c xs k r = elim (key_cases c xs k r) [
  | inl (gone, out) ↦ (
    count_miss (count_request c),
    xs,
    rw (gone, out, Methods.get, Model.get),
    counted c xs _ r,
    rw (out, Model.get),
  )
  | inr (a, ys, zs, split, key) ↦
      subst₂ (λ l j. Reps c l → Returns (Methods.get now j c) (Model.get now j (view c l)))
        (sym split) key (present now c ys a zs) r
]
