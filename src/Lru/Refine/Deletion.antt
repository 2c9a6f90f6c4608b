-- ===== src/Lru/Refine/Deletion.antt =====
-- `Delete` of core/lrucache.go forgets exactly one entry.
use ryan_cache.Prelude.{◌≤◌, ap, sym, subst₂, inl, inr, String, List, ◌∷◌, ◌++◌, arith}
use ryan_cache.Lru.Heap.Defs.{Ptr}
use ryan_cache.Lru.Defs.{LruCache, calculate_memory_usage}
use ryan_cache.Lru.Methods
use ryan_cache.Lru.Methods.{ttl_delete}
use ryan_cache.Lru.Model
use ryan_cache.Lru.Model.{View, view, IsValid}
use ryan_cache.Lru.Model.Memory.{total-delete}
use ryan_cache.Lru.Reps.{
  Reps, Returns, unlink_charged-Reps, Reps-update, key_cases, present-cache, present-items,
}

present :
    (c : LruCache) (ys : List Ptr) (a : Ptr) (zs : List Ptr)
    → Reps c (ys ++ a ∷ zs)
    → IsValid (view c (ys ++ a ∷ zs))
    → Returns
        (Methods.delete_key (c.heap.key a) c)
        (Model.delete_key (c.heap.key a) (view c (ys ++ a ∷ zs)))
unfolding Methods.delete_key Model.delete_key
present c ys a zs r v =
    let k = c.heap.key a in
    let x = c.heap.value a in
    let m = calculate_memory_usage k x in
    let charged : m ≤ c.memory_usage =
      omega (arith, v.charged, total-delete k x _ v.distinct (present-items c ys a zs r)) in
    let (c1, ran, r1, e) = unlink_charged-Reps c ys a zs r charged in
    let ttl = ttl_delete k c1.ttl_map in
    (
      record c1 { ttl_map = ttl },
      ys ++ zs,
      rw (
        present-cache c ys a zs r,
        present-items c ys a zs r,
        Methods.delete_key,
        Model.delete_key,
        ran,
      ),
      Reps-update c1 (ys ++ zs) r1 ttl c1.cleanup_stats c1.stats c1.memory_usage,
      rw (present-items c ys a zs r, Model.delete_key)
          (ap {A = View} {B = View} (λ w. record w { ttl_map = ttl_delete k w.ttl_map }) e),
    )

-- From a state that represents a valid cache, `Delete` ends without a fault, reports whether the
-- key was there, and leaves a state whose entries are those without the key.
pub delete_key-refines :
    (c : LruCache) (xs : List Ptr) (k : String)
    → Reps c xs
    → IsValid (view c xs)
    → Returns (Methods.delete_key k c) (Model.delete_key k (view c xs))
unfolding Methods.delete_key Model.delete_key
delete_key-refines c xs k r v = elim (key_cases c xs k r) [
  | inl (gone, out) ↦
      (c, xs, rw (gone, out, Methods.delete_key, Model.delete_key), r, rw (out, Model.delete_key))
  | inr (a, ys, zs, split, key) ↦
      subst₂
        (λ l j.
          Reps c l
          → IsValid (view c l)
          → Returns (Methods.delete_key j c) (Model.delete_key j (view c l)))
        (sym split) key (present c ys a zs) r v
]
