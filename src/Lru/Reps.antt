-- ===== src/Lru/Reps.antt =====
-- When a state of core/lrucache.go represents a list of nodes, and what the shared steps of its
-- methods do to that list.
use ryan_cache.Prelude.{
  ℕ, Option, ◌<◌, ◌∙◌, none, some, ◌⊎◌, inl, inr, All-remove, Option-cases, ◌-◌, ◌≤◌, ◌≡◌, sym, ap,
  String, String_discrete, List, ◌∷◌, ◌++◌, map, arith, Distinct, length, length-append, Result, ok,
  subtract_lem,
}
use ryan_cache.GoMap.{GoMap, lookup, delete, lookup-delete}
use ryan_cache.Lru.Heap.Defs.{Ptr, Heap, deref}
use ryan_cache.Lru.Heap.Ops.{IsList, SameNodes, Allocated, remove_node-IsList}
use ryan_cache.Lru.Defs.{LruCache, Time, CacheStats, CleanupStats, calculate_memory_usage}
use ryan_cache.Lru.Methods.{unlink, unlink_charged}
use ryan_cache.Lru.Index.{
  find, map-Distinct-remove, find-remove, find-split, find_at, lookup-entries, entries,
  entries-remove,
}
use ryan_cache.Lru.Model.{View, view}

-- The pointers spell the list, the hash table finds exactly its nodes, `size` counts them, and no
-- key has two nodes.
pub record Reps (c : LruCache) (xs : List Ptr) : Type 0 where
  pub list : IsList c.heap c.head xs c.tail
  pub indexed : (k : String) → lookup String_discrete k c.cache ≡ find c.heap.key k xs
  pub sized : c.size ≡ length xs
  pub distinct : Distinct (map c.heap.key xs)

-- A computation of the code ends without a fault in a state whose view is `v`.
abbrev pub Gives : Result LruCache → View → Type 0
Gives r v = (c : LruCache) × (xs : List Ptr) × (r ≡ ok c) × Reps c xs × (view c xs ≡ v)

module _ (c : LruCache) (ys : List Ptr) (a : Ptr) (zs : List Ptr) where
  -- The shared steps of every deletion take one node out of the list and its key out of the view.
  pub unlink-Reps :
      Reps c (ys ++ a ∷ zs)
      → (c' : LruCache) × (unlink (c.heap.key a) a c ≡ ok c')
        × Reps c' (ys ++ zs)
        × (view c' (ys ++ zs) ≡ record (view c (ys ++ a ∷ zs)) {
          items =
              delete String_discrete
                (c.heap.key a)
                (entries c.heap.key c.heap.value (ys ++ a ∷ zs));
        })
  unfolding unlink
  unlink-Reps r =
      let (h, ran, l, same) = remove_node-IsList c.heap c.head c.tail ys a zs r.list in
      let k = c.heap.key a in
      let c' = record c { heap = h; cache = delete String_discrete k c.cache; size = c.size - 1 } in
      let few : 1 ≤ c.size = omega (arith, r.sized, length-append ys (a ∷ zs)) in
      (
        c',
        rw (ran, subtract_lem c.size 1 few),
        record {
          list = l;
          indexed = λ j.
              rw (same.key, lookup-delete String_discrete k j c.cache, r.indexed j)
                (sym (find-remove c.heap.key j ys a zs r.distinct));
          sized = omega (arith, r.sized, length-append ys (a ∷ zs), length-append ys zs);
          distinct = rw same.key (map-Distinct-remove c.heap.key ys a zs r.distinct);
        },
        rw (same.key, same.value)
            (ap (λ m. record (view c (ys ++ a ∷ zs)) { items = m })
              (entries-remove c.heap.key c.heap.value ys a zs r.distinct)),
      )

-- The same of a method that also returns something.
abbrev pub Returns : {B : Type 0} → Result (LruCache × B) → View × B → Type 0
Returns r vb =
    (c : LruCache) × (xs : List Ptr) × (r ≡ ok (c, vb.1)) × Reps c xs × (view c xs ≡ vb.0)

-- What the hash table says of a key, and what the entries do.
abbrev pub Absent : LruCache → List Ptr → String → Type 0
Absent c xs k =
    (lookup String_discrete k c.cache ≡ none) × (lookup String_discrete k (view c xs).items ≡ none)

abbrev pub Present : LruCache → List Ptr → String → Type 0
Present c xs k =
    (a : Ptr) × (ys : List Ptr) × (zs : List Ptr) × (xs ≡ ys ++ a ∷ zs) × (c.heap.key a ≡ k)

pub key_cases :
    (c : LruCache) (xs : List Ptr) (k : String) → Reps c xs → Absent c xs k ⊎ Present c xs k
key_cases c xs k r = elim (Option-cases (find c.heap.key k xs)) [
  | inl e ↦ inl (r.indexed k ∙ e, lookup-entries c.heap.key c.heap.value k xs ∙ rw e)
  | inr (a, e) ↦ inr (let (ys, zs, s, f) = find-split c.heap.key k xs a e in (a, ys, zs, s, f))
]

module _ (c : LruCache) (ys : List Ptr) (a : Ptr) (zs : List Ptr) (r : Reps c (ys ++ a ∷ zs)) where
  pub present-cache : lookup String_discrete (c.heap.key a) c.cache ≡ some a
  present-cache = r.indexed (c.heap.key a) ∙ find_at c.heap.key ys a zs r.distinct

  pub present-items :
      lookup String_discrete (c.heap.key a) (view c (ys ++ a ∷ zs)).items ≡ some (c.heap.value a)
  present-items =
      lookup-entries c.heap.key c.heap.value (c.heap.key a) (ys ++ a ∷ zs)
      ∙ rw (find_at c.heap.key ys a zs r.distinct)

  pub present-real : 0 < a
  present-real = (All-remove (Allocated c.heap.fresh) ys a zs r.list.allocated.1.1).0.0

-- The fields that no pointer reaches may change.
pub Reps-update :
    (c : LruCache) (xs : List Ptr)
    → Reps c xs
    → (ttl : Option (GoMap String Time)) (cleanups : CleanupStats) (stats : CacheStats) (usage : ℕ)
    → Reps
        (record c { ttl_map = ttl; cleanup_stats = cleanups; stats = stats; memory_usage = usage })
        xs
Reps-update c xs r ttl cleanups stats usage = record {
  list = r.list;
  indexed = r.indexed;
  sized = r.sized;
  distinct = r.distinct;
}

pub deref_lem {ℓ} : {A : Type ℓ} (p : Ptr) (a : A) → 0 < p → deref p a ≡ ok a
unfolding deref
deref_lem p a h = ground arith

-- A deletion that takes the memory of the entry back.
pub unlink_charged-Reps :
    (c : LruCache) (ys : List Ptr) (a : Ptr) (zs : List Ptr)
    → Reps c (ys ++ a ∷ zs)
    → calculate_memory_usage (c.heap.key a) (c.heap.value a) ≤ c.memory_usage
    → (c' : LruCache) × (unlink_charged (c.heap.key a) a c ≡ ok c')
      × Reps c' (ys ++ zs)
      × (view c' (ys ++ zs) ≡ record (view c (ys ++ a ∷ zs)) {
        items =
            delete String_discrete (c.heap.key a) (entries c.heap.key c.heap.value (ys ++ a ∷ zs));
        memory_usage = c.memory_usage - calculate_memory_usage (c.heap.key a) (c.heap.value a);
      })
unfolding unlink_charged
unlink_charged-Reps c ys a zs r enough =
    let m = calculate_memory_usage (c.heap.key a) (c.heap.value a) in
    let usage = c.memory_usage - m in
    let paid = Reps-update c (ys ++ a ∷ zs) r c.ttl_map c.cleanup_stats c.stats usage in
    let (c', ran, r', e) = unlink-Reps (record c { memory_usage = usage }) ys a zs paid in
    (
      c',
      rw
          (
            deref_lem a (c.heap.value a) (present-real c ys a zs r),
            subtract_lem c.memory_usage m enough,
          )
          ran,
      r',
      e,
    )

-- Operations on pointers keep the entries of a list, and its keys.
pub SameNodes-entries :
    {h h' : Heap} (xs : List Ptr)
    → SameNodes h h'
    → entries h'.key h'.value xs ≡ entries h.key h.value xs
SameNodes-entries xs s = rw (s.key, s.value)

pub SameNodes-Distinct :
    {h h' : Heap} (xs : List Ptr)
    → SameNodes h h'
    → Distinct (map h.key xs)
    → Distinct (map h'.key xs)
SameNodes-Distinct xs s d = rw s.key d
