-- ===== src/Lru/Refine/Writing.antt =====
-- The two ends of `SetInternal` of core/lrucache.go: the new value of a key that is present, and the
-- node of a key that is not.
use ryan_cache.Prelude.{
  suc, ◌+◌, ◌-◌, ◌≤◌, ◌≡◌, ◌≢◌, ap, sym, ◌∙◌, none, String, String_discrete, List, ◌∷◌, ◌++◌, arith,
  length-append, subtract_lem, All, All-map, Fresh, Distinct-remove,
}
use ryan_cache.GoMap.{delete, insert, lookup-insert}
use ryan_cache.Lru.Heap.Defs.{Ptr, Heap, nil, update, set_value, new_node}
use ryan_cache.Lru.Heap.Chain.{update_self, Linked-set_next, Linked-set_prev}
use ryan_cache.Lru.Heap.Ops.{IsList, Allocated, move_to_head-IsList, add_to_head-IsList}
use ryan_cache.Lru.Defs.{LruCache, calculate_memory_usage}
use ryan_cache.Lru.Methods.{overwrite, link_new}
use ryan_cache.Lru.Index.{
  find, entries, entries-remove, entries-set_value, find-front, find-Fresh, find-new, entries-new,
  map-new, map-Distinct-front,
}
use ryan_cache.Lru.Model.{View, view}
use ryan_cache.Lru.Reps.{
  Reps, Gives, present-real, deref_lem, SameNodes-entries, SameNodes-Distinct,
}

module _ (c : LruCache) (ys : List Ptr) (a : Ptr) (zs : List Ptr) (r : Reps c (ys ++ a ∷ zs)) where
  -- The entry goes to the front with the new value, and its memory is counted anew.
  pub overwrite-Gives :
      (x : String)
      → calculate_memory_usage (c.heap.key a) (c.heap.value a) ≤ c.memory_usage
      → Gives (overwrite (c.heap.key a) x a c) (record (view c (ys ++ a ∷ zs)) {
        items =
            (c.heap.key a, x)
            ∷ delete String_discrete
                (c.heap.key a)
                (entries c.heap.key c.heap.value (ys ++ a ∷ zs));
        memory_usage =
            c.memory_usage
            - calculate_memory_usage (c.heap.key a) (c.heap.value a)
            + calculate_memory_usage (c.heap.key a) x;
      })
  unfolding overwrite set_value
  overwrite-Gives x enough =
      let k = c.heap.key a in
      let h1 = record (c.heap) { value = update c.heap.value a x } in
      let l1 : IsList h1 c.head (ys ++ a ∷ zs) c.tail = record {
        linked = r.list.linked;
        apart = r.list.apart;
        allocated = r.list.allocated;
      } in
      let (h, ran, l, same) = move_to_head-IsList h1 c.head c.tail ys a zs l1 in
      let usage = c.memory_usage - calculate_memory_usage k (c.heap.value a) in
      let paid = usage + calculate_memory_usage k x in
      let others = (Distinct-remove ys a zs r.list.apart.1.1).0 in
      let real = present-real c ys a zs r in
      (
        record c { heap = h; memory_usage = paid },
        a ∷ ys ++ zs,
        rw (
          deref_lem a (c.heap.value a) real,
          subtract_lem c.memory_usage (calculate_memory_usage k (c.heap.value a)) enough,
          deref_lem a h1 real,
          ran,
        ),
        record {
          list = l;
          indexed =
              λ j. rw (same.key, r.indexed j) (sym (find-front c.heap.key j ys a zs r.distinct));
          sized = omega (arith, r.sized, length-append ys (a ∷ zs), length-append ys zs);
          distinct =
              SameNodes-Distinct (a ∷ ys ++ zs) same
                (map-Distinct-front c.heap.key ys a zs r.distinct);
        },
        ap {A = List (String × String)} {B = View}
            (λ m. record (view c (ys ++ a ∷ zs)) { items = m; memory_usage = paid })
            (SameNodes-entries (a ∷ ys ++ zs) same
              ∙ rw
                  (
                    update_self c.heap.value a x,
                    entries-set_value c.heap.key c.heap.value a x (ys ++ zs) others,
                  )
                  (ap (◌∷◌ (k, x)) (entries-remove c.heap.key c.heap.value ys a zs r.distinct))),
      )

-- A new node lies outside every list.
new-Fresh : (n : Ptr) (xs : List Ptr) → All (Allocated n) xs → Fresh n xs
new-Fresh n xs h = All-map (Allocated n) (λ x. x ≢ n) (λ p q. omega arith) xs h

older : (n : Ptr) (xs : List Ptr) → All (Allocated n) xs → All (Allocated (suc n)) xs
older n xs h = All-map (Allocated n) (Allocated (suc n)) (λ p q. (q.0, omega arith)) xs h

new_node-IsList :
    (h : Heap) (head : Ptr) (xs : List Ptr) (tail : Ptr) (k x : String)
    → IsList h head xs tail
    → IsList (new_node k x h).1 head xs tail
unfolding new_node
new_node-IsList h head xs tail k x l =
    let new = new-Fresh h.fresh (head ∷ tail ∷ xs) l.allocated in
    record {
      linked =
          Linked-set_next h.next (update h.prev h.fresh nil) h.fresh nil head xs tail new.0 new.1.1
            (Linked-set_prev h.next h.prev h.fresh nil head xs tail new.1.0 new.1.1 l.linked);
      apart = l.apart;
      allocated = older h.fresh (head ∷ tail ∷ xs) l.allocated;
    }

-- The node of a key that is absent goes to the front.
pub link_new-Gives :
    (c : LruCache) (xs : List Ptr) (k x : String)
    → Reps c xs
    → find c.heap.key k xs ≡ none
    → Gives (link_new k x c) (record (view c xs) {
      items = (k, x) ∷ entries c.heap.key c.heap.value xs;
      memory_usage = c.memory_usage + calculate_memory_usage k x;
    })
unfolding link_new new_node
link_new-Gives c xs k x r gone =
    let n = c.heap.fresh in
    let new = new-Fresh n (c.head ∷ c.tail ∷ xs) r.list.allocated in
    let l1 = new_node-IsList c.heap c.head xs c.tail k x r.list in
    let h1 = (new_node k x c.heap).1 in
    let (h, ran, l, same) =
      add_to_head-IsList h1 c.head c.tail xs n l1 (omega (arith, r.list.allocated.0)) new in
    let usage = c.memory_usage + calculate_memory_usage k x in
    (
      record c {
        heap = h;
        cache = insert String_discrete k n c.cache;
        memory_usage = usage;
        size = c.size + 1;
      },
      n ∷ xs,
      rw ran,
      record {
        list = l;
        indexed = λ j.
            rw (same.key, lookup-insert String_discrete k j n c.cache, r.indexed j)
              (sym (find-new c.heap.key c.heap.value n k x xs new.1.1 j));
        sized = ground (arith, r.sized);
        distinct = SameNodes-Distinct (n ∷ xs) same (
            map-new c.heap.key c.heap.value n k x xs new.1.1 (find-Fresh c.heap.key k xs gone)
              r.distinct);
      },
      ap {A = List (String × String)} {B = View}
          (λ m. record (view c xs) { items = m; memory_usage = usage })
          (SameNodes-entries (n ∷ xs) same ∙ entries-new c.heap.key c.heap.value n k x xs new.1.1),
    )
