-- ===== src/Lru/Heap/Ops.antt =====
-- What `addToHead`, `removeNode`, `moveToHead` and `removeTail` of core/lrucache.go do to a list:
-- none of them meets a nil pointer, and each changes the order of the nodes and nothing else.
use ryan_cache.Prelude.{
  ◌<◌, ◌≡◌, refl, sym, ◌∙◌, ◌≢◌, List, [], ◌∷◌, ◌++◌, arith, All, Fresh, Distinct, All-split,
  Distinct-remove, All-remove, ok,
}
use ryan_cache.Lru.Heap.Defs.{
  Ptr, Heap, update, deref, set_prev, set_next, add_to_head, remove_node, move_to_head, remove_tail,
}
use ryan_cache.Lru.Heap.Chain.{
  Linked, Linked-at, Linked-first, Linked-last, Linked-remove, Linked-restart, Linked-set_next,
  first, last, Linked-set_prev, first_ne, last_ne, update_self, update_ne,
}

-- An address that holds a node.
abbrev pub Allocated : Ptr → Ptr → Type 0
Allocated fresh p = (0 < p) × (p < fresh)

-- The heap spells the list `xs` between the sentinels.
pub record IsList (h : Heap) (head : Ptr) (xs : List Ptr) (tail : Ptr) : Type 0 where
  pub linked : Linked h.next h.prev head xs tail
  pub apart : Distinct (head ∷ tail ∷ xs)
  pub allocated : All (Allocated h.fresh) (head ∷ tail ∷ xs)

-- Only pointers differ.
pub record SameNodes (h h' : Heap) : Type 0 where
  pub key : h'.key ≡ h.key
  pub value : h'.value ≡ h.value
  pub fresh : h'.fresh ≡ h.fresh

abbrev unlinked : Heap → Ptr → Ptr → Heap
unlinked h p n = record h { next = update h.next p n; prev = update h.prev n p }

remove_node_lem :
    (h : Heap) (a p n : Ptr)
    → h.prev a ≡ p
    → h.next a ≡ n
    → a ≢ p
    → 0 < a
    → 0 < p
    → 0 < n
    → remove_node a h ≡ ok (unlinked h p n)
unfolding remove_node set_prev set_next deref
remove_node_lem h a p n ep en ne ha hp hn = ground (arith, update_ne h.next p n a)

abbrev linked_at_head : Heap → Ptr → Ptr → Ptr → Heap
linked_at_head h head m node = record h {
  next = update (update h.next node m) head node;
  prev = update (update h.prev node head) m node;
}

add_to_head_lem :
    (h : Heap) (head m node : Ptr)
    → h.next head ≡ m
    → head ≢ node
    → 0 < head
    → 0 < m
    → 0 < node
    → add_to_head head node h ≡ ok (linked_at_head h head m node)
unfolding add_to_head set_prev set_next deref
add_to_head_lem h head m node em ne hh hm hn = ground (arith, update_ne h.next node m head)

All-first {κ} : (P : Ptr → Type κ) (xs : List Ptr) (q : Ptr) → All P xs → P q → P (first xs q)
All-first P [] q h k = k
All-first P (x ∷ xs) q h k = h.0

All-last {κ} : (P : Ptr → Type κ) (p : Ptr) (xs : List Ptr) → P p → All P xs → P (last p xs)
All-last P p [] k h = k
All-last P p (x ∷ xs) k h = All-last P x xs h.0 h.1

last-append : (p : Ptr) (ys : List Ptr) (a : Ptr) → last p (ys ++ a ∷ []) ≡ a
last-append p [] a = refl
last-append p (y ∷ ys) a = last-append y ys a

module _ (h : Heap) (head tail : Ptr) where
  -- `removeNode` takes one node out, wherever it stands.
  pub remove_node-IsList :
      (ys : List Ptr) (a : Ptr) (zs : List Ptr)
      → IsList h head (ys ++ a ∷ zs) tail
      → (h' : Heap) × (remove_node a h ≡ ok h') × IsList h' head (ys ++ zs) tail × SameNodes h h'
  remove_node-IsList ys a zs l =
      let (real_a, others) = All-remove (Allocated h.fresh) ys a zs l.allocated.1.1 in
      let (real_ys, real_zs) = All-split (Allocated h.fresh) ys zs others in
      let (fresh_a, distinct) = Distinct-remove ys a zs l.apart.1.1 in
      let (fresh_ys, fresh_zs) = All-split (λ x. x ≢ a) ys zs fresh_a in
      let (head_a, head_others) = All-remove (λ x. x ≢ head) ys a zs l.apart.0.1 in
      let (tail_a, tail_others) = All-remove (λ x. x ≢ tail) ys a zs l.apart.1.0 in
      let p = last head ys in
      let n = first zs tail in
      let (prev_a, next_a) = Linked-at h.next h.prev head ys a zs tail l.linked in
      (
        unlinked h p n,
        remove_node_lem h a p n prev_a next_a
            (λ e. last_ne head ys a (λ i. head_a (sym i)) fresh_ys (sym e)) real_a.0
            (All-last (Allocated h.fresh) head ys l.allocated.0 real_ys).0
            (All-first (Allocated h.fresh) zs tail real_zs l.allocated.1.0).0,
        record {
          linked = Linked-remove h.next h.prev a zs tail head ys l.apart l.linked;
          apart = ((l.apart.0.0, head_others), (tail_others, distinct));
          allocated = (l.allocated.0, (l.allocated.1.0, others));
        },
        record { key = refl; value = refl; fresh = refl },
      )

  -- `addToHead` puts an allocated node outside the list in front.
  pub add_to_head-IsList :
      (xs : List Ptr) (a : Ptr)
      → IsList h head xs tail
      → Allocated h.fresh a
      → Fresh a (head ∷ tail ∷ xs)
      → (h' : Heap) × (add_to_head head a h ≡ ok h') × IsList h' head (a ∷ xs) tail × SameNodes h h'
  add_to_head-IsList xs a l real new =
      let m = first xs tail in
      let next_head = Linked-first h.next h.prev head xs tail l.linked in
      (
        linked_at_head h head m a,
        add_to_head_lem h head m a next_head new.0 l.allocated.0.0
            (All-first (Allocated h.fresh) xs tail l.allocated.1.1 l.allocated.1.0).0 real.0,
        record {
          linked = (
            update_self (update h.next a m) head a,
            ground (
              arith,
              update_ne (update h.prev a head) m a a,
              update_self h.prev a head,
              first_ne xs tail a new.1.1 new.1.0,
            ),
            Linked-restart (update h.next a m) (update h.prev a head) head a tail head a xs
                (ground (arith, update_ne (update h.next a m) head a a, update_self h.next a m))
                l.apart.0.1 l.apart.1
                (Linked-set_next h.next (update h.prev a head) a m head xs tail new.0 new.1.1
                  (Linked-set_prev h.next h.prev a head head xs tail new.1.0 new.1.1 l.linked)),
          );
          apart = (
            (l.apart.0.0, ((λ e. new.0 (sym e)), l.apart.0.1)),
            (((λ e. new.1.0 (sym e)), l.apart.1.0), (new.1.1, l.apart.1.1)),
          );
          allocated = (l.allocated.0, (l.allocated.1.0, (real, l.allocated.1.1)));
        },
        record { key = refl; value = refl; fresh = refl },
      )

SameNodes-trans : {h i j : Heap} → SameNodes h i → SameNodes i j → SameNodes h j
SameNodes-trans s t = record {
  key = t.key ∙ s.key;
  value = t.value ∙ s.value;
  fresh = t.fresh ∙ s.fresh;
}

module _ (h : Heap) (head tail : Ptr) where
  -- A node that was taken out is outside the list that is left.
  removed-Fresh :
      (ys : List Ptr) (a : Ptr) (zs : List Ptr)
      → IsList h head (ys ++ a ∷ zs) tail
      → Fresh a (head ∷ tail ∷ ys ++ zs) × Allocated h.fresh a
  removed-Fresh ys a zs l =
      let head_a = (All-remove (λ x. x ≢ head) ys a zs l.apart.0.1).0 in
      let tail_a = (All-remove (λ x. x ≢ tail) ys a zs l.apart.1.0).0 in
      (
        ((λ e. head_a (sym e)), ((λ e. tail_a (sym e)), (Distinct-remove ys a zs l.apart.1.1).0)),
        (All-remove (Allocated h.fresh) ys a zs l.allocated.1.1).0,
      )

  -- `moveToHead` moves one node to the front.
  pub move_to_head-IsList :
      (ys : List Ptr) (a : Ptr) (zs : List Ptr)
      → IsList h head (ys ++ a ∷ zs) tail
      → (h' : Heap) × (move_to_head head a h ≡ ok h')
        × IsList h' head (a ∷ ys ++ zs) tail
        × SameNodes h h'
  unfolding move_to_head
  move_to_head-IsList ys a zs l =
      let (h1, ran, l1, same) = remove_node-IsList h head tail ys a zs l in
      let (new, real) = removed-Fresh ys a zs l in
      let (h2, ran2, l2, same2) =
        add_to_head-IsList h1 head tail (ys ++ zs) a l1 (rw same.fresh real) new in
      (h2, rw (ran, ran2), l2, SameNodes-trans same same2)

  -- `removeTail` takes out the last node and returns it.
  pub remove_tail-IsList :
      (ys : List Ptr) (a : Ptr)
      → IsList h head (ys ++ a ∷ []) tail
      → (h' : Heap) × (remove_tail tail h ≡ ok (a, h'))
        × IsList h' head (ys ++ []) tail
        × SameNodes h h'
  unfolding remove_tail deref
  remove_tail-IsList ys a l =
      let (h1, ran, l1, same) = remove_node-IsList h head tail ys a [] l in
      let e : h.prev tail ≡ a =
        Linked-last h.next h.prev head (ys ++ a ∷ []) tail l.linked ∙ last-append head ys a in
      (h1, ground (arith, ran, e), l1, same)
