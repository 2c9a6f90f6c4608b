-- ===== src/Lru/Refine/Eviction.antt =====
-- The eviction loop of core/lrucache.go takes the least recently used entries, and ends by its own
-- condition within `size` rounds.
use ryan_cache.Prelude.{
  ℕ, zero, suc, ◌-◌, ◌<◌, ◌≤◌, ◌==◌, ◌≡◌, refl, subst, ap, ap₂, sym, ◌∙◌, inl, inr, true, false,
  Bool-cases, String, String_discrete, List, [], ◌∷◌, ◌++◌, arith, length, length-append,
  length-map, snoc-cases, append-nil, subtract_lem,
}
use ryan_cache.GoMap.{delete, lookup-delete}
use ryan_cache.Lru.Heap.Defs.{Ptr}
use ryan_cache.Lru.Heap.Ops.{remove_tail-IsList}
use ryan_cache.Lru.Defs.{LruCache, calculate_memory_usage}
use ryan_cache.Lru.Methods.{must_evict, evict_tail, evict}
use ryan_cache.Lru.Index.{entries, entries-append, find-remove, map-Distinct-remove}
use ryan_cache.Lru.Model.{View, view, total, but_last, last_weight, is_over, make_room}
use ryan_cache.Lru.Model.Memory.{
  but_last-append, last_weight-append, total-but_last, length-but_last,
}
use ryan_cache.Lru.Reps.{Reps, Gives, SameNodes-entries, SameNodes-Distinct}

-- One round drops the last entry and takes its memory back.
evict_tail-Gives :
    (c : LruCache) (ys : List Ptr) (a : Ptr)
    → Reps c (ys ++ a ∷ [])
    → total (view c (ys ++ a ∷ [])).items ≤ c.memory_usage
    → Gives (evict_tail c) (record (view c (ys ++ a ∷ [])) {
      items = but_last (view c (ys ++ a ∷ [])).items;
      memory_usage = c.memory_usage - last_weight (view c (ys ++ a ∷ [])).items;
    })
unfolding evict_tail
evict_tail-Gives c ys a r enough =
    let (h, ran, l, same) = remove_tail-IsList c.heap c.head c.tail ys a r.list in
    let k = c.heap.key a in
    let m = calculate_memory_usage k (c.heap.value a) in
    let snoc = entries-append c.heap.key c.heap.value ys (a ∷ []) in
    let weight : last_weight (view c (ys ++ a ∷ [])).items ≡ m =
      ap last_weight snoc
      ∙ last_weight-append (entries c.heap.key c.heap.value ys) (k, c.heap.value a) in
    let rest : but_last (view c (ys ++ a ∷ [])).items ≡ entries c.heap.key c.heap.value ys =
      ap but_last snoc ∙ but_last-append (entries c.heap.key c.heap.value ys) (k, c.heap.value a) in
    let paid : m ≤ c.memory_usage =
      omega (arith, enough, weight, total-but_last (view c (ys ++ a ∷ [])).items) in
    let few : 1 ≤ c.size = omega (arith, r.sized, length-append ys (a ∷ [])) in
    (
      record c {
        heap = h;
        memory_usage = c.memory_usage - m;
        cache = delete String_discrete k c.cache;
        size = c.size - 1;
      },
      ys ++ [],
      rw (ran, same.key, same.value, subtract_lem c.memory_usage m paid, subtract_lem c.size 1 few),
      record {
        list = l;
        indexed = λ j.
            rw (same.key, lookup-delete String_discrete k j c.cache, r.indexed j)
              (sym (find-remove c.heap.key j ys a [] r.distinct));
        sized = omega (arith, r.sized, length-append ys (a ∷ []), length-append ys []);
        distinct =
            SameNodes-Distinct (ys ++ []) same (map-Distinct-remove c.heap.key ys a [] r.distinct);
      },
      ap₂ {A = List (String × String)} {B = ℕ} {C = View}
          (λ i n. record (view c (ys ++ a ∷ [])) { items = i; memory_usage = c.memory_usage - n })
          (SameNodes-entries (ys ++ []) same
            ∙ ap (entries c.heap.key c.heap.value) (append-nil ys)
            ∙ sym rest)
          (sym weight),
    )

is_over-must_evict :
    (new_memory : ℕ) (c : LruCache) (xs : List Ptr)
    → c.size ≡ length xs
    → must_evict new_memory c ≡ is_over new_memory (view c xs)
unfolding must_evict is_over
is_over-must_evict new_memory c xs e =
    rw (e, length-map {B = String × String} xs (λ p. (c.heap.key p, c.heap.value p)))

must_evict_empty :
    (new_memory : ℕ) (c : LruCache) → c.size ≡ 0 → 0 < c.capacity → must_evict new_memory c ≡ false
unfolding must_evict
must_evict_empty new_memory c e h = ground arith

stop-Gives :
    (n new_memory : ℕ) (c : LruCache) (xs : List Ptr)
    → Reps c xs
    → must_evict new_memory c ≡ false
    → Gives (evict (suc n) new_memory c) (make_room n new_memory (view c xs))
unfolding evict make_room
stop-Gives zero new_memory c xs r e = (c, xs, rw e, r, refl)
stop-Gives (suc n) new_memory c xs r e =
    (c, xs, rw e, r, rw (sym (is_over-must_evict new_memory c xs r.sized) ∙ e, make_room))

nonzero : (n : ℕ) → 0 < n → (n == 0) ≡ false
nonzero n h = ground arith

pub entries-length : (c : LruCache) (xs : List Ptr) → length (view c xs).items ≡ length xs
entries-length c xs = length-map {B = String × String} xs (λ p. (c.heap.key p, c.heap.value p))

-- What the loop is to do, on fuel that exceeds the number of entries.
abbrev Evicts : ℕ → ℕ → LruCache → List Ptr → Type 0
Evicts n new_memory c xs =
    Reps c xs
    → 0 < c.capacity
    → total (view c xs).items ≤ c.memory_usage
    → length xs ≤ n
    → Gives (evict (suc n) new_memory c) (make_room n new_memory (view c xs))

more-Gives :
    (n new_memory : ℕ) (c : LruCache) (ys : List Ptr) (a : Ptr)
    → ((d : LruCache) (zs : List Ptr) → Evicts n new_memory d zs)
    → must_evict new_memory c ≡ true
    → Evicts (suc n) new_memory c (ys ++ a ∷ [])
unfolding evict make_room
more-Gives n new_memory c ys a again e r positive charged enough =
    let (c1, zs, ran, r1, v) = evict_tail-Gives c ys a r charged in
    let items = (view c (ys ++ a ∷ [])).items in
    let over = sym (is_over-must_evict new_memory c (ys ++ a ∷ []) r.sized) ∙ e in
    let used : c1.memory_usage ≡ c.memory_usage - last_weight items =
      ap {A = View} {B = ℕ} (λ w. w.memory_usage) v in
    let kept = ap {A = View} {B = List (String × String)} (λ w. w.items) v in
    let paid : total (view c1 zs).items ≤ c1.memory_usage =
      rw (kept, used) (omega (arith, charged, total-but_last items)) in
    let room : 0 < c1.capacity = rw (ap {A = View} {B = ℕ} (λ w. w.capacity) v) positive in
    let fewer : length zs ≤ n = omega (
      arith,
      enough,
      ap {B = ℕ} length kept,
      length-but_last items,
      entries-length c (ys ++ a ∷ []),
      entries-length c1 zs,
    ) in
    let busy : (c.size == 0) ≡ false =
      nonzero c.size (omega (arith, r.sized, length-append ys (a ∷ []))) in
    let (c2, ws, ran2, r2, v2) = again c1 zs r1 room paid fewer in
    (
      c2,
      ws,
      rw (e, busy, ran) ran2,
      r2,
      rw (over, make_room) (v2 ∙ ap {A = View} {B = View} (make_room n new_memory) v),
    )

-- The loop does what `make_room` does.
pub evict-Gives : (n new_memory : ℕ) (c : LruCache) (xs : List Ptr) → Evicts n new_memory c xs
evict-Gives zero new_memory c xs r positive charged enough =
    stop-Gives zero new_memory c xs r
      (must_evict_empty new_memory c (omega (arith, r.sized)) positive)
evict-Gives (suc n) new_memory c xs r positive charged enough =
    elim (Bool-cases (must_evict new_memory c)) [
      | inr e ↦ stop-Gives (suc n) new_memory c xs r e
      | inl e ↦ elim (snoc-cases xs) [
        | inl empty ↦
            absurd (cc (must_evict_empty new_memory c (r.sized ∙ ap length empty) positive))
        | inr (ys, a, split) ↦
            subst (Evicts (suc n) new_memory c) (sym split)
              (more-Gives n new_memory c ys a (evict-Gives n new_memory) e) r positive charged
              enough
      ]
    ]
