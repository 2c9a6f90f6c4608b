-- ===== src/Lru/Refine/Setting.antt =====
-- `SetInternal` of core/lrucache.go, on all its branches.
use ryan_cache.Prelude.{
  ℕ, ◌+◌, ◌≤◌, ◌≡◌, subst, subst₂, ap, sym, ◌∙◌, inl, inr, ltb, ◌&&◌, false, Bool-cases, none,
  String, String_discrete, List, ◌∷◌, ◌++◌, arith, length, Fresh,
}
use ryan_cache.GoMap.{keys, Fresh-lookup}
use ryan_cache.Lru.Heap.Defs.{Ptr}
use ryan_cache.Lru.Defs.{LruCache, calculate_memory_usage}
use ryan_cache.Lru.Methods.{set_internal}
use ryan_cache.Lru.Index.{find, find-absent, keys-entries}
use ryan_cache.Lru.Model
use ryan_cache.Lru.Model.{View, view, total, IsValid, make_room}
use ryan_cache.Lru.Model.Memory.{total-delete}
use ryan_cache.Lru.Model.Room.{make_room-Fresh}
use ryan_cache.Lru.Refine.Writing.{overwrite-Gives, link_new-Gives}
use ryan_cache.Lru.Refine.Eviction.{evict-Gives, entries-length}
use ryan_cache.Lru.Reps.{Reps, Gives, Absent, key_cases, present-cache, present-items}

-- The entry fits under the memory limit.
abbrev Fits : String → String → LruCache → Type 0
Fits k x c = (ltb 0 c.memory_limit && ltb c.memory_limit (calculate_memory_usage k x)) ≡ false

present :
    (x : String) (c : LruCache) (ys : List Ptr) (a : Ptr) (zs : List Ptr)
    → Reps c (ys ++ a ∷ zs)
    → IsValid (view c (ys ++ a ∷ zs))
    → Fits (c.heap.key a) x c
    → Gives (set_internal (c.heap.key a) x c) (Model.set (c.heap.key a) x (view c (ys ++ a ∷ zs)))
unfolding set_internal Model.set
present x c ys a zs r v fits =
    let item = present-items c ys a zs r in
    let charged : calculate_memory_usage (c.heap.key a) (c.heap.value a) ≤ c.memory_usage =
      omega (arith, v.charged, total-delete (c.heap.key a) (c.heap.value a) _ v.distinct item) in
    let (c1, xs, ran, r1, e) = overwrite-Gives c ys a zs r x charged in
    (
      c1,
      xs,
      rw (fits, present-cache c ys a zs r, set_internal) ran,
      r1,
      rw (fits, item, Model.set, Model.store) e,
    )

absent :
    (k x : String) (c : LruCache) (xs : List Ptr)
    → Reps c xs
    → IsValid (view c xs)
    → Absent c xs k
    → Fits k x c
    → Gives (set_internal k x c) (Model.set k x (view c xs))
unfolding set_internal Model.set
absent k x c xs r v (gone, out) fits =
    let m = calculate_memory_usage k x in
    let (c1, zs, ran, r1, e1) =
      evict-Gives c.size m c xs r v.positive v.charged (omega (arith, r.sized)) in
    let missing : find c1.heap.key k zs ≡ none = find-absent c1.heap.key k zs (
      subst (Fresh k) (keys-entries c1.heap.key c1.heap.value zs) (
        subst {A = View} (λ w. Fresh k (keys w.items)) (sym e1)
          (make_room-Fresh k c.size m (view c xs)
            (Fresh-lookup String_discrete k (view c xs).items out)))) in
    let same : c.size ≡ length (view c xs).items = r.sized ∙ sym (entries-length c xs) in
    let (c2, ws, ran2, r2, e2) = link_new-Gives c1 zs k x r1 missing in
    (
      c2,
      ws,
      rw (fits, gone, ran, set_internal) ran2,
      r2,
      rw (fits, out, Model.set, Model.store)
          (e2
            ∙ ap {A = View} {B = View}
                (λ w. record w { items = (k, x) ∷ w.items; memory_usage = w.memory_usage + m })
                (e1 ∙ ap {A = ℕ} {B = View} (λ n. make_room n m (view c xs)) same)),
    )

-- From a state that represents a valid cache, `SetInternal` ends without a fault and leaves a state
-- that represents what the model leaves.
pub set_internal-refines :
    (k x : String) (c : LruCache) (xs : List Ptr)
    → Reps c xs
    → IsValid (view c xs)
    → Gives (set_internal k x c) (Model.set k x (view c xs))
unfolding set_internal Model.set
set_internal-refines k x c xs r v =
    elim (Bool-cases (ltb 0 c.memory_limit && ltb c.memory_limit (calculate_memory_usage k x))) [
      | inl big ↦ (c, xs, rw (big, set_internal), r, rw (big, Model.set))
      | inr fits ↦ elim (key_cases c xs k r) [
        | inl gone ↦ absent k x c xs r v gone fits
        | inr (a, ys, zs, split, key) ↦
            subst₂
              (λ l j.
                Reps c l
                → IsValid (view c l)
                → Fits j x c
                → Gives (set_internal j x c) (Model.set j x (view c l)))
              (sym split) key (present x c ys a zs) r v fits
      ]
    ]
