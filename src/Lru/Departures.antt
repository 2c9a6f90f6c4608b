-- ===== src/Lru/Departures.antt =====
-- Where core/lrucache.go departs from what its comments promise: each for the class of states that
-- show it.
use ryan_cache.Prelude.{
  ℕ, ◌+◌, ◌-◌, ◌<◌, ◌≡◌, ap, subst, subst₂, sym, ◌∙◌, inl, inr, true, false, ◌&&◌, ltb, String,
  String_discrete, List, [], ◌∷◌, ◌++◌, none, some, arith, ok, panic, nil_map,
}
use ryan_cache.GoMap.{lookup, insert, delete}
use ryan_cache.Lru.Heap.Defs.{Ptr}
use ryan_cache.Lru.Defs.{Time, LruCache, calculate_memory_usage}
use ryan_cache.Lru.Methods
use ryan_cache.Lru.Methods.{
  Reply, set_internal, set_with_ttl, set_expiry, ttl_lookup, is_expired, count_request, count_hit,
  hit,
}
use ryan_cache.Lru.Batch.{get_multi, get_keys}
use ryan_cache.Lru.Model
use ryan_cache.Lru.Model.{View, view, IsValid, total}
use ryan_cache.Lru.Model.Memory.{total-delete}
use ryan_cache.Lru.Model.Valid.{set-IsValid}
use ryan_cache.Lru.Reps.{Reps, key_cases, present-cache, present-items}
use ryan_cache.Lru.Refine.Setting.{set_internal-refines}
use ryan_cache.Lru.Refine.Reading.{get-refines, hit-Returns, counted}
use ryan_cache.Lru.History.Sound.{set-ttl_map}
use ryan_cache.Lru.Behaviour.{Fits, lookup-set}

get-late :
    (now : Time) (k x : String) (v : View)
    → IsValid v
    → lookup String_discrete k v.items ≡ some x
    → is_expired now (ttl_lookup k v.ttl_map) ≡ true
    → ((Model.get now k v).1 ≡ ("", false))
      × (total (Model.get now k v).0.items + calculate_memory_usage k x ≡ total v.items)
      × ((Model.get now k v).0.memory_usage ≡ v.memory_usage)
unfolding Model.get
get-late now k x v h e late = (
  rw (e, Model.get, late),
  rw (e, Model.get, late) (total-delete k x v.items h.distinct e),
  rw (e, Model.get, late),
)

-- A read of an expired key drops the entry and keeps its memory counted: from a count that is exact,
-- the count is afterwards too large by the memory of the entry.
pub get-leaks :
    (now : Time) (k x : String) (c : LruCache) (xs : List Ptr)
    → Reps c xs
    → IsValid (view c xs)
    → lookup String_discrete k (view c xs).items ≡ some x
    → is_expired now (ttl_lookup k c.ttl_map) ≡ true
    → c.memory_usage ≡ total (view c xs).items
    → (c1 : LruCache) × (ys : List Ptr) × (Methods.get now k c ≡ ok (c1, ("", false)))
      × Reps c1 ys
      × (c1.memory_usage ≡ total (view c1 ys).items + calculate_memory_usage k x)
get-leaks now k x c xs r v e late exact =
    let (c1, ys, ran, r1, w) = get-refines now c xs k r in
    let (answer, less, same) = get-late now k x (view c xs) v e late in
    (
      c1,
      ys,
      ran ∙ ap {A = Reply} (λ a. ok (c1, a)) answer,
      r1,
      ap {A = View} {B = ℕ} (λ u. u.memory_usage) w
          ∙ same
          ∙ exact
          ∙ sym less
          ∙ ap {A = View} {B = ℕ} (λ u. total u.items + calculate_memory_usage k x) (sym w),
    )

store-present :
    (k x old : String) (v : View)
    → (ltb 0 v.memory_limit && ltb v.memory_limit (calculate_memory_usage k x)) ≡ false
    → lookup String_discrete k v.items ≡ some old
    → (Model.set k x v).memory_usage
      ≡ v.memory_usage - calculate_memory_usage k old + calculate_memory_usage k x
unfolding Model.set Model.store
store-present k x old v fits e = rw (fits, e, Model.set, Model.store)

store-present_limit :
    (k x old : String) (v : View)
    → (ltb 0 v.memory_limit && ltb v.memory_limit (calculate_memory_usage k x)) ≡ false
    → lookup String_discrete k v.items ≡ some old
    → (Model.set k x v).memory_limit ≡ v.memory_limit
unfolding Model.set Model.store
store-present_limit k x old v fits e = rw (fits, e, Model.set, Model.store)

store-present_items :
    (k x old : String) (v : View)
    → (ltb 0 v.memory_limit && ltb v.memory_limit (calculate_memory_usage k x)) ≡ false
    → lookup String_discrete k v.items ≡ some old
    → (Model.set k x v).items ≡ (k, x) ∷ delete String_discrete k v.items
unfolding Model.set Model.store
store-present_items k x old v fits e = rw (fits, e, Model.set, Model.store)

-- A new value for a key that is present evicts nothing: where there is a memory limit, the entry
-- alone fits under it and the cache with it does not, `SetInternal` ends with the same entries but
-- for the new value, which stands in front, and with exactly the difference of the two entries added
-- to the memory count, which is then above the limit.
pub set_internal-exceeds_limit :
    (k x old : String) (c : LruCache) (xs : List Ptr)
    → Reps c xs
    → IsValid (view c xs)
    → 0 < c.memory_limit
    → Fits k x c
    → lookup String_discrete k (view c xs).items ≡ some old
    → c.memory_limit < c.memory_usage - calculate_memory_usage k old + calculate_memory_usage k x
    → (c1 : LruCache) × (ys : List Ptr) × (set_internal k x c ≡ ok c1)
      × Reps c1 ys
      × ((view c1 ys).items ≡ (k, x) ∷ delete String_discrete k (view c xs).items)
      × (c1.memory_usage
          ≡ c.memory_usage - calculate_memory_usage k old + calculate_memory_usage k x)
      × (c1.memory_limit < c1.memory_usage)
set_internal-exceeds_limit k x old c xs r v limited fits e over =
    let (c1, ys, ran, r1, w) = set_internal-refines k x c xs r v in
    let usage =
      ap {A = View} {B = ℕ} (λ u. u.memory_usage) w ∙ store-present k x old (view c xs) fits e in
    let kept = ap {A = View} (λ u. u.items) w ∙ store-present_items k x old (view c xs) fits e in
    let limit =
      ap {A = View} {B = ℕ} (λ u. u.memory_limit) w
      ∙ store-present_limit k x old (view c xs) fits e in
    (c1, ys, ran, r1, kept, usage, omega (arith, over, usage, limit))

-- On a cache that was built with no map of expiry times, `SetWithTTL` stops the program.
pub set_with_ttl-nil_map :
    (now : Time) (k x : String) (ttl : ℕ) (c : LruCache) (xs : List Ptr)
    → Reps c xs
    → IsValid (view c xs)
    → c.ttl_map ≡ none
    → set_with_ttl now k x ttl c ≡ panic nil_map
unfolding set_with_ttl set_expiry
set_with_ttl-nil_map now k x ttl c xs r v e =
    let (c1, ys, ran, r1, w) = set_internal-refines k x c xs r v in
    let nothing : c1.ttl_map ≡ none =
      ap {A = View} (λ u. u.ttl_map) w ∙ set-ttl_map k x (view c xs) ∙ e in
    rw (ran, nothing, set_expiry)

-- `Set` leaves the expiry time of its key alone: where an old one has passed, the value that was just
-- set is not found.
pub get-set_stale :
    (now : Time) (k x : String) (c : LruCache) (xs : List Ptr)
    → Reps c xs
    → IsValid (view c xs)
    → Fits k x c
    → is_expired now (ttl_lookup k c.ttl_map) ≡ true
    → (c1 : LruCache) × (c2 : LruCache) × (set_internal k x c ≡ ok c1)
      × (Methods.get now k c1 ≡ ok (c2, ("", false)))
get-set_stale now k x c xs r v fits late =
    let (c1, ys, ran, r1, w) = set_internal-refines k x c xs r v in
    let (c2, zs, ran2, r2, w2) = get-refines now c1 ys k r1 in
    let valid = subst {A = View} IsValid (sym w) (set-IsValid k x (view c xs) v) in
    let here : lookup String_discrete k (view c1 ys).items ≡ some x =
      ap {A = View} (λ u. lookup String_discrete k u.items) w ∙ lookup-set k x (view c xs) fits in
    let old : is_expired now (ttl_lookup k c1.ttl_map) ≡ true =
      ap (λ t. is_expired now (ttl_lookup k t))
        (ap {A = View} (λ u. u.ttl_map) w ∙ set-ttl_map k x (view c xs))
      ∙ late in
    (
      c1,
      c2,
      ran,
      ran2 ∙ ap {A = Reply} (λ a. ok (c2, a)) (get-late now k x (view c1 ys) valid here old).0,
    )

get_multi_present :
    (c : LruCache) (ys : List Ptr) (a : Ptr) (zs : List Ptr)
    → Reps c (ys ++ a ∷ zs)
    → (c1 : LruCache) × (get_multi (c.heap.key a ∷ []) c
        ≡ ok (c1, (c.heap.key a, c.heap.value a) ∷ []))
unfolding get_multi insert
get_multi_present c ys a zs r =
    let (c1, xs, ran, r1, v) =
      hit-Returns (count_hit (count_request c)) ys a zs (counted c (ys ++ a ∷ zs) _ r) in
    (c1, rw (present-cache c ys a zs r, get_keys, ran))

get_multi_found :
    (c : LruCache) (ys : List Ptr) (a : Ptr) (zs : List Ptr) (x : String)
    → Reps c (ys ++ a ∷ zs)
    → lookup String_discrete (c.heap.key a) (view c (ys ++ a ∷ zs)).items ≡ some x
    → (c1 : LruCache) × (get_multi (c.heap.key a ∷ []) c ≡ ok (c1, (c.heap.key a, x) ∷ []))
get_multi_found c ys a zs x r e =
    let same : c.heap.value a ≡ x = cc (present-items c ys a zs r) in
    let (c1, ran) = get_multi_present c ys a zs r in
    (c1, ran ∙ ap {A = String} (λ y. ok (c1, (c.heap.key a, y) ∷ [])) same)

-- `GetMulti` does not look at expiry times: a call with one key, which is present and whose expiry
-- time has passed, returns the value of the key, where `Get` answers that there is none.
pub get_multi-ignores_expiry :
    (now : Time) (k x : String) (c : LruCache) (xs : List Ptr)
    → Reps c xs
    → IsValid (view c xs)
    → lookup String_discrete k (view c xs).items ≡ some x
    → is_expired now (ttl_lookup k c.ttl_map) ≡ true
    → (c1 : LruCache) × (c2 : LruCache) × (get_multi (k ∷ []) c ≡ ok (c1, (k, x) ∷ []))
      × (Methods.get now k c ≡ ok (c2, ("", false)))
get_multi-ignores_expiry now k x c xs r v e late =
    let (c2, ys, ran, r2, w) = get-refines now c xs k r in
    let (c1, ran1) = multi in
    (c1, c2, ran1, ran ∙ ap {A = Reply} (λ a. ok (c2, a)) (get-late now k x (view c xs) v e late).0)
  where
    multi : (c1 : LruCache) × (get_multi (k ∷ []) c ≡ ok (c1, (k, x) ∷ []))
    multi = elim (key_cases c xs k r) [
      | inl (gone, out) ↦ absurd (cc)
      | inr (a, ys, zs, split, key) ↦
          subst₂
            (λ l j.
              Reps c l
              → lookup String_discrete j (view c l).items ≡ some x
              → (c1 : LruCache) × (get_multi (j ∷ []) c ≡ ok (c1, (j, x) ∷ [])))
            (sym split) key (get_multi_found c ys a zs x) r e
    ]
