-- ===== src/Lru/Behaviour.antt =====
-- What a user of core/lrucache.go can rely on, call after call, and where the code departs from what
-- its comments promise.
use ryan_cache.Prelude.{
  ℕ, ◌+◌, ◌-◌, ◌≤◌, ◌≡◌, refl, ap, subst, sym, ◌∙◌, true, false, Bool, Option, ◌&&◌, ltb, String,
  String_discrete, List, ◌∷◌, none, some, arith, ok, length, if_pos,
}
use ryan_cache.GoMap.{lookup, lookup-delete}
use ryan_cache.Lru.Heap.Defs.{Ptr}
use ryan_cache.Lru.Defs.{Time, LruCache, calculate_memory_usage}
use ryan_cache.Lru.Methods
use ryan_cache.Lru.Methods.{Reply, set_internal, set_with_ttl, set_expiry, ttl_lookup, is_expired}
use ryan_cache.Lru.Model
use ryan_cache.Lru.Model.{View, view, IsValid, total, is_over, make_room}
use ryan_cache.Lru.Model.Room.{make_room-fits}
use ryan_cache.Lru.Model.Shortest.{Entries, cut, IsShortest, make_room-IsShortest}
use ryan_cache.Lru.Model.Valid.{set-IsValid}
use ryan_cache.Lru.Reps.{Reps}
use ryan_cache.Lru.Refine.Setting.{set_internal-refines}
use ryan_cache.Lru.Refine.Reading.{get-refines}
use ryan_cache.Lru.Refine.Deletion.{delete_key-refines}
use ryan_cache.Lru.Refine.Eviction.{entries-length}
use ryan_cache.Lru.History.Sound.{set-ttl_map}

-- An entry of this key and value fits under the memory limit.
abbrev pub Fits : String → String → LruCache → Type 0
Fits k x c = (ltb 0 c.memory_limit && ltb c.memory_limit (calculate_memory_usage k x)) ≡ false

-- The key has no expiry time, or one that has not passed.
abbrev pub IsLive : Time → String → LruCache → Type 0
IsLive now k c = is_expired now (ttl_lookup k c.ttl_map) ≡ false

-- The entry that was set stands in front.
pub lookup-set :
    (k x : String) (v : View)
    → (ltb 0 v.memory_limit && ltb v.memory_limit (calculate_memory_usage k x)) ≡ false
    → lookup String_discrete k (Model.set k x v).items ≡ some x
unfolding Model.set Model.store lookup
lookup-set k x v fits = ground (arith, if_pos (String_discrete k k) refl (some x) none)

get-live :
    (now : Time) (k x : String) (v : View)
    → lookup String_discrete k v.items ≡ some x
    → is_expired now (ttl_lookup k v.ttl_map) ≡ false
    → (Model.get now k v).1 ≡ (x, true)
unfolding Model.get
get-live now k x v e live = rw (e, Model.get, live)

get-gone :
    (now : Time) (k : String) (v : View)
    → lookup String_discrete k v.items ≡ none
    → (Model.get now k v).1 ≡ ("", false)
unfolding Model.get
get-gone now k v e = rw (e, Model.get)

-- On a state that represents a valid cache, an entry that fits and has not expired is read back
-- right after it is set, and neither call meets a fault.
pub get-set :
    (now : Time) (k x : String) (c : LruCache) (xs : List Ptr)
    → Reps c xs
    → IsValid (view c xs)
    → Fits k x c
    → IsLive now k c
    → (c1 : LruCache) × (c2 : LruCache) × (set_internal k x c ≡ ok c1)
      × (Methods.get now k c1 ≡ ok (c2, (x, true)))
get-set now k x c xs r v fits live =
    let (c1, ys, ran, r1, w) = set_internal-refines k x c xs r v in
    let (c2, zs, ran2, r2, w2) = get-refines now c1 ys k r1 in
    let here : lookup String_discrete k (view c1 ys).items ≡ some x =
      ap {A = View} (λ u. lookup String_discrete k u.items) w ∙ lookup-set k x (view c xs) fits in
    let alive : is_expired now (ttl_lookup k c1.ttl_map) ≡ false =
      ap (λ t. is_expired now (ttl_lookup k t))
        (ap {A = View} (λ u. u.ttl_map) w ∙ set-ttl_map k x (view c xs))
      ∙ live in
    (
      c1,
      c2,
      ran,
      ran2 ∙ ap {A = Reply} (λ a. ok (c2, a)) (get-live now k x (view c1 ys) here alive),
    )

lookup-delete_key :
    (k : String) (v : View) → lookup String_discrete k (Model.delete_key k v).0.items ≡ none
unfolding Model.delete_key
lookup-delete_key k v = ground (
  arith,
  lookup-delete String_discrete k k v.items,
  if_pos (String_discrete k k) refl none (lookup String_discrete k v.items),
)

abbrev pub is_some : Option String → Bool
is_some none = false
is_some (some x) = true

delete_key-found :
    (k : String) (v : View) → (Model.delete_key k v).1 ≡ is_some (lookup String_discrete k v.items)
unfolding Model.delete_key
delete_key-found k v = ground arith

-- On a state that represents a valid cache, a key is not found right after it is deleted, and neither
-- call meets a fault; the deletion reports whether the key was there.
pub get-delete_key :
    (now : Time) (k : String) (c : LruCache) (xs : List Ptr)
    → Reps c xs
    → IsValid (view c xs)
    → (c1 : LruCache) × (c2 : LruCache) × (Methods.delete_key k c
        ≡ ok (c1, is_some (lookup String_discrete k (view c xs).items)))
      × (Methods.get now k c1 ≡ ok (c2, ("", false)))
get-delete_key now k c xs r v =
    let (c1, ys, ran, r1, w) = delete_key-refines c xs k r v in
    let (c2, zs, ran2, r2, w2) = get-refines now c1 ys k r1 in
    let gone : lookup String_discrete k (view c1 ys).items ≡ none =
      ap {A = View} (λ u. lookup String_discrete k u.items) w ∙ lookup-delete_key k (view c xs) in
    (
      c1,
      c2,
      ran ∙ ap {A = Bool} (λ b. ok (c1, b)) (delete_key-found k (view c xs)),
      ran2 ∙ ap {A = Reply} (λ a. ok (c2, a)) (get-gone now k (view c1 ys) gone),
    )

-- `SetInternal` takes a state that represents a valid cache to one that represents a valid cache: the
-- count of entries is at most the capacity, and the counted memory at least that of the entries.
pub set_internal-IsValid :
    (k x : String) (c : LruCache) (xs : List Ptr)
    → Reps c xs
    → IsValid (view c xs)
    → (c1 : LruCache) × (ys : List Ptr) × (set_internal k x c ≡ ok c1)
      × Reps c1 ys
      × IsValid (view c1 ys)
      × (c1.size ≤ c1.capacity)
set_internal-IsValid k x c xs r v =
    let (c1, ys, ran, r1, w) = set_internal-refines k x c xs r v in
    let valid = subst {A = View} IsValid (sym w) (set-IsValid k x (view c xs) v) in
    (c1, ys, ran, r1, valid, omega (arith, r1.sized, entries-length c1 ys, valid.bounded))

store-absent :
    (k x : String) (v : View)
    → (ltb 0 v.memory_limit && ltb v.memory_limit (calculate_memory_usage k x)) ≡ false
    → lookup String_discrete k v.items ≡ none
    → let room = make_room (length v.items) (calculate_memory_usage k x) v in
      Model.set k x v ≡ record room {
        items = (k, x) ∷ room.items;
        memory_usage = room.memory_usage + calculate_memory_usage k x;
      }
unfolding Model.set Model.store
store-absent k x v fits out = rw (fits, out, Model.set, Model.store)

-- On a state that represents a valid cache, to store an entry that fits under a new key `SetInternal`
-- drops from the entries in the order of their last use the shortest end that makes room, and puts
-- the new entry in front of the others.
pub set_internal_evicts :
    (k x : String) (c : LruCache) (xs : List Ptr)
    → Reps c xs
    → IsValid (view c xs)
    → Fits k x c
    → lookup String_discrete k (view c xs).items ≡ none
    → (c1 : LruCache) × (ys : List Ptr) × (kept : Entries) × (gone : Entries) × (set_internal k x c
        ≡ ok c1)
      × Reps c1 ys
      × ((view c1 ys).items ≡ (k, x) ∷ kept)
      × IsShortest (calculate_memory_usage k x) (view c xs) kept gone
      × (is_over (calculate_memory_usage k x) (cut (view c xs) kept gone) ≡ false)
      × (c1.memory_usage ≡ c.memory_usage - total gone + calculate_memory_usage k x)
set_internal_evicts k x c xs r v fits out =
    let m = calculate_memory_usage k x in
    let (c1, ys, ran, r1, w) = set_internal-refines k x c xs r v in
    let n = length (view c xs).items in
    let (kept, gone, e, short) = make_room-IsShortest n m (view c xs) v.positive in
    let w' = w ∙ store-absent k x (view c xs) fits out in
    (
      c1,
      ys,
      kept,
      gone,
      ran,
      r1,
      ap {A = View} {B = Entries} (λ u. u.items) w'
          ∙ ap {A = View} {B = Entries} (λ u. (k, x) ∷ u.items) e,
      short,
      ap {A = View} (is_over m) (sym e) ∙ make_room-fits n m (view c xs) v.positive (omega arith),
      ap {A = View} {B = ℕ} (λ u. u.memory_usage) w'
          ∙ ap {A = View} {B = ℕ} (λ u. u.memory_usage + m) e,
    )
