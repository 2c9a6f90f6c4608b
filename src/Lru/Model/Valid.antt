-- ===== src/Lru/Model/Valid.antt =====
-- Every operation of core/lrucache.go keeps the entries within the capacity, their keys distinct and
-- their memory counted.
use ryan_cache.Prelude.{
  ℕ, ◌+◌, ◌-◌, ◌≤◌, ◌<◌, ◌≡◌, inl, inr, false, Bool-cases, Option-cases, ◌&&◌, String,
  String_discrete, ◌∷◌, none, some, Option, arith, length, ltb,
}
use ryan_cache.GoMap.{GoMap, lookup, delete, Fresh-lookup, delete-Distinct}
use ryan_cache.Lru.Defs.{Time, CacheStats, CleanupStats, calculate_memory_usage}
use ryan_cache.Lru.Methods.{ttl_lookup, ttl_delete, is_expired}
use ryan_cache.Lru.Model.{View, IsValid, is_over, make_room, store, set, get, delete_key}
use ryan_cache.Lru.Model.Memory.{total-delete, length-delete, delete-Fresh}
use ryan_cache.Lru.Model.Room.{make_room-Fresh, make_room-IsValid, make_room-fits}

module _ (k x : String) (v : View) (h : IsValid v) where
  -- An entry that leaves.
  removed-IsValid :
      (old : String)
      → lookup String_discrete k v.items ≡ some old
      → (usage : ℕ) → v.memory_usage ≤ usage + calculate_memory_usage k old
      → IsValid (record v { items = delete String_discrete k v.items; memory_usage = usage })
  removed-IsValid old e usage u = record {
    positive = h.positive;
    bounded = omega (arith, h.bounded, length-delete k old v.items h.distinct e);
    distinct = delete-Distinct String_discrete k v.items h.distinct;
    charged = omega (arith, h.charged, u, total-delete k old v.items h.distinct e);
  }

  -- An entry that moves to the front, perhaps with another value.
  moved-IsValid :
      (old : String)
      → lookup String_discrete k v.items ≡ some old
      → (usage : ℕ)
      → v.memory_usage + calculate_memory_usage k x ≤ usage + calculate_memory_usage k old
      → IsValid
          (record v { items = (k, x) ∷ delete String_discrete k v.items; memory_usage = usage })
  moved-IsValid old e usage u = record {
    positive = h.positive;
    bounded = omega (arith, h.bounded, length-delete k old v.items h.distinct e);
    distinct = (delete-Fresh k v.items, delete-Distinct String_discrete k v.items h.distinct);
    charged = omega (arith, h.charged, u, total-delete k old v.items h.distinct e);
  }

  -- A new entry, in the room made for it.
  added-IsValid :
      lookup String_discrete k v.items ≡ none
      → (n : ℕ) → length v.items ≤ n
      → let room = make_room n (calculate_memory_usage k x) v in
        IsValid (record room {
          items = (k, x) ∷ room.items;
          memory_usage = room.memory_usage + calculate_memory_usage k x;
        })
  added-IsValid e n few =
      let m = calculate_memory_usage k x in
      let room = make_room n m v in
      let valid = make_room-IsValid n m v h in
      record {
        positive = valid.positive;
        bounded = under m room (make_room-fits n m v h.positive few);
        distinct =
            (make_room-Fresh k n m v (Fresh-lookup String_discrete k v.items e), valid.distinct);
        charged = omega (arith, valid.charged);
      }
    where
      under : (m : ℕ) (w : View) → is_over m w ≡ false → length w.items < w.capacity
      under m w o = unfold is_over in (ground arith)

pub set-IsValid : (k x : String) (v : View) → IsValid v → IsValid (set k x v)
unfolding set store
set-IsValid k x v h =
    elim (Bool-cases (ltb 0 v.memory_limit && ltb v.memory_limit (calculate_memory_usage k x))) [
      | inl big ↦ rw (big, set) h
      | inr fits ↦ elim (Option-cases (lookup String_discrete k v.items)) [
        | inl e ↦ rw (fits, e, set, store) (added-IsValid k x v h e (length v.items) (omega arith))
        | inr (old, e) ↦
            rw (fits, e, set, store)
              (moved-IsValid k x v h old e _
                (omega (arith, h.charged, total-delete k old v.items h.distinct e)))
      ]
    ]

-- The other fields do not matter.
pub update-IsValid :
    (v : View) (ttl : Option (GoMap String Time)) (cleanups : CleanupStats) (stats : CacheStats)
    → IsValid v
    → IsValid (record v { ttl_map = ttl; cleanup_stats = cleanups; stats = stats })
update-IsValid v ttl cleanups stats h = record {
  positive = h.positive;
  bounded = h.bounded;
  distinct = h.distinct;
  charged = h.charged;
}

pub delete_key-IsValid : (k : String) (v : View) → IsValid v → IsValid (delete_key k v).0
unfolding delete_key
delete_key-IsValid k v h = elim (Option-cases (lookup String_discrete k v.items)) [
  | inl e ↦ rw (e, delete_key) h
  | inr (old, e) ↦
      let usage = v.memory_usage - calculate_memory_usage k old in
      let items = delete String_discrete k v.items in
      rw (e, delete_key)
        (update-IsValid (record v { items = items; memory_usage = usage }) (ttl_delete k v.ttl_map)
          v.cleanup_stats v.stats
          (removed-IsValid k old v h old e usage
            (omega (arith, h.charged, total-delete k old v.items h.distinct e))))
]

pub get-IsValid : (now : Time) (k : String) (v : View) → IsValid v → IsValid (get now k v).0
unfolding get
get-IsValid now k v h = elim (Option-cases (lookup String_discrete k v.items)) [
  | inl e ↦ rw (e, get) (update-IsValid v v.ttl_map v.cleanup_stats _ h)
  | inr (x, e) ↦ elim (Bool-cases (is_expired now (ttl_lookup k v.ttl_map))) [
    | inl late ↦
        rw (e, get, late)
          (update-IsValid (record v { items = delete String_discrete k v.items })
            (ttl_delete k v.ttl_map) v.cleanup_stats _
            (removed-IsValid k x v h x e v.memory_usage (omega arith)))
    | inr live ↦
        rw (e, get, live)
          (update-IsValid (record v { items = (k, x) ∷ delete String_discrete k v.items }) v.ttl_map
            v.cleanup_stats _ (moved-IsValid k x v h x e v.memory_usage (omega arith)))
  ]
]
