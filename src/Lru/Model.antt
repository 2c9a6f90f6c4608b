-- ===== src/Lru/Model.antt =====
-- What core/lrucache.go promises, without pointers: the entries in the order of their last use, most
-- recent first, beside the fields that no pointer reaches.
pub mod Memory
pub mod Shortest
pub mod Valid
pub mod Room
use ryan_cache.Prelude.{
  ℕ, zero, suc, ◌+◌, ◌-◌, ◌<◌, ◌≤◌, ◌≡◌, String, String_discrete, Bool, true, false, ◌&&◌, ◌||◌,
  List, [], ◌∷◌, Option, none, some, ltb, leb, if◌then◌else◌, length, Distinct,
}
use ryan_cache.GoMap.{GoMap, keys, lookup, insert, delete}
use ryan_cache.Lru.Heap.Defs.{Ptr}
use ryan_cache.Lru.Defs.{Time, LruCache, CacheStats, CleanupStats, Channel, calculate_memory_usage}
use ryan_cache.Lru.Methods.{Reply, ttl_lookup, ttl_delete, is_expired}
use ryan_cache.Lru.Index.{entries}

pub record View : Type 0 where
  pub capacity : ℕ
  pub items : GoMap String String
  pub ttl_map : Option (GoMap String Time)
  pub cleanup_interval : ℕ
  pub stop_cleanup : Channel
  pub cleanup_stats : CleanupStats
  pub stats : CacheStats
  pub memory_usage : ℕ
  pub memory_limit : ℕ

-- The view of a cache whose list is `xs`.
abbrev pub view : LruCache → List Ptr → View
view c xs = record {
  capacity = c.capacity;
  items = entries c.heap.key c.heap.value xs;
  ttl_map = c.ttl_map;
  cleanup_interval = c.cleanup_interval;
  stop_cleanup = c.stop_cleanup;
  cleanup_stats = c.cleanup_stats;
  stats = c.stats;
  memory_usage = c.memory_usage;
  memory_limit = c.memory_limit;
}

-- The memory of the entries.
abbrev pub total : GoMap String String → ℕ
total [] = 0
total ((k, v) ∷ m) = calculate_memory_usage k v + total m

-- The invariant: room for at least one entry, never more entries than the capacity, no key twice,
-- and a memory count that is not below the memory of the entries.
pub record IsValid (v : View) : Type 0 where
  pub positive : 0 < v.capacity
  pub bounded : length v.items ≤ v.capacity
  pub distinct : Distinct (keys v.items)
  pub charged : total v.items ≤ v.memory_usage

-- All entries but the least recently used, and that entry.
unfoldable pub but_last : GoMap String String → GoMap String String
but_last [] = []
but_last (e ∷ []) = []
but_last (e ∷ f ∷ m) = e ∷ but_last (f ∷ m)

unfoldable pub last_weight : GoMap String String → ℕ
last_weight [] = 0
last_weight ((k, v) ∷ []) = calculate_memory_usage k v
last_weight (e ∷ f ∷ m) = last_weight (f ∷ m)

-- Whether an entry of `new_memory` bytes needs another eviction.
unfoldable pub is_over : ℕ → View → Bool
is_over new_memory v =
    (ltb 0 v.memory_limit
      && ltb v.memory_limit (v.memory_usage + new_memory)
      && ltb 0 (length v.items))
    || leb v.capacity (length v.items)

-- The least recently used entries go, one by one, while the new entry does not fit.
unfoldable pub make_room : ℕ → ℕ → View → View
make_room zero new_memory v = v
make_room (suc n) new_memory v =
    let rest = make_room n new_memory (record v {
      items = but_last v.items;
      memory_usage = v.memory_usage - last_weight v.items;
    }) in
    if is_over new_memory v then rest else v

-- The entry goes to the front.
unfoldable pub store : String → String → View → View
store k x v = elim (lookup String_discrete k v.items) [
  | none ↦
      let room = make_room (length v.items) (calculate_memory_usage k x) v in
      record room {
        items = (k, x) ∷ room.items;
        memory_usage = room.memory_usage + calculate_memory_usage k x;
      }
  | some old ↦ record v {
    items = (k, x) ∷ delete String_discrete k v.items;
    memory_usage = v.memory_usage - calculate_memory_usage k old + calculate_memory_usage k x;
  }
]

-- An entry that is larger than the memory limit is not stored.
unfoldable pub set : String → String → View → View
unfolding store
set k x v =
    if ltb 0 v.memory_limit && ltb v.memory_limit (calculate_memory_usage k x)
    then v
    else store k x v

-- A read counts a request; a live key counts a hit and goes to the front, an expired one goes.
unfoldable pub get : Time → String → View → View × Reply
unfolding ttl_lookup is_expired ttl_delete
get now k v =
    let asked = record (v.stats) { total_requests = v.stats.total_requests + 1 } in
    elim (lookup String_discrete k v.items) [
      | none ↦ (record v { stats = record asked { misses = asked.misses + 1 } }, ("", false))
      | some x ↦
          if is_expired now (ttl_lookup k v.ttl_map)
          then (
            record v {
              items = delete String_discrete k v.items;
              ttl_map = ttl_delete k v.ttl_map;
              stats = record asked { misses = asked.misses + 1 };
            },
            ("", false),
          )
          else (
            record v {
              items = (k, x) ∷ delete String_discrete k v.items;
              stats = record asked { hits = asked.hits + 1 };
            },
            (x, true),
          )
    ]

-- A deletion forgets the entry, its memory and its expiry time.
unfoldable pub delete_key : String → View → View × Bool
unfolding ttl_delete
delete_key k v = elim (lookup String_discrete k v.items) [
  | none ↦ (v, false)
  | some x ↦ (
    record v {
      items = delete String_discrete k v.items;
      ttl_map = ttl_delete k v.ttl_map;
      memory_usage = v.memory_usage - calculate_memory_usage k x;
    },
    true,
  )
]

-- `ttlMap[key] = t`, where there is a map.
unfoldable pub remember : String → Time → Option (GoMap String Time) → Option (GoMap String Time)
remember k t none = none
remember k t (some m) = some (insert String_discrete k t m)

-- A store with an expiry time; it is remembered also where the entry is too large to be stored.
unfoldable pub set_for : Time → String → String → ℕ → View → View
unfolding set remember
set_for now k x ttl v = let w = set k x v in record w { ttl_map = remember k (now + ttl) w.ttl_map }

-- The cache has a map of expiry times.
abbrev pub HasExpiry : View → Type 0
HasExpiry v = (m : GoMap String Time) × (v.ttl_map ≡ some m)
