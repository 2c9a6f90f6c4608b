-- ===== src/Levels/Room.antt =====
-- The local cache of tutorial/05-multilevel/local_cache.go stays within its size.
use ryan_cache.Prelude.{
  ℕ, ◌+◌, ◌≤◌, ◌<◌, ◌≡◌, ◌≢◌, inl, inr, String, String_discrete, true, List, [], ◌∷◌, some, arith,
  Bool-cases, leb, leb→le, ltb, length,
}
use ryan_cache.GoMap.{GoMap, lookup, insert, delete}
use ryan_cache.Lru.Defs.{Time}
use ryan_cache.Levels.Local.{LocalCache, LocalCacheItem, find_oldest, evict_lru, set}

abbrev Items : Type 0
Items = GoMap String LocalCacheItem

length-insert :
    (k : String) (x : LocalCacheItem) (m : Items)
    → length (insert String_discrete k x m) ≤ length m + 1
unfolding insert
length-insert k x [] = omega arith
length-insert k x (e ∷ m) = ground (arith, length-insert k x m)

length-delete_le : (k : String) (m : Items) → length (delete String_discrete k m) ≤ length m
unfolding delete
length-delete_le k [] = omega arith
length-delete_le k (e ∷ m) = ground (arith, length-delete_le k m)

length-delete :
    (k : String) (x : LocalCacheItem) (m : Items)
    → lookup String_discrete k m ≡ some x
    → length (delete String_discrete k m) + 1 ≤ length m
unfolding lookup delete
length-delete k x [] e = cc e
length-delete k x ((j, y) ∷ m) e = elim (String_discrete j k) [
  | yes p ↦ ground (arith, p, length-delete_le k m)
  | no p ↦ ground (arith, p, length-delete k x m (ground (arith, e, p)))
]

-- The visited entries: entries of the cache under keys that are not empty, last read before now.
abbrev pub AreOld : Time → List (String × LocalCacheItem) → Items → Type 0
AreOld now [] m = Unit
AreOld now ((j, x) ∷ visited) m =
    (lookup String_discrete j m ≡ some x) × (j ≢ "") × (x.last_access < now) × AreOld now visited m

abbrev IsEntry : String → Items → Type 0
IsEntry k m = (k ≢ "") × ((x : LocalCacheItem) × (lookup String_discrete k m ≡ some x))

find_oldest-IsEntry :
    (now : Time) (visited : List (String × LocalCacheItem)) (m : Items) (k : String) (t : Time)
    → AreOld now visited m
    → IsEntry k m
    → IsEntry (find_oldest visited k t) m
unfolding find_oldest
find_oldest-IsEntry now [] m k t old e = e
find_oldest-IsEntry now ((j, x) ∷ visited) m k t (at, named, before, rest) e =
    elim (Bool-cases (ltb x.last_access t)) [
      | inl f ↦ rw f (find_oldest-IsEntry now visited m j x.last_access rest (named, (x, at)))
      | inr f ↦ rw f (find_oldest-IsEntry now visited m k t rest e)
    ]

-- Of some entries, one is the oldest.
first-IsEntry :
    (now : Time) (visited : List (String × LocalCacheItem)) (m : Items)
    → AreOld now visited m
    → 0 < length visited
    → IsEntry (find_oldest visited "" now) m
unfolding find_oldest
first-IsEntry now [] m old h = absurd (omega arith)
first-IsEntry now ((j, x) ∷ visited) m (at, named, before, rest) h =
    let f : ltb x.last_access now ≡ true = ground (arith, before) in
    rw f (find_oldest-IsEntry now visited m j x.last_access rest (named, (x, at)))

evict_lru-length :
    (now : Time) (visited : List (String × LocalCacheItem)) (lc : LocalCache)
    → AreOld now visited lc.items
    → 0 < length visited
    → length (evict_lru now visited lc).items + 1 ≤ length lc.items
unfolding evict_lru
evict_lru-length now visited lc old h =
    let (named, entry) = first-IsEntry now visited lc.items old h in
    let (x, at) = entry in
    ground (arith, named, length-delete (find_oldest visited "" now) x lc.items at)

-- A write keeps a local cache of at least one entry within its size, where the loop of the eviction
-- visits as many entries as there are, each an entry of the cache, each under a key that is not
-- empty and read or written before the write: the eviction then takes out one of them.
pub set-length :
    (now : Time) (visited : List (String × LocalCacheItem)) (key value : String) (ttl : ℕ)
    (lc : LocalCache)
    → 0 < lc.max_size
    → length lc.items ≤ lc.max_size
    → length visited ≡ length lc.items
    → AreOld now visited lc.items
    → length (set now visited key value ttl lc).items ≤ lc.max_size
unfolding set
set-length now visited key value ttl lc positive within all old =
    let item : LocalCacheItem = record {
      value = value;
      expires_at = now + ttl;
      access_count = 0;
      last_access = now;
    } in
    elim (Bool-cases (leb lc.max_size (length lc.items))) [
      | inl f ↦
          let full = leb→le lc.max_size (length lc.items) f in
          let less = evict_lru-length now visited lc old (omega (arith, positive, full, all)) in
          let more = length-insert key item (evict_lru now visited lc).items in
          ground (arith, f, less, more, within)
      | inr f ↦ ground (arith, f, length-insert key item lc.items)
    ]
