-- ===== src/Levels/Local.antt =====
-- tutorial/05-multilevel/local_cache.go: a cache that evicts the entry that was read least recently.
-- `now` is the time that a method reads, and `visited` the entries in the order of a loop.
use ryan_cache.Prelude.{
  ℕ, ◌+◌, String, String_discrete, List, [], ◌∷◌, Option, none, some, ite, ltb, leb, length,
  if◌then◌else◌,
}
use ryan_cache.GoMap.{GoMap, lookup, insert, delete}
use ryan_cache.Lru.Defs.{Time}

pub record LocalCacheItem : Type 0 where
  pub value : String
  pub expires_at : Time
  pub access_count : ℕ
  pub last_access : Time

pub record LocalCacheMetrics : Type 0 where
  pub hits : ℕ
  pub misses : ℕ
  pub evictions : ℕ
  pub total_access : ℕ

pub record LocalCache : Type 0 where
  pub items : GoMap String LocalCacheItem
  pub max_size : ℕ
  pub metrics : LocalCacheMetrics

-- `NewLocalCache`; the routine that cleans up every minute is left out.
abbrev pub new_local_cache : ℕ → LocalCache
new_local_cache max_size = record {
  items = [];
  max_size = max_size;
  metrics = record { hits = 0; misses = 0; evictions = 0; total_access = 0 };
}

-- `recordHit`, `recordMiss`, and the count of every read.
abbrev pub record_hit : LocalCacheMetrics → LocalCacheMetrics
record_hit m = record m { hits = m.hits + 1 }

abbrev pub record_miss : LocalCacheMetrics → LocalCacheMetrics
record_miss m = record m { misses = m.misses + 1 }

abbrev pub record_access : LocalCacheMetrics → LocalCacheMetrics
record_access m = record m { total_access = m.total_access + 1 }

-- A read of an entry.
abbrev pub touch : Time → LocalCacheItem → LocalCacheItem
touch now item = record item { access_count = item.access_count + 1; last_access = now }

-- `Get`
unfoldable pub get : Time → String → LocalCache → LocalCache × Option String
get now key lc =
    let m = record_access lc.metrics in
    let missed : LocalCache × Option String = (record lc { metrics = record_miss m }, none) in
    elim (lookup String_discrete key lc.items) [
      | none ↦ missed
      | some item ↦
          let found : LocalCache × Option String = (
            record lc {
              items = insert String_discrete key (touch now item) lc.items;
              metrics = record_hit m;
            },
            some item.value,
          ) in
          if ltb item.expires_at now then missed else found
    ]

-- The loop of `evictLRU`, with `oldestKey` and `oldestTime`.
unfoldable pub find_oldest : List (String × LocalCacheItem) → String → Time → String
find_oldest [] key time = key
find_oldest ((j, item) ∷ visited) key time =
    if ltb item.last_access time
    then find_oldest visited j item.last_access
    else find_oldest visited key time

-- `evictLRU`
unfoldable pub evict_lru : Time → List (String × LocalCacheItem) → LocalCache → LocalCache
unfolding find_oldest
evict_lru now visited lc =
    let key = find_oldest visited "" now in
    let evicted : LocalCache = record lc {
      items = delete String_discrete key lc.items;
      metrics = record (lc.metrics) { evictions = lc.metrics.evictions + 1 };
    } in
    ite (String_discrete key "") lc evicted

-- `Set`
unfoldable pub set :
    Time → List (String × LocalCacheItem) → String → String → ℕ → LocalCache → LocalCache
unfolding evict_lru
set now visited key value ttl lc =
    let room : LocalCache =
      if leb lc.max_size (length lc.items) then evict_lru now visited lc else lc in
    record room {
      items =
          insert String_discrete key
            (record { value = value; expires_at = now + ttl; access_count = 0; last_access = now })
            room.items;
    }

-- `Delete`, `Clear` and `Size`
abbrev pub delete_key : String → LocalCache → LocalCache
delete_key key lc = record lc { items = delete String_discrete key lc.items }

abbrev pub clear : LocalCache → LocalCache
clear lc = record lc { items = [] }

abbrev pub size : LocalCache → ℕ
size lc = length lc.items

-- A tick of `cleanupExpired`
unfoldable pub cleanup_visited :
    Time
    → List (String × LocalCacheItem)
    → GoMap String LocalCacheItem
    → GoMap String LocalCacheItem
cleanup_visited now [] items = items
cleanup_visited now ((key, item) ∷ visited) items =
    cleanup_visited now visited
      (if ltb item.expires_at now then delete String_discrete key items else items)

unfoldable pub cleanup_expired : Time → List (String × LocalCacheItem) → LocalCache → LocalCache
unfolding cleanup_visited
cleanup_expired now visited lc = record lc { items = cleanup_visited now visited lc.items }
