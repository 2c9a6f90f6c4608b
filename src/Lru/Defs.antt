-- ===== src/Lru/Defs.antt =====
-- The state of core/lrucache.go and its constructors. Sizes, byte counts and counters are unbounded
-- naturals, a memory limit that is not positive is 0, and times and durations are naturals.
use ryan_cache.Prelude.{
  ℕ, ◌+◌, String, [], Option, none, some, Result, ok, panic, bad_capacity, leb, if◌then◌else◌,
  ◌>>=◌,
}
use Prim.Native.String.{len}
use ryan_cache.GoMap.{GoMap}
use ryan_cache.Lru.Heap.Defs.{Ptr, Heap, nil, update}

abbrev pub Time : Type 0
Time = ℕ

pub record CleanupStats : Type 0 where
  pub cleaned_keys : ℕ
  pub cleanup_runs : ℕ
  pub last_cleanup : Time

pub record CacheStats : Type 0 where
  pub hits : ℕ
  pub misses : ℕ
  pub total_requests : ℕ

-- A `chan struct{}` that is only ever closed.
pub data Channel : Type 0 where
  nil_chan open_chan closed_chan : Channel

-- `ttl_map` is `none` while the map is nil.
pub record LruCache : Type 0 where
  pub capacity : ℕ
  pub size : ℕ
  pub cache : GoMap String Ptr
  pub head : Ptr
  pub tail : Ptr
  pub ttl_map : Option (GoMap String Time)
  pub cleanup_interval : ℕ
  pub stop_cleanup : Channel
  pub cleanup_stats : CleanupStats
  pub stats : CacheStats
  pub memory_usage : ℕ
  pub memory_limit : ℕ
  pub heap : Heap

abbrev pub no_stats : CacheStats
no_stats = record { hits = 0; misses = 0; total_requests = 0 }

abbrev pub no_cleanups : CleanupStats
no_cleanups = record { cleaned_keys = 0; cleanup_runs = 0; last_cleanup = 0 }

-- The heap with the two sentinels, the head at 1 and the tail at 2, linked to one another.
unfoldable pub sentinels : Heap
unfolding update
sentinels = record {
  key = λ p. "";
  value = λ p. "";
  prev = update (λ p. nil) 2 1;
  next = update (λ p. nil) 1 2;
  fresh = 3;
}

-- The state that `NewLRUCache` builds.
abbrev pub empty_cache : ℕ → LruCache
empty_cache capacity = record {
  capacity = capacity;
  size = 0;
  cache = [];
  head = 1;
  tail = 2;
  ttl_map = none;
  cleanup_interval = 0;
  stop_cleanup = nil_chan;
  cleanup_stats = no_cleanups;
  stats = no_stats;
  memory_usage = 0;
  memory_limit = 0;
  heap = sentinels;
}

-- `NewLRUCache`
unfoldable pub new_lru_cache : ℕ → Result LruCache
unfolding sentinels
new_lru_cache capacity = if leb capacity 0 then panic bad_capacity else ok (empty_cache capacity)

-- `NewLRUCacheWithMemoryLimit`
unfoldable pub new_lru_cache_with_memory_limit : ℕ → ℕ → Result LruCache
unfolding new_lru_cache
new_lru_cache_with_memory_limit capacity limit = do
  c ← new_lru_cache capacity
  ok (record c { memory_limit = limit })

-- `NewLRUCacheWithCleanup`; the routine that it starts calls `cleanup_expired_keys` at each tick.
unfoldable pub new_lru_cache_with_cleanup : ℕ → ℕ → Result LruCache
unfolding new_lru_cache
new_lru_cache_with_cleanup capacity interval = do
  c ← new_lru_cache capacity
  ok (record c { cleanup_interval = interval; stop_cleanup = open_chan; ttl_map = some [] })

-- `calculateMemoryUsage`
unfoldable pub calculate_memory_usage : String → String → ℕ
calculate_memory_usage key value = len key + len value + 64
