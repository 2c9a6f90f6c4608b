-- ===== src/Lru/Refine/Creation.antt =====
-- The constructors of core/lrucache.go.
use ryan_cache.Prelude.{ℕ, ◌<◌, ◌≡◌, refl, [], some, none, arith, ok}
use ryan_cache.GoMap.{lookup}
use ryan_cache.Lru.Heap.Ops.{IsList}
use ryan_cache.Lru.Defs.{
  no_stats, no_cleanups, nil_chan, open_chan, sentinels, empty_cache, new_lru_cache,
  new_lru_cache_with_memory_limit, new_lru_cache_with_cleanup,
}
use ryan_cache.Lru.Index.{find}
use ryan_cache.Lru.Model.{View}
use ryan_cache.Lru.Reps.{Reps, Gives}

-- No entries.
abbrev pub empty_view : ℕ → View
empty_view capacity = record {
  capacity = capacity;
  items = [];
  ttl_map = none;
  cleanup_interval = 0;
  stop_cleanup = nil_chan;
  cleanup_stats = no_cleanups;
  stats = no_stats;
  memory_usage = 0;
  memory_limit = 0;
}

sentinels-IsList : IsList sentinels 1 [] 2
unfolding sentinels
sentinels-IsList = record { linked = ground arith; apart = ground arith; allocated = ground arith }

-- The capacity is positive, so the constructor does not stop.
new_lru_cache_lem :
    (capacity : ℕ) → 0 < capacity → new_lru_cache capacity ≡ ok (empty_cache capacity)
unfolding new_lru_cache
new_lru_cache_lem capacity h = ground arith

pub empty-Reps : (capacity : ℕ) → Reps (empty_cache capacity) []
unfolding lookup find
empty-Reps capacity = record {
  list = sentinels-IsList;
  indexed = λ k. refl;
  sized = refl;
  distinct = tt;
}

-- A new cache represents no entries, whatever its limit and its map of expiry times.
pub new_lru_cache-Gives :
    (capacity : ℕ) → 0 < capacity → Gives (new_lru_cache capacity) (empty_view capacity)
new_lru_cache-Gives capacity h =
    (empty_cache capacity, [], new_lru_cache_lem capacity h, empty-Reps capacity, refl)

pub new_lru_cache_with_memory_limit-Gives :
    (capacity limit : ℕ)
    → 0 < capacity
    → Gives
        (new_lru_cache_with_memory_limit capacity limit)
        (record (empty_view capacity) { memory_limit = limit })
unfolding new_lru_cache_with_memory_limit
new_lru_cache_with_memory_limit-Gives capacity limit h =
    let r = empty-Reps capacity in
    (
      record (empty_cache capacity) { memory_limit = limit },
      [],
      rw (new_lru_cache_lem capacity h),
      record { list = r.list; indexed = r.indexed; sized = r.sized; distinct = r.distinct },
      refl,
    )

pub new_lru_cache_with_cleanup-Gives :
    (capacity interval : ℕ)
    → 0 < capacity
    → Gives (new_lru_cache_with_cleanup capacity interval) (record (empty_view capacity) {
      ttl_map = some [];
      cleanup_interval = interval;
      stop_cleanup = open_chan;
    })
unfolding new_lru_cache_with_cleanup
new_lru_cache_with_cleanup-Gives capacity interval h =
    let r = empty-Reps capacity in
    (
      record (empty_cache capacity) {
        cleanup_interval = interval;
        stop_cleanup = open_chan;
        ttl_map = some [];
      },
      [],
      rw (new_lru_cache_lem capacity h),
      record { list = r.list; indexed = r.indexed; sized = r.sized; distinct = r.distinct },
      refl,
    )
