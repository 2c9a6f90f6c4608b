-- ===== src/Basics/Tests.antt =====
-- Runs of the caches of tutorial/01-basics, and each theorem about them at a run.
use ryan_cache.Prelude.{◌+◌, ◌≡◌, refl, String, String_discrete, List, [], ◌∷◌, arith, length}
use ryan_cache.GoMap.{lookup, insert}
use ryan_cache.Basics.Ttl
use ryan_cache.Basics.Ttl.{CacheWithTtl, CacheItem, new_cache_with_ttl, set, remove_expired}
use ryan_cache.Basics.Stats
use ryan_cache.Basics.Stats.{
  StatsCache, new_stats_cache, Call, gets, sets, deletes, run, found_count,
}

-- "a" expires at 8, "b" at 20.
abbrev both : CacheWithTtl String
both = set 5 "b" "2" 15 (set 5 "a" "1" 3 new_cache_with_ttl)

abbrev visited : List (String × CacheItem String)
visited =
    ("b", record { value = "2"; expires_at = 20 })
    ∷ ("a", record { value = "1"; expires_at = 8 })
    ∷ []

get-remove_expired_example :
    (Ttl.get 12 "b" (remove_expired 10 visited both)).1 ≡ (Ttl.get 12 "b" both).1
unfolding set lookup insert String_discrete
get-remove_expired_example =
    Ttl.get-remove_expired 10 12 visited both "b" (omega arith) (refl, (refl, tt))

abbrev calls : List (Call String)
calls = gets "a" ∷ sets "a" "1" ∷ gets "a" ∷ deletes "a" ∷ gets "a" ∷ []

abbrev empty : StatsCache String
empty = new_stats_cache

run-counts_example :
    ((run calls empty).0.stats.hits ≡ 0 + found_count (run calls empty).1)
    × ((run calls empty).0.stats.hits + (run calls empty).0.stats.misses
        ≡ 0 + 0 + length (run calls empty).1)
run-counts_example = Stats.run-counts calls empty tt
