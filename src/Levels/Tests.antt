-- ===== src/Levels/Tests.antt =====
-- Runs of the local cache of tutorial/05-multilevel, and each theorem about it at a run.
use ryan_cache.Prelude.{
  ◌≤◌, ◌≡◌, ◌≢◌, refl, String, String_discrete, List, [], ◌∷◌, none, arith, length,
}
use text.Mathlib.TextEquality.{eq_iff}
use ryan_cache.GoMap.{lookup, insert, delete}
use ryan_cache.Levels.Local.{
  LocalCache, LocalCacheItem, new_local_cache, find_oldest, evict_lru, get, set,
}
use ryan_cache.Levels.Room

-- A cache of two entries that is full; "a" was read last.
abbrev full : LocalCache
full = (get 3 "a" (set 2 [] "b" "2" 50 (set 1 [] "a" "1" 50 (new_local_cache 2)))).0

abbrev a_item : LocalCacheItem
a_item = record { value = "1"; expires_at = 51; access_count = 1; last_access = 3 }

abbrev b_item : LocalCacheItem
b_item = record { value = "2"; expires_at = 52; access_count = 0; last_access = 2 }

abbrev entries : List (String × LocalCacheItem)
entries = ("a", a_item) ∷ ("b", b_item) ∷ []

runs : Unit {0}
unfolding get set evict_lru find_oldest lookup insert delete String_discrete
runs = tt

b_evicted : (get 6 "b" (set 5 entries "c" "3" 50 full)).1 ≡ none
unfolding runs
b_evicted = refl

a_named : ◌≢◌ {A = String} "a" ""
a_named p = cc ((eq_iff "a" "").1 p)

b_named : ◌≢◌ {A = String} "b" ""
b_named p = cc ((eq_iff "b" "").1 p)

set-length_example : length (set 5 entries "c" "3" 50 full).items ≤ 2
unfolding runs
set-length_example =
    Room.set-length 5 entries "c" "3" 50 full (omega arith) (omega arith) refl
      (refl, a_named, omega arith, (refl, b_named, omega arith, tt))
