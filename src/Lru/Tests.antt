-- ===== src/Lru/Tests.antt =====
-- Runs of core/lrucache.go on a cache of two entries, and each theorem about it at that cache.
use ryan_cache.Prelude.{
  ℕ, ◌+◌, ◌-◌, ◌<◌, ◌≤◌, ◌≡◌, ◌≢◌, refl, true, false, String, String_discrete, List, [], ◌∷◌, none,
  some, arith, ok, panic, nil_map, ◌>>=◌, ℕ_discrete, Result,
}
use text.Mathlib.TextEquality.{eq_iff}
use ryan_cache.GoMap.{lookup, insert, delete}
use ryan_cache.Lru.Heap.Defs.{Ptr, Heap, update}
use ryan_cache.Lru.Defs.{
  LruCache, no_stats, no_cleanups, open_chan, calculate_memory_usage, new_lru_cache_with_cleanup,
}
use ryan_cache.Lru.Methods
use ryan_cache.Lru.Methods.{
  Reply, set_internal, set_with_ttl, ttl_lookup, is_expired, must_evict, evict_tail,
}
use ryan_cache.Lru.Batch.{get_multi}
use ryan_cache.Lru.Index.{find}
use ryan_cache.Lru.Model.{view, IsValid, total, is_over}
use ryan_cache.Lru.Model.Shortest.{Entries, IsShortest, cut}
use ryan_cache.Lru.Reps.{Reps, Returns}
use ryan_cache.Lru.History.{
  Call, sets, sets_for, gets, deletes, done, found, deleted, run, expect_all,
}
use ryan_cache.Lru.History.Sound.{history-refines, new_view}
use ryan_cache.Lru.Behaviour
use ryan_cache.Lru.Departures

program : Unit {0}
unfolding run new_lru_cache_with_cleanup must_evict evict_tail update lookup insert delete
    calculate_memory_usage String_discrete ℕ_discrete
program = tt

answers {ℓ} : {A : Type ℓ} → Result (LruCache × A) → Result A
answers r = r >>= λ p. ok p.1

-- A cache of two entries: a third key evicts the least recently used one, a read within the time of
-- an entry finds it, and a read after that does not.
abbrev calls : List Call
calls =
    sets_for 0 "a" "1" 10
    ∷ sets "b" "2"
    ∷ gets 5 "a"
    ∷ sets "c" "3"
    ∷ gets 6 "b"
    ∷ gets 20 "a"
    ∷ deletes "c"
    ∷ []

history_run :
    answers (new_lru_cache_with_cleanup 2 60 >>= run calls)
    ≡ ok (
        done
        ∷ done
        ∷ found ("1", true)
        ∷ done
        ∷ found ("", false)
        ∷ found ("", false)
        ∷ deleted true
        ∷ [])
unfolding program answers
history_run = refl

history-refines_example :
    Returns (new_lru_cache_with_cleanup 2 60 >>= run calls) (expect_all calls (new_view 2 60))
history-refines_example = history-refines 2 60 calls (omega arith)

-- "b" was used last; "a" expires at 10.
abbrev pub nodes : Heap
nodes = record {
  key = update (update (λ p. "") 3 "a") 4 "b";
  value = update (update (λ p. "") 3 "1") 4 "2";
  next = update (update (update (λ p. 0) 1 4) 4 3) 3 2;
  prev = update (update (update (λ p. 0) 2 3) 3 4) 4 1;
  fresh = 5;
}

abbrev pub two : LruCache
two = record {
  capacity = 2;
  size = 2;
  cache = ("a", 3) ∷ ("b", 4) ∷ [];
  head = 1;
  tail = 2;
  ttl_map = some (("a", 10) ∷ []);
  cleanup_interval = 60;
  stop_cleanup = open_chan;
  cleanup_stats = no_cleanups;
  stats = no_stats;
  memory_usage = 132;
  memory_limit = 200;
  heap = nodes;
}

abbrev order : List Ptr
order = 4 ∷ 3 ∷ []

a_ne_b : ◌≢◌ {A = String} "a" "b"
a_ne_b p = cc ((eq_iff "a" "b").1 p)

b_ne_a : ◌≢◌ {A = String} "b" "a"
b_ne_a p = cc ((eq_iff "b" "a").1 p)

two-Reps : Reps two order
unfolding update lookup find
two-Reps = record {
  list = record { linked = ground arith; apart = ground arith; allocated = ground arith };
  indexed = λ k. ground (arith, a_ne_b);
  sized = refl;
  distinct = ground (arith, a_ne_b);
}

two-IsValid : IsValid (view two order)
unfolding update calculate_memory_usage ℕ_discrete
two-IsValid = record {
  positive = omega arith;
  bounded = omega arith;
  distinct = ground (arith, a_ne_b);
  charged = omega arith;
}

get-set_example :
    (c1 : LruCache) × (c2 : LruCache) × (set_internal "c" "3" two ≡ ok c1)
    × (Methods.get 12 "c" c1 ≡ ok (c2, ("3", true)))
unfolding program
get-set_example = Behaviour.get-set 12 "c" "3" two order two-Reps two-IsValid refl refl

get-delete_key_example :
    (c1 : LruCache) × (c2 : LruCache) × (Methods.delete_key "a" two
      ≡ ok (c1, Behaviour.is_some (lookup String_discrete "a" (view two order).items)))
    × (Methods.get 5 "a" c1 ≡ ok (c2, ("", false)))
get-delete_key_example = Behaviour.get-delete_key 5 "a" two order two-Reps two-IsValid

set_internal-IsValid_example :
    (c1 : LruCache) × (ys : List Ptr) × (set_internal "c" "3" two ≡ ok c1)
    × Reps c1 ys
    × IsValid (view c1 ys)
    × (c1.size ≤ c1.capacity)
set_internal-IsValid_example = Behaviour.set_internal-IsValid "c" "3" two order two-Reps two-IsValid

abbrev weight : ℕ
weight = calculate_memory_usage "c" "3"

set_internal_evicts_example :
    (c1 : LruCache) × (ys : List Ptr) × (kept : Entries) × (gone : Entries) × (set_internal "c" "3"
        two
      ≡ ok c1)
    × Reps c1 ys
    × ((view c1 ys).items ≡ ("c", "3") ∷ kept)
    × IsShortest weight (view two order) kept gone
    × (is_over weight (cut (view two order) kept gone) ≡ false)
    × (c1.memory_usage ≡ 132 - total gone + weight)
unfolding program
set_internal_evicts_example =
    Behaviour.set_internal_evicts "c" "3" two order two-Reps two-IsValid refl refl

get-leaks_example :
    (c1 : LruCache) × (ys : List Ptr) × (Methods.get 11 "a" two ≡ ok (c1, ("", false)))
    × Reps c1 ys
    × (c1.memory_usage ≡ total (view c1 ys).items + calculate_memory_usage "a" "1")
unfolding program is_expired ttl_lookup
get-leaks_example = Departures.get-leaks 11 "a" "1" two order two-Reps two-IsValid refl refl refl

-- A value of 10 bytes for "a" is 75 bytes with its key, and 141 with the other entry.
abbrev tight : LruCache
tight = record two { memory_limit = 140 }

tight-Reps : Reps tight order
tight-Reps = record {
  list = two-Reps.list;
  indexed = two-Reps.indexed;
  sized = two-Reps.sized;
  distinct = two-Reps.distinct;
}

tight-IsValid : IsValid (view tight order)
tight-IsValid = record {
  positive = two-IsValid.positive;
  bounded = two-IsValid.bounded;
  distinct = two-IsValid.distinct;
  charged = two-IsValid.charged;
}

set_internal-exceeds_limit_example :
    (c1 : LruCache) × (ys : List Ptr) × (set_internal "a" "0123456789" tight ≡ ok c1)
    × Reps c1 ys
    × ((view c1 ys).items
        ≡ ("a", "0123456789") ∷ delete String_discrete "a" (view tight order).items)
    × (c1.memory_usage
        ≡ tight.memory_usage
          - calculate_memory_usage "a" "1"
          + calculate_memory_usage "a" "0123456789")
    × (c1.memory_limit < c1.memory_usage)
unfolding program
set_internal-exceeds_limit_example =
    Departures.set_internal-exceeds_limit "a" "0123456789" "1" tight order tight-Reps tight-IsValid
      (omega arith) refl refl (omega arith)

abbrev no_expiry : LruCache
no_expiry = record two { ttl_map = none }

set_with_ttl-nil_map_example : set_with_ttl 0 "a" "3" 10 no_expiry ≡ panic nil_map
set_with_ttl-nil_map_example =
    Departures.set_with_ttl-nil_map 0 "a" "3" 10 no_expiry order
      (record {
        list = two-Reps.list;
        indexed = two-Reps.indexed;
        sized = two-Reps.sized;
        distinct = two-Reps.distinct;
      })
      (record {
        positive = two-IsValid.positive;
        bounded = two-IsValid.bounded;
        distinct = two-IsValid.distinct;
        charged = two-IsValid.charged;
      })
      refl

get-set_stale_example :
    (c1 : LruCache) × (c2 : LruCache) × (set_internal "a" "3" two ≡ ok c1)
    × (Methods.get 11 "a" c1 ≡ ok (c2, ("", false)))
unfolding program is_expired ttl_lookup
get-set_stale_example = Departures.get-set_stale 11 "a" "3" two order two-Reps two-IsValid refl refl

get_multi-ignores_expiry_example :
    (c1 : LruCache) × (c2 : LruCache) × (get_multi ("a" ∷ []) two ≡ ok (c1, ("a", "1") ∷ []))
    × (Methods.get 11 "a" two ≡ ok (c2, ("", false)))
unfolding program is_expired ttl_lookup
get_multi-ignores_expiry_example =
    Departures.get_multi-ignores_expiry 11 "a" "1" two order two-Reps two-IsValid refl refl
