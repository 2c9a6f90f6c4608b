-- ===== src/Patterns/Tests.antt =====
-- Runs of the caches of tutorial/02-patterns, and each theorem about them at a history.
use ryan_cache.Prelude.{◌≡◌, refl, String, String_discrete, List, [], ◌∷◌, some}
use ryan_cache.GoMap.{lookup, insert, delete}
use ryan_cache.Cluster.Tests.{same}
use ryan_cache.Patterns.Database
use ryan_cache.Patterns.Database.{Database}
use ryan_cache.Patterns.Cache
use ryan_cache.Patterns.Cache.{new_cache}
use ryan_cache.Patterns.Coherent.{Coherent, db_map, read_through}
use ryan_cache.Patterns.Spec.{
  Call, gets, sets, deletes, other, value, missing, done, refused, expect_all, run,
}
use ryan_cache.Patterns.Aside
use ryan_cache.Patterns.Aside.{CacheAsideService}
use ryan_cache.Patterns.Race
use ryan_cache.Patterns.Race.{
  reading, finished, writing, dropped, race, get_all, Reaches, here, then, misses, loads, fills,
  stores, drops,
}
use ryan_cache.Patterns.Through
use ryan_cache.Patterns.Through.{WriteThroughCache, set_with_rollback, roll_back}
use ryan_cache.Patterns.Back
use ryan_cache.Patterns.Back.{WriteBackCache, flush, flush_items, count_dirty}
use ryan_cache.Patterns.Flushed.{IsTracked, IsVisit, shown}
use ryan_cache.Patterns.Durable
use ryan_cache.Patterns.Durable.{fresh}

abbrev database : Database
database = record { data_of = ("a", "1") ∷ [] }

abbrev calls : List (Call (String × String))
calls =
    gets "a"
    ∷ sets "a" "2"
    ∷ gets "a"
    ∷ other ("fail_key", "3")
    ∷ gets "fail_key"
    ∷ deletes "a"
    ∷ gets "a"
    ∷ []

abbrev aside : CacheAsideService
aside = record { cache = new_cache; db = database }

abbrev through : WriteThroughCache
through = record { cache = new_cache; db = database }

rollback_refused :
    (run Through.effect Through.step calls through).1
    ≡ value "1" ∷ done ∷ value "2" ∷ refused ∷ missing ∷ done ∷ missing ∷ []
unfolding run Through.step Through.get Through.set Through.delete_key set_with_rollback roll_back
    read_through lookup insert delete String_discrete
rollback_refused = refl

aside-refines_example :
    ((run Aside.effect Aside.step calls aside).1
      ≡ (expect_all Aside.effect calls (db_map database)).1)
    × (db_map (run Aside.effect Aside.step calls aside).0.db
        ≡ (expect_all Aside.effect calls (db_map database)).0)
    × Coherent
        (run Aside.effect Aside.step calls aside).0.cache
        (run Aside.effect Aside.step calls aside).0.db
aside-refines_example = Aside.aside-refines calls database

through-refines_example :
    ((run Through.effect Through.step calls through).1
      ≡ (expect_all Through.effect calls (db_map database)).1)
    × (db_map (run Through.effect Through.step calls through).0.db
        ≡ (expect_all Through.effect calls (db_map database)).0)
    × Coherent
        (run Through.effect Through.step calls through).0.cache
        (run Through.effect Through.step calls through).0.db
through-refines_example = Through.through-refines calls database

abbrev writes : List (Call (Unit {0}))
writes = gets "a" ∷ sets "a" "2" ∷ sets "b" "3" ∷ other tt ∷ sets "a" "4" ∷ deletes "b" ∷ []

abbrev behind : WriteBackCache
behind = (run Durable.effect (Durable.step same (λ wb. 5)) writes (fresh database)).0

one_dirty : count_dirty behind.dirty_data ≡ 1
unfolding run Durable.step Back.get Back.set Back.delete_key flush flush_items count_dirty
    read_through lookup insert delete String_discrete
one_dirty = refl

same-IsVisit : IsVisit same
same-IsVisit m d = (d, λ k. refl)

back-refines_example :
    ((run Durable.effect (Durable.step same (λ wb. 5)) writes (fresh database)).1
      ≡ (expect_all Durable.effect writes (shown (fresh database))).1)
    × (shown behind ≡ (expect_all Durable.effect writes (shown (fresh database))).0)
    × IsTracked behind
back-refines_example = Durable.back-refines same (λ wb. 5) same-IsVisit writes database

flush-durable_example :
    (count_dirty (flush same behind).dirty_data ≡ 0)
    × (shown (fresh (flush same behind).db) ≡ shown behind)
flush-durable_example = Durable.flush-durable same (λ wb. 5) same-IsVisit writes database

-- The write has reached the database, and the read misses and fills around its deletion.
abbrev half_written : CacheAsideService
half_written = record { cache = record { data_of = [] }; db = record { data_of = ("a", "2") ∷ [] } }

race-fresh_example :
    (Database.get "a" (record { data_of = ("a", "2") ∷ [] }) ≡ some "2")
    × ((u : String) → Cache.get "a" (record { data_of = ("a", "2") ∷ [] }) ≡ some u → u ≡ "2")
unfolding lookup insert delete String_discrete
race-fresh_example =
    Race.race-fresh "a" "2" half_written
      (record { cache = record { data_of = ("a", "2") ∷ [] }; db = half_written.db }) finished refl
      (then (misses refl) (then (loads refl) (then drops (then fills here))))

race-stale_example :
    (s1 : CacheAsideService) × Reaches "a" "2"
      (race aside reading writing)
      (race s1 finished dropped)
    × (Database.get "a" s1.db ≡ some "2")
    × ((keys : List String) → (Aside.get "a" (get_all keys s1)).1 ≡ some "1")
unfolding lookup insert delete String_discrete
race-stale_example = Race.race-stale "a" "2" aside "1" refl refl
