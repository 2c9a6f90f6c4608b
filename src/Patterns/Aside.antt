-- ===== src/Patterns/Aside.antt =====
-- tutorial/02-patterns/cache_aside.go: a write goes to the database and takes the key out of the
-- cache, and a read that misses fills it.
use ryan_cache.Prelude.{◌≡◌, refl, ap, String, Option, some, List}
use ryan_cache.GoMap.{lookup}
use ryan_cache.Patterns.Database
use ryan_cache.Patterns.Database.{Database, new_database}
use ryan_cache.Patterns.Cache
use ryan_cache.Patterns.Cache.{Cache, new_cache}
use ryan_cache.Patterns.Coherent.{
  read_through, Coherent, put_both-Coherent, delete_put-Coherent, delete_both-Coherent,
  read_through_lem, db_map, db_map-set, db_map-delete,
}
use ryan_cache.Patterns.Spec.{
  Call, gets, sets, deletes, other, Answer, done, answer_of, Plain, put, expect, expect_all, run,
  Implements,
}
use ryan_cache.Patterns.Spec

pub record CacheAsideService : Type 0 where
  pub cache : Cache
  pub db : Database

-- `NewCacheAsideService`
abbrev pub new_cache_aside_service : CacheAsideService
new_cache_aside_service = record { cache = new_cache; db = new_database }

-- `Get`
unfoldable pub get : String → CacheAsideService → CacheAsideService × Option String
unfolding read_through
get key s = let (c, found) = read_through key s.cache s.db in (record s { cache = c }, found)

-- `Set`
unfoldable pub set : String → String → CacheAsideService → CacheAsideService
set key value s = record { db = Database.set key value s.db; cache = Cache.delete_key key s.cache }

-- `Delete`
unfoldable pub delete_key : String → CacheAsideService → CacheAsideService
delete_key key s = record {
  db = Database.delete_key key s.db;
  cache = Cache.delete_key key s.cache;
}

-- `SetWithUpdate`
unfoldable pub set_with_update : String → String → CacheAsideService → CacheAsideService
set_with_update key value s = record {
  db = Database.set key value s.db;
  cache = Cache.set key value s.cache;
}

-- A call of a service, with the key and the value of `SetWithUpdate` as the other one.
unfoldable pub step : Call (String × String) → CacheAsideService → CacheAsideService × Answer
unfolding get set delete_key set_with_update
step (gets key) s = let (s1, found) = get key s in (s1, answer_of found)
step (sets key value) s = (set key value s, done)
step (deletes key) s = (delete_key key s, done)
step (other (key, value)) s = (set_with_update key value s, done)

-- `SetWithUpdate` promises what `Set` does.
abbrev pub effect : String × String → Plain → Plain × Answer
effect (key, value) m = (put key (some value) m, done)

step-Coherent :
    (c : Call (String × String)) (s : CacheAsideService)
    → Coherent s.cache s.db
    → Coherent (step c s).0.cache (step c s).0.db
unfolding step get set delete_key set_with_update
step-Coherent (gets key) s w = (read_through_lem key s.cache s.db w).1
step-Coherent (sets key v) s w = delete_put-Coherent key v s.cache s.db w
step-Coherent (deletes key) s w = delete_both-Coherent key s.cache s.db w
step-Coherent (other (key, v)) s w = put_both-Coherent key v s.cache s.db w

step-answers :
    (c : Call (String × String)) (s : CacheAsideService)
    → Coherent s.cache s.db
    → (step c s).1 ≡ (expect effect c (db_map s.db)).1
unfolding step get expect
step-answers (gets key) s w = ap answer_of (read_through_lem key s.cache s.db w).0
step-answers (sets key v) s w = refl
step-answers (deletes key) s w = refl
step-answers (other (key, v)) s w = refl

step-shows :
    (c : Call (String × String)) (s : CacheAsideService)
    → db_map (step c s).0.db ≡ (expect effect c (db_map s.db)).0
unfolding step get set delete_key set_with_update expect
step-shows (gets key) s = refl
step-shows (sets key v) s = db_map-set key v s.db
step-shows (deletes key) s = db_map-delete key s.db
step-shows (other (key, v)) s = db_map-set key v s.db

abbrev implements : Implements effect step
implements = record {
  view = λ s. db_map s.db;
  IsValid = λ s. Coherent s.cache s.db;
  keeps = step-Coherent;
  answers = step-answers;
  shows = λ c s w. step-shows c s;
}

-- A cache-aside service that starts with an empty cache, on any database, answers every history of
-- reads, writes (by `Set` or `SetWithUpdate`) and deletions, one after the other, as one map does
-- that starts with what the database holds; the database holds the map of the end, and the cache
-- nothing else.
pub aside-refines :
    (calls : List (Call (String × String))) (db : Database)
    → let s : CacheAsideService = record { cache = new_cache; db = db } in
      ((run effect step calls s).1 ≡ (expect_all effect calls (db_map db)).1)
      × (db_map (run effect step calls s).0.db ≡ (expect_all effect calls (db_map db)).0)
      × Coherent (run effect step calls s).0.cache (run effect step calls s).0.db
unfolding lookup
aside-refines calls db =
    Spec.history effect step implements calls (record { cache = new_cache; db = db })
      (λ k v e. cc e)
