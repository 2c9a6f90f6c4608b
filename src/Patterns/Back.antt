-- ===== src/Patterns/Back.antt =====
-- tutorial/02-patterns/write_back.go: a write goes to the cache alone and is dirty until a flush
-- writes it to the database. `Set`, `Delete` and the flushes hold the lock for their whole body.
use ryan_cache.Prelude.{
  ℕ, suc, String, String_discrete, List, [], ◌∷◌, Bool, true, false, Option, Result, ok, panic,
  closed_channel, if◌then◌else◌,
}
use ryan_cache.GoMap.{GoMap, insert, delete}
use ryan_cache.Lru.Defs.{Time}
use ryan_cache.Patterns.Database
use ryan_cache.Patterns.Database.{Database, new_database}
use ryan_cache.Patterns.Cache
use ryan_cache.Patterns.Cache.{Cache, new_cache}
use ryan_cache.Patterns.Coherent.{read_through}

pub record DirtyItem : Type 0 where
  pub key : String
  pub value : String
  pub timestamp : Time
  pub is_dirty : Bool

pub record WriteBackCache : Type 0 where
  pub cache : Cache
  pub db : Database
  pub dirty_data : GoMap String DirtyItem
  pub stopped : Bool

-- `NewWriteBackCache`; the routine that flushes at each tick is left out.
abbrev pub new_write_back_cache : WriteBackCache
new_write_back_cache = record {
  cache = new_cache;
  db = new_database;
  dirty_data = [];
  stopped = false;
}

-- `Get`
unfoldable pub get : String → WriteBackCache → WriteBackCache × Option String
unfolding read_through
get key wb = let (c, found) = read_through key wb.cache wb.db in (record wb { cache = c }, found)

-- `Set`
unfoldable pub set : Time → String → String → WriteBackCache → WriteBackCache
set now key value wb = record wb {
  cache = Cache.set key value wb.cache;
  dirty_data =
      insert String_discrete key
        (record { key = key; value = value; timestamp = now; is_dirty = true }) wb.dirty_data;
}

-- `Delete`
unfoldable pub delete_key : String → WriteBackCache → WriteBackCache
delete_key key wb = record wb {
  cache = Cache.delete_key key wb.cache;
  dirty_data = delete String_discrete key wb.dirty_data;
  db = Database.delete_key key wb.db;
}

-- The loop of `Flush` over the items, in the order in which it visits them.
unfoldable pub flush_items : List (String × DirtyItem) → Database → Database
flush_items [] db = db
flush_items ((key, item) ∷ items) db =
    flush_items items (if item.is_dirty then Database.set key item.value db else db)

-- `Flush`, and `autoFlush`: both write every dirty item and forget them.
unfoldable pub flush :
    (GoMap String DirtyItem → List (String × DirtyItem)) → WriteBackCache → WriteBackCache
unfolding flush_items
flush visit wb = elim wb.dirty_data [
  | [] ↦ wb
  | e ∷ items ↦ record wb { db = flush_items (visit wb.dirty_data) wb.db; dirty_data = [] }
]

-- `GetDirtyCount`
unfoldable pub count_dirty : GoMap String DirtyItem → ℕ
count_dirty [] = 0
count_dirty ((key, item) ∷ items) =
    if item.is_dirty then suc (count_dirty items) else count_dirty items

-- `Close`: a second call closes a closed channel.
unfoldable pub close :
    (GoMap String DirtyItem → List (String × DirtyItem)) → WriteBackCache → Result WriteBackCache
unfolding flush
close visit wb =
    let wb1 = flush visit wb in
    if wb1.stopped then panic closed_channel else ok (record wb1 { stopped = true })
