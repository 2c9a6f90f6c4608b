-- ===== src/Problems/Null.antt =====
-- The cache of empty values and the counting database of tutorial/03-problems/penetration.go. `now`
-- is the time that a method reads.
use ryan_cache.Prelude.{
  ℕ, ◌+◌, ◌≡◌, String, String_discrete, Bool, true, false, Option, none, some, [], arith, ltb,
  if◌then◌else◌, ite,
}
use ryan_cache.GoMap.{GoMap, lookup, insert, lookup-insert}
use ryan_cache.Lru.Defs.{Time}

pub record NullCacheItem : Type 0 where
  pub value : String
  pub is_null : Bool
  pub expires_at : Time

pub record NullCache : Type 0 where
  pub entries : GoMap String NullCacheItem

-- `NewNullCache`
abbrev pub new_null_cache : NullCache
new_null_cache = record { entries = [] }

-- `Get`: the value, whether there is an entry, and whether that stands for no value.
unfoldable pub get : Time → String → NullCache → String × Bool × Bool
get now key c = elim (lookup String_discrete key c.entries) [
  | none ↦ ("", false, false)
  | some item ↦
      if ltb item.expires_at now
      then ("", false, false)
      else (if item.is_null then ("", true, true) else (item.value, true, false))
]

-- `Set` and `SetNull`
unfoldable pub set : Time → String → String → ℕ → NullCache → NullCache
set now key value ttl c = record {
  entries =
      insert String_discrete key (record { value = value; is_null = false; expires_at = now + ttl })
        c.entries;
}

unfoldable pub set_null : Time → String → ℕ → NullCache → NullCache
set_null now key ttl c = record {
  entries =
      insert String_discrete key (record { value = ""; is_null = true; expires_at = now + ttl })
        c.entries;
}

pub record DatabaseWithStats : Type 0 where
  pub rows : GoMap String String
  pub query_count : ℕ
  pub invalid_queries : ℕ

-- `Query`
unfoldable pub query : String → DatabaseWithStats → DatabaseWithStats × Option String
query key db = elim (lookup String_discrete key db.rows) [
  | none ↦ (
    record db { query_count = db.query_count + 1; invalid_queries = db.invalid_queries + 1 },
    none,
  )
  | some v ↦ (record db { query_count = db.query_count + 1 }, some v)
]

-- `GetStats` and `ResetStats`
abbrev pub get_stats : DatabaseWithStats → ℕ × ℕ
get_stats db = (db.query_count, db.invalid_queries)

abbrev pub reset_stats : DatabaseWithStats → DatabaseWithStats
reset_stats db = record db { query_count = 0; invalid_queries = 0 }

-- After `SetNull` a read of the key answers that it has no value, until its time is over, and then
-- that there is no entry; a read of another key answers what it did before.
get-set_null :
    (now later : Time) (key other : String) (ttl : ℕ) (c : NullCache)
    → get later other (set_null now key ttl c)
      ≡ ite
          (String_discrete key other)
          (if ltb (now + ttl) later then ("", false, false) else ("", true, true))
          (get later other c)
unfolding get set_null
get-set_null now later key other ttl c = elim (String_discrete key other) [
  | yes p ↦ ground (
    arith,
    p,
    lookup-insert String_discrete key other
        (record { value = ""; is_null = true; expires_at = now + ttl }) c.entries,
  )
  | no p ↦ ground (
    arith,
    p,
    lookup-insert String_discrete key other
        (record { value = ""; is_null = true; expires_at = now + ttl }) c.entries,
  )
]
