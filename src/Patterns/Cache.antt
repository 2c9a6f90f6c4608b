-- ===== src/Patterns/Cache.antt =====
-- The simple cache of tutorial/02-patterns/cache_aside.go.
use ryan_cache.Prelude.{String, String_discrete, Option, []}
use ryan_cache.GoMap.{GoMap, lookup, insert, delete}

pub record Cache : Type 0 where
  pub data_of : GoMap String String

-- `NewCache`
abbrev pub new_cache : Cache
new_cache = record { data_of = [] }

-- `Get`, `Set` and `Delete`
abbrev pub get : String → Cache → Option String
get key c = lookup String_discrete key c.data_of

abbrev pub set : String → String → Cache → Cache
set key value c = record { data_of = insert String_discrete key value c.data_of }

abbrev pub delete_key : String → Cache → Cache
delete_key key c = record { data_of = delete String_discrete key c.data_of }
