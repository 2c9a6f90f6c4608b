-- ===== src/Patterns/Database.antt =====
-- The simulated database of tutorial/02-patterns/cache_aside.go. Its delays are left out.
use ryan_cache.Prelude.{String, String_discrete, Option, []}
use ryan_cache.GoMap.{GoMap, lookup, insert, delete}

pub record Database : Type 0 where
  pub data_of : GoMap String String

-- `NewDatabase`
abbrev pub new_database : Database
new_database = record { data_of = [] }

-- `Get`, `Set` and `Delete`
abbrev pub get : String → Database → Option String
get key db = lookup String_discrete key db.data_of

abbrev pub set : String → String → Database → Database
set key value db = record { data_of = insert String_discrete key value db.data_of }

abbrev pub delete_key : String → Database → Database
delete_key key db = record { data_of = delete String_discrete key db.data_of }
