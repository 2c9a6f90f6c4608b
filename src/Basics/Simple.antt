-- ===== src/Basics/Simple.antt =====
-- `SimpleCache` of tutorial/01-basics/simple_cache.go, over any type of values.
use ryan_cache.Prelude.{ℕ, String, String_discrete, Option, [], length}
use ryan_cache.GoMap.{GoMap, lookup, insert, delete}

pub record SimpleCache (V : Type 0) : Type 0 where
  pub entries : GoMap String V

-- `NewSimpleCache`, and `Clear`
abbrev pub new_simple_cache : {V : Type 0} → SimpleCache V
new_simple_cache = record { entries = [] }

module _ {V : Type 0} where
  -- `Get`, `Set`, `Delete` and `Size`
  abbrev pub get : String → SimpleCache V → Option V
  get key c = lookup String_discrete key c.entries

  abbrev pub set : String → V → SimpleCache V → SimpleCache V
  set key value c = record { entries = insert String_discrete key value c.entries }

  abbrev pub delete_key : String → SimpleCache V → SimpleCache V
  delete_key key c = record { entries = delete String_discrete key c.entries }

  abbrev pub size : SimpleCache V → ℕ
  size c = length c.entries

  abbrev pub clear : SimpleCache V → SimpleCache V
  clear c = new_simple_cache
