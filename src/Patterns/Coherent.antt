-- ===== src/Patterns/Coherent.antt =====
-- The read that the three caches of tutorial/02-patterns share, and a cache that holds nothing but
-- what the database holds.
use ryan_cache.Prelude.{
  ◌≡◌, inl, inr, String, String_discrete, Option, none, some, arith, Option-cases,
}
use mathlib.Core.Path.{fun_ext}
use ryan_cache.GoMap.{lookup-insert, lookup-delete}
use ryan_cache.Patterns.Database
use ryan_cache.Patterns.Database.{Database}
use ryan_cache.Patterns.Cache
use ryan_cache.Patterns.Cache.{Cache}
use ryan_cache.Patterns.Spec.{Plain, put}

-- The read of all three caches: the cache first, then the database, whose value is kept.
unfoldable pub read_through : String → Cache → Database → Cache × Option String
read_through key c db = elim (Cache.get key c) [
  | some value ↦ (c, some value)
  | none ↦ elim (Database.get key db) [
    | none ↦ (c, none)
    | some value ↦ (Cache.set key value c, some value)
  ]
]

-- What the cache holds is what the database holds.
abbrev pub Coherent : Cache → Database → Type 0
Coherent c db = (k v : String) → Cache.get k c ≡ some v → Database.get k db ≡ some v

set-Coherent :
    (key v : String) (c : Cache) (db : Database)
    → Coherent c db
    → Database.get key db ≡ some v
    → Coherent (Cache.set key v c) db
set-Coherent key v c db coh f k u h = elim (String_discrete key k) [
  | yes p ↦ ground (arith, h, p, f, lookup-insert String_discrete key k v c.data_of)
  | no p ↦ coh k u (ground (arith, h, p, lookup-insert String_discrete key k v c.data_of))
]

pub read_through_lem :
    (key : String) (c : Cache) (db : Database)
    → Coherent c db
    → ((read_through key c db).1 ≡ Database.get key db) × Coherent (read_through key c db).0 db
unfolding read_through
read_through_lem key c db coh = elim (Option-cases (Cache.get key c)) [
  | inr (v, e) ↦ (ground (arith, e, coh key v e), λ k u h. coh k u (ground (arith, h, e)))
  | inl e ↦ elim (Option-cases (Database.get key db)) [
    | inl f ↦ (ground (arith, e, f), λ k u h. coh k u (ground (arith, h, e, f)))
    | inr (v, f) ↦
        (ground (arith, e, f), λ k u h. set-Coherent key v c db coh f k u (ground (arith, h, e, f)))
  ]
]

-- A write or a deletion of a key in the database, and what is left of the cache.
pub put_both-Coherent :
    (key v : String) (c : Cache) (db : Database)
    → Coherent c db
    → Coherent (Cache.set key v c) (Database.set key v db)
put_both-Coherent key v c db coh k u h = elim (String_discrete key k) [
  | yes p ↦ ground (
    arith,
    h,
    p,
    lookup-insert String_discrete key k v c.data_of,
    lookup-insert String_discrete key k v db.data_of,
  )
  | no p ↦
      let old : Cache.get k c ≡ some u =
        ground (arith, h, p, lookup-insert String_discrete key k v c.data_of) in
      ground (arith, p, coh k u old, lookup-insert String_discrete key k v db.data_of)
]

pub delete_put-Coherent :
    (key v : String) (c : Cache) (db : Database)
    → Coherent c db
    → Coherent (Cache.delete_key key c) (Database.set key v db)
delete_put-Coherent key v c db coh k u h = elim (String_discrete key k) [
  | yes p ↦ absurd (ground (arith, h, p, lookup-delete String_discrete key k c.data_of))
  | no p ↦
      let old : Cache.get k c ≡ some u =
        ground (arith, h, p, lookup-delete String_discrete key k c.data_of) in
      ground (arith, p, coh k u old, lookup-insert String_discrete key k v db.data_of)
]

pub delete_both-Coherent :
    (key : String) (c : Cache) (db : Database)
    → Coherent c db
    → Coherent (Cache.delete_key key c) (Database.delete_key key db)
delete_both-Coherent key c db coh k u h = elim (String_discrete key k) [
  | yes p ↦ absurd (ground (arith, h, p, lookup-delete String_discrete key k c.data_of))
  | no p ↦
      let old : Cache.get k c ≡ some u =
        ground (arith, h, p, lookup-delete String_discrete key k c.data_of) in
      ground (arith, p, coh k u old, lookup-delete String_discrete key k db.data_of)
]

abbrev pub db_map : Database → Plain
db_map db key = Database.get key db

pub db_map-set :
    (key v : String) (db : Database) → db_map (Database.set key v db) ≡ put key (some v) (db_map db)
unfolding put
db_map-set key v db = fun_ext λ k. lookup-insert String_discrete key k v db.data_of

pub db_map-delete :
    (key : String) (db : Database) → db_map (Database.delete_key key db) ≡ put key none (db_map db)
unfolding put
db_map-delete key db = fun_ext λ k. lookup-delete String_discrete key k db.data_of
