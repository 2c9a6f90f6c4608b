-- ===== src/Patterns/Behind.antt =====
-- What the cache of tutorial/02-patterns/write_back.go does to the map that it stands for: reads, writes and deletions.
use ryan_cache.Prelude.{
  ◌≡◌, refl, ap, subst, inl, inr, String, String_discrete, true, Option, none, some, arith,
  Option-cases,
}
use mathlib.Core.Path.{fun_ext}
use ryan_cache.GoMap.{lookup-insert, lookup-delete, insert-Distinct, delete-Distinct}
use ryan_cache.Lru.Defs.{Time}
use ryan_cache.Patterns.Database
use ryan_cache.Patterns.Database.{Database, new_database}
use ryan_cache.Patterns.Cache
use ryan_cache.Patterns.Cache.{Cache, new_cache}
use ryan_cache.Patterns.Coherent.{read_through}
use ryan_cache.Patterns.Spec.{put}
use ryan_cache.Patterns.Back.{DirtyItem, WriteBackCache, get, set, delete_key}
use ryan_cache.Patterns.Flushed.{dirty_at, shown, IsTracked}

-- A read that fills the cache with what the database holds.
abbrev filled : String → String → WriteBackCache → WriteBackCache
filled key v wb = record wb { cache = Cache.set key v wb.cache }

-- The key of such a read is not dirty.
missing-clean :
    (key : String) (wb : WriteBackCache)
    → IsTracked wb
    → Cache.get key wb.cache ≡ none
    → dirty_at key wb ≡ none
missing-clean key wb w e = elim (Option-cases (dirty_at key wb)) [
  | inl f ↦ f
  | inr (item, f) ↦ absurd (cc ((w.dirty key item f).1, e))
]

filled-IsTracked :
    (key v : String) (wb : WriteBackCache)
    → IsTracked wb
    → Cache.get key wb.cache ≡ none
    → Database.get key wb.db ≡ some v
    → IsTracked (filled key v wb)
filled-IsTracked key v wb w e f = record {
  clean = λ k u g h. elim (String_discrete key k) [
    | yes p ↦ ground (arith, f, h, p, lookup-insert String_discrete key k v wb.cache.data_of)
    | no p ↦
        w.clean k u g (ground (arith, h, p, lookup-insert String_discrete key k v wb.cache.data_of))
  ];
  dirty = λ k item g. elim (String_discrete key k) [
    | yes p ↦ absurd (cc (subst (λ j. dirty_at j wb ≡ none) p (missing-clean key wb w e), g))
    | no p ↦
        let (on, same) = w.dirty k item g in
        (on, ground (arith, p, same, lookup-insert String_discrete key k v wb.cache.data_of))
  ];
  distinct = w.distinct;
}

filled-shown :
    (key v : String) (wb : WriteBackCache)
    → Cache.get key wb.cache ≡ none
    → Database.get key wb.db ≡ some v
    → shown (filled key v wb) ≡ shown wb
unfolding shown
filled-shown key v wb e f = fun_ext λ k. elim (String_discrete key k) [
  | yes p ↦ ground (arith, e, f, p, lookup-insert String_discrete key k v wb.cache.data_of)
  | no p ↦ ground (arith, p, lookup-insert String_discrete key k v wb.cache.data_of)
]

-- A read answers what the cache stands for, and changes nothing of that.
abbrev pub Reads : String → WriteBackCache → WriteBackCache × Option String → Type 0
Reads key wb r = (r.1 ≡ shown wb key) × (shown r.0 ≡ shown wb) × IsTracked r.0

pub get_lem : (key : String) (wb : WriteBackCache) → IsTracked wb → Reads key wb (get key wb)
unfolding get read_through shown
get_lem key wb w = elim (Option-cases (Cache.get key wb.cache)) [
  | inr (v, e) ↦
      subst (Reads key wb) (ground (arith, e))
        (let q : some v ≡ shown wb key = ground (arith, e) in (q, refl, w))
  | inl e ↦ elim (Option-cases (Database.get key wb.db)) [
    | inl f ↦
        subst (Reads key wb) (ground (arith, e, f))
          (let q : none ≡ shown wb key = ground (arith, e, f) in (q, refl, w))
    | inr (v, f) ↦
        let answered : some v ≡ shown wb key = ground (arith, e, f) in
        subst (Reads key wb) (ground (arith, e, f))
          (answered, filled-shown key v wb e f, filled-IsTracked key v wb w e f)
  ]
]

pub set-IsTracked :
    (now : Time) (key v : String) (wb : WriteBackCache)
    → IsTracked wb
    → IsTracked (set now key v wb)
unfolding set
set-IsTracked now key v wb w =
    let item : DirtyItem = record { key = key; value = v; timestamp = now; is_dirty = true } in
    record {
      clean = λ k u e h. elim (String_discrete key k) [
        | yes p ↦
            absurd (ground (arith, e, p, lookup-insert String_discrete key k item wb.dirty_data))
        | no p ↦
            w.clean k u
              (ground (arith, e, p, lookup-insert String_discrete key k item wb.dirty_data))
              (ground (arith, h, p, lookup-insert String_discrete key k v wb.cache.data_of))
      ];
      dirty = λ k i e. elim (String_discrete key k) [
        | yes p ↦
            let same : i ≡ item =
              ground (arith, e, p, lookup-insert String_discrete key k item wb.dirty_data) in
            (
              ap (λ (x : DirtyItem). x.is_dirty) same,
              ground (arith, p, same, lookup-insert String_discrete key k v wb.cache.data_of),
            )
        | no p ↦
            let (on, same) =
              w.dirty k i
                (ground (arith, e, p, lookup-insert String_discrete key k item wb.dirty_data)) in
            (on, ground (arith, p, same, lookup-insert String_discrete key k v wb.cache.data_of))
      ];
      distinct = insert-Distinct String_discrete key item wb.dirty_data w.distinct;
    }

pub set-shown :
    (now : Time) (key v : String) (wb : WriteBackCache)
    → shown (set now key v wb) ≡ put key (some v) (shown wb)
unfolding set shown put
set-shown now key v wb =
    fun_ext λ k. ground (arith, lookup-insert String_discrete key k v wb.cache.data_of)

pub delete-IsTracked :
    (key : String) (wb : WriteBackCache) → IsTracked wb → IsTracked (delete_key key wb)
unfolding delete_key
delete-IsTracked key wb w = record {
  clean = λ k u e h. elim (String_discrete key k) [
    | yes p ↦ absurd (ground (arith, h, p, lookup-delete String_discrete key k wb.cache.data_of))
    | no p ↦ ground (
      arith,
      p,
      lookup-delete String_discrete key k wb.db.data_of,
      w.clean k u (ground (arith, e, p, lookup-delete String_discrete key k wb.dirty_data))
          (ground (arith, h, p, lookup-delete String_discrete key k wb.cache.data_of)),
    )
  ];
  dirty = λ k i e. elim (String_discrete key k) [
    | yes p ↦ absurd (ground (arith, e, p, lookup-delete String_discrete key k wb.dirty_data))
    | no p ↦
        let (on, same) =
          w.dirty k i (ground (arith, e, p, lookup-delete String_discrete key k wb.dirty_data)) in
        (on, ground (arith, p, same, lookup-delete String_discrete key k wb.cache.data_of))
  ];
  distinct = delete-Distinct String_discrete key wb.dirty_data w.distinct;
}

pub delete-shown :
    (key : String) (wb : WriteBackCache) → shown (delete_key key wb) ≡ put key none (shown wb)
unfolding delete_key shown put
delete-shown key wb = fun_ext λ k. ground (
  arith,
  lookup-delete String_discrete key k wb.cache.data_of,
  lookup-delete String_discrete key k wb.db.data_of,
)
