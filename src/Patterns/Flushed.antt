-- ===== src/Patterns/Flushed.antt =====
-- What the cache of tutorial/02-patterns/write_back.go stands for, and that a flush, whatever the
-- order of its loop, keeps it.
use ryan_cache.Prelude.{
  ◌≡◌, refl, sym, subst, ◌⊎◌, inl, inr, String, String_discrete, List, [], ◌∷◌, true, Option, none,
  some, arith, Option-cases, Distinct, Fresh, if◌then◌else◌,
}
use mathlib.Core.Path.{fun_ext}
use ryan_cache.GoMap.{GoMap, keys, lookup, lookup-insert, lookup-Fresh}
use ryan_cache.Patterns.Database
use ryan_cache.Patterns.Database.{Database}
use ryan_cache.Patterns.Cache
use ryan_cache.Patterns.Cache.{Cache}
use ryan_cache.Patterns.Spec.{Plain}
use ryan_cache.Patterns.Back.{DirtyItem, WriteBackCache, flush_items, flush}

abbrev pub dirty_at : String → WriteBackCache → Option DirtyItem
dirty_at k wb = lookup String_discrete k wb.dirty_data

-- The map that the cache and the database stand for.
unfoldable pub shown : WriteBackCache → Plain
shown wb k = elim (Cache.get k wb.cache) [ none ↦ Database.get k wb.db | some v ↦ some v ]

-- A key that is not dirty is in the cache as in the database, and the item of a dirty one holds what
-- the cache holds.
pub record IsTracked (wb : WriteBackCache) : Type 0 where
  pub clean :
      (k v : String)
      → dirty_at k wb ≡ none
      → Cache.get k wb.cache ≡ some v
      → Database.get k wb.db ≡ some v
  pub dirty :
      (k : String) (item : DirtyItem)
      → dirty_at k wb ≡ some item
      → (item.is_dirty ≡ true) × (Cache.get k wb.cache ≡ some item.value)
  pub distinct : Distinct (keys wb.dirty_data)

-- The order of a loop over a map: every entry, and each once.
abbrev pub IsVisit : (GoMap String DirtyItem → List (String × DirtyItem)) → Type 0
IsVisit visit =
    (m : GoMap String DirtyItem)
    → Distinct (keys m)
    → Distinct (keys (visit m))
      × ((k : String) → lookup String_discrete k (visit m) ≡ lookup String_discrete k m)

-- What the database holds after the loop of a flush.
abbrev pub after_flush : Option DirtyItem → Option String → Option String
after_flush none old = old
after_flush (some item) old = if item.is_dirty then some item.value else old

flush_items_lem :
    (items : GoMap String DirtyItem) (db : Database) (k : String)
    → Distinct (keys items)
    → Database.get k (flush_items items db)
      ≡ after_flush (lookup String_discrete k items) (Database.get k db)
unfolding flush_items lookup
flush_items_lem [] db k d = refl
flush_items_lem ((j, item) ∷ items) db k d =
    let db1 : Database = if item.is_dirty then Database.set j item.value db else db in
    let rest = flush_items_lem items db1 k d.1 in
    elim (String_discrete j k) [
      | yes p ↦
          let gone =
            lookup-Fresh String_discrete k items (subst (λ x. Fresh x (keys items)) p d.0) in
          ground (arith, rest, gone, p, lookup-insert String_discrete j k item.value db.data_of)
      | no p ↦ ground (arith, rest, p, lookup-insert String_discrete j k item.value db.data_of)
    ]

List-cases :
    (m : GoMap String DirtyItem)
    → (m ≡ []) ⊎ ((e : String × DirtyItem) × (items : GoMap String DirtyItem) × (m ≡ e ∷ items))
List-cases [] = inl refl
List-cases (e ∷ items) = inr (e, items, refl)

-- A flush leaves the cache as it is and forgets every item.
pub flush-cache :
    (visit : GoMap String DirtyItem → List (String × DirtyItem)) (wb : WriteBackCache)
    → ((flush visit wb).cache ≡ wb.cache) × ((flush visit wb).dirty_data ≡ [])
unfolding flush
flush-cache visit wb = elim (List-cases wb.dirty_data) [
  | inl e ↦ (ground (arith, e), ground (arith, e))
  | inr (i, items, e) ↦ (ground (arith, e), ground (arith, e))
]

-- The database after a flush.
pub flush-db :
    (visit : GoMap String DirtyItem → List (String × DirtyItem)) (wb : WriteBackCache) (k : String)
    → IsVisit visit
    → Distinct (keys wb.dirty_data)
    → Database.get k (flush visit wb).db ≡ after_flush (dirty_at k wb) (Database.get k wb.db)
unfolding flush lookup
flush-db visit wb k order d =
    let (distinct, same) = order wb.dirty_data d in
    elim (List-cases wb.dirty_data) [
      | inl e ↦ ground (arith, e)
      | inr (i, items, e) ↦
          ground (arith, e, flush_items_lem (visit wb.dirty_data) wb.db k distinct, same k)
    ]

module _ (visit : GoMap String DirtyItem → List (String × DirtyItem)) (order : IsVisit visit) where
  pub flush-IsTracked : (wb : WriteBackCache) → IsTracked wb → IsTracked (flush visit wb)
  unfolding lookup
  flush-IsTracked wb w =
      let (cached, gone) = flush-cache visit wb in
      record {
        clean = λ k v e h.
            let held : Cache.get k wb.cache ≡ some v =
              subst (λ c. Cache.get k c ≡ some v) cached h in
            let after = flush-db visit wb k order w.distinct in
            elim (Option-cases (dirty_at k wb)) [
              | inl f ↦ ground (arith, f, after, w.clean k v f held)
              | inr (item, f) ↦
                  let (on, same) = w.dirty k item f in ground (arith, f, after, on, same, held)
            ];
        dirty = λ k item e. cc (subst (λ m. lookup String_discrete k m ≡ some item) gone e);
        distinct = subst (λ m. Distinct (keys m)) (sym gone) tt;
      }

  pub flush-shown : (wb : WriteBackCache) → IsTracked wb → shown (flush visit wb) ≡ shown wb
  unfolding shown
  flush-shown wb w = fun_ext λ k.
      let (cached, gone) = flush-cache visit wb in
      elim (Option-cases (Cache.get k wb.cache)) [
        | inr (v, e) ↦ ground (arith, e, cached)
        | inl e ↦ elim (Option-cases (dirty_at k wb)) [
          | inl f ↦ ground (arith, e, f, cached, flush-db visit wb k order w.distinct)
          | inr (item, f) ↦ absurd (cc ((w.dirty k item f).1, e))
        ]
      ]

  -- The database has everything after a flush.
  pub flush-database :
      (wb : WriteBackCache)
      → IsTracked wb
      → (k : String) → Database.get k (flush visit wb).db ≡ shown wb k
  unfolding shown
  flush-database wb w k =
      let after = flush-db visit wb k order w.distinct in
      elim (Option-cases (dirty_at k wb)) [
        | inr (item, f) ↦ let (on, same) = w.dirty k item f in ground (arith, after, f, on, same)
        | inl f ↦ elim (Option-cases (Cache.get k wb.cache)) [
          | inl e ↦ ground (arith, after, f, e)
          | inr (v, e) ↦ ground (arith, after, f, e, w.clean k v f e)
        ]
      ]
