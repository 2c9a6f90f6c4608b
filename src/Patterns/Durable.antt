-- ===== src/Patterns/Durable.antt =====
-- Histories of calls of the cache of tutorial/02-patterns/write_back.go, and what a flush makes
-- durable. `visit` is the order of the loops of its flushes, and `clock` the time of a write, by the
-- state in which it happens.
use ryan_cache.Prelude.{◌≡◌, refl, ap, String, List, [], false}
use mathlib.Core.Path.{fun_ext}
use ryan_cache.GoMap.{GoMap, lookup}
use ryan_cache.Lru.Defs.{Time}
use ryan_cache.Patterns.Database.{Database}
use ryan_cache.Patterns.Cache.{new_cache}
use ryan_cache.Patterns.Spec.{
  Call, gets, sets, deletes, other, Answer, done, answer_of, Plain, put, expect, expect_all, run,
  Implements,
}
use ryan_cache.Patterns.Spec
use ryan_cache.Patterns.Back.{DirtyItem, WriteBackCache, get, set, delete_key, flush, count_dirty}
use ryan_cache.Patterns.Flushed.{
  shown, IsTracked, IsVisit, flush-IsTracked, flush-shown, flush-cache, flush-database,
}
use ryan_cache.Patterns.Behind.{get_lem, set-IsTracked, set-shown, delete-IsTracked, delete-shown}

-- The other call is a flush, which changes nothing that a call shows.
abbrev pub effect : Unit {0} → Plain → Plain × Answer
effect o m = (m, done)

-- A new cache on a database.
abbrev pub fresh : Database → WriteBackCache
fresh db = record { cache = new_cache; db = db; dirty_data = []; stopped = false }

pub fresh-IsTracked : (db : Database) → IsTracked (fresh db)
unfolding lookup
fresh-IsTracked db = record { clean = λ k v e h. cc h; dirty = λ k i e. cc e; distinct = tt }

module _ (visit : GoMap String DirtyItem → List (String × DirtyItem))
    (clock : WriteBackCache → Time) where
  unfoldable pub step : Call (Unit {0}) → WriteBackCache → WriteBackCache × Answer
  unfolding get set delete_key flush
  step (gets key) wb = let (wb1, found) = get key wb in (wb1, answer_of found)
  step (sets key value) wb = (set (clock wb) key value wb, done)
  step (deletes key) wb = (delete_key key wb, done)
  step (other o) wb = (flush visit wb, done)

  step-answers :
      (c : Call (Unit {0})) (wb : WriteBackCache)
      → IsTracked wb
      → (step c wb).1 ≡ (expect effect c (shown wb)).1
  unfolding step expect
  step-answers (gets key) wb w = ap answer_of (get_lem key wb w).0
  step-answers (sets key v) wb w = refl
  step-answers (deletes key) wb w = refl
  step-answers (other o) wb w = refl

  module _ (order : IsVisit visit) where
    step-IsTracked :
        (c : Call (Unit {0})) (wb : WriteBackCache) → IsTracked wb → IsTracked (step c wb).0
    unfolding step
    step-IsTracked (gets key) wb w = (get_lem key wb w).2
    step-IsTracked (sets key v) wb w = set-IsTracked (clock wb) key v wb w
    step-IsTracked (deletes key) wb w = delete-IsTracked key wb w
    step-IsTracked (other o) wb w = flush-IsTracked visit order wb w

    step-shown :
        (c : Call (Unit {0})) (wb : WriteBackCache)
        → IsTracked wb
        → shown (step c wb).0 ≡ (expect effect c (shown wb)).0
    unfolding step expect
    step-shown (gets key) wb w = (get_lem key wb w).1
    step-shown (sets key v) wb w = set-shown (clock wb) key v wb
    step-shown (deletes key) wb w = delete-shown key wb
    step-shown (other o) wb w = flush-shown visit order wb w

    abbrev implements : Implements effect step
    implements = record {
      view = shown;
      IsValid = IsTracked;
      keeps = step-IsTracked;
      answers = step-answers;
      shows = step-shown;
    }

    -- A write-back cache that starts empty, on any database, answers every history of reads, writes,
    -- deletions and flushes, whatever the order in which a flush visits the dirty items, as one map
    -- does that starts with what the database holds.
    pub back-refines :
        (calls : List (Call (Unit {0}))) (db : Database)
        → ((run effect step calls (fresh db)).1 ≡ (expect_all effect calls (shown (fresh db))).1)
          × (shown (run effect step calls (fresh db)).0
              ≡ (expect_all effect calls (shown (fresh db))).0)
          × IsTracked (run effect step calls (fresh db)).0
    back-refines calls db =
        Spec.history effect step implements calls (fresh db) (fresh-IsTracked db)

    -- A flush makes everything durable: after any history a flush leaves no dirty item, and a new
    -- cache on the database that it leaves stands for what the old one stood for.
    pub flush-durable :
        (calls : List (Call (Unit {0}))) (db : Database)
        → let wb = (run effect step calls (fresh db)).0 in
          (count_dirty (flush visit wb).dirty_data ≡ 0)
          × (shown (fresh (flush visit wb).db) ≡ shown wb)
    unfolding count_dirty shown lookup
    flush-durable calls db =
        let wb = (run effect step calls (fresh db)).0 in
        let w = (Spec.history effect step implements calls (fresh db) (fresh-IsTracked db)).2 in
        (ap count_dirty (flush-cache visit wb).1, fun_ext λ k. flush-database visit order wb w k)
