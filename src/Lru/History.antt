-- ===== src/Lru/History.antt =====
-- Whole histories of calls on the cache of core/lrucache.go, on the pointers and on the entries.
pub mod Sound
use ryan_cache.Prelude.{
  ℕ, ◌+◌, ◌≡◌, String, String_discrete, Bool, List, [], ◌∷◌, Option, none, some, Result, ok, ◌>>=◌,
}
use ryan_cache.GoMap.{GoMap, insert}
use ryan_cache.Lru.Defs.{Time, LruCache}
use ryan_cache.Lru.Methods
use ryan_cache.Lru.Methods.{Reply, set_internal, set_with_ttl}
use ryan_cache.Lru.Model
use ryan_cache.Lru.Model.{View}

pub data Call : Type 0 where
  sets : String → String → Call
  sets_for : Time → String → String → ℕ → Call
  gets : Time → String → Call
  deletes : String → Call

pub data Answer : Type 0 where
  done : Answer
  found : Reply → Answer
  deleted : Bool → Answer

unfoldable pub step : Call → LruCache → Result (LruCache × Answer)
unfolding set_internal set_with_ttl Methods.get Methods.delete_key
step (sets k x) c = do c1 ← set_internal k x c; ok (c1, done)
step (sets_for now k x ttl) c = do c1 ← set_with_ttl now k x ttl c; ok (c1, done)
step (gets now k) c = do (c1, r) ← Methods.get now k c; ok (c1, found r)
step (deletes k) c = do (c1, b) ← Methods.delete_key k c; ok (c1, deleted b)

unfoldable pub run : List Call → LruCache → Result (LruCache × List Answer)
unfolding step
run [] c = ok (c, [])
run (call ∷ calls) c = do
  (c1, answer) ← step call c
  (c2, answers) ← run calls c1
  ok (c2, answer ∷ answers)

-- The same on the entries.
unfoldable pub expect : Call → View → View × Answer
unfolding Model.set Model.set_for Model.get Model.delete_key
expect (sets k x) v = (Model.set k x v, done)
expect (sets_for now k x ttl) v = (Model.set_for now k x ttl v, done)
expect (gets now k) v = let (w, r) = Model.get now k v in (w, found r)
expect (deletes k) v = let (w, b) = Model.delete_key k v in (w, deleted b)

unfoldable pub expect_all : List Call → View → View × List Answer
unfolding expect
expect_all [] v = (v, [])
expect_all (call ∷ calls) v =
    let (w, answer) = expect call v in
    let (z, answers) = expect_all calls w in (z, answer ∷ answers)
