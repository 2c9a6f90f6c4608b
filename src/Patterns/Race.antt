-- ===== src/Patterns/Race.antt =====
-- A read and a write of one key that overlap, in tutorial/02-patterns/cache_aside.go: `Get` and `Set`
-- hold no lock between their accesses to the cache and to the database, each of which is one step.
use ryan_cache.Prelude.{
  ◌≡◌, sym, ap, subst, ◌∙◌, inl, inr, String, String_discrete, List, [], ◌∷◌, none, some, arith,
  Option-cases,
}
use ryan_cache.GoMap.{lookup-insert, lookup-delete}
use ryan_cache.Patterns.Database
use ryan_cache.Patterns.Database.{Database}
use ryan_cache.Patterns.Cache
use ryan_cache.Patterns.Cache.{Cache}
use ryan_cache.Patterns.Aside.{CacheAsideService, get, set}
use ryan_cache.Patterns.Coherent.{read_through}

-- Where `Get` is: at its start, after a miss, with a value of the database, or at its end.
pub data Reader : Type 0 where
  reading missed finished : Reader
  loaded : String → Reader

-- Where `Set` is: at its start, after the write to the database, or at its end.
pub data Writer : Type 0 where
  writing stored dropped : Writer

pub data Race : Type 0 where
  race : CacheAsideService → Reader → Writer → Race

-- Reads one after the other.
unfoldable pub get_all : List String → CacheAsideService → CacheAsideService
unfolding get
get_all [] s = s
get_all (k ∷ keys) s = get_all keys (get k s).0

module _ (key v : String) where
  pub data Step : Race → Race → Type 0 where
    hits :
        {s : CacheAsideService} {w : Writer} {u : String}
        → Cache.get key s.cache ≡ some u
        → Step (race s reading w) (race s finished w)
    misses :
        {s : CacheAsideService} {w : Writer}
        → Cache.get key s.cache ≡ none
        → Step (race s reading w) (race s missed w)
    lacks :
        {s : CacheAsideService} {w : Writer}
        → Database.get key s.db ≡ none
        → Step (race s missed w) (race s finished w)
    loads :
        {s : CacheAsideService} {w : Writer} {u : String}
        → Database.get key s.db ≡ some u
        → Step (race s missed w) (race s (loaded u) w)
    fills :
        {s : CacheAsideService} {w : Writer} {u : String}
        → Step
            (race s (loaded u) w)
            (race (record s { cache = Cache.set key u s.cache }) finished w)
    stores :
        {s : CacheAsideService} {r : Reader}
        → Step (race s r writing) (race (record s { db = Database.set key v s.db }) r stored)
    drops :
        {s : CacheAsideService} {r : Reader}
        → Step
            (race s r stored)
            (race (record s { cache = Cache.delete_key key s.cache }) r dropped)

  pub data Reaches : Race → Race → Type 0 where
    here : {a : Race} → Reaches a a
    then : {a b c : Race} → Step a b → Reaches b c → Reaches a c

  -- A read and a write that run alone are `Get` and `Set`.
  pub get-Reaches :
      (s : CacheAsideService) (w : Writer)
      → Reaches (race s reading w) (race (get key s).0 finished w)
  unfolding get read_through
  get-Reaches s w = elim (Option-cases (Cache.get key s.cache)) [
    | inr (u, e) ↦ subst (Ends s w) (ground (arith, e)) (then (hits e) here)
    | inl e ↦ elim (Option-cases (Database.get key s.db)) [
      | inl f ↦ subst (Ends s w) (ground (arith, e, f)) (then (misses e) (then (lacks f) here))
      | inr (u, f) ↦
          subst (Ends s w) (ground (arith, e, f))
            (then (misses e) (then (loads f) (then (fills {u = u}) here)))
    ]
  ]
    where
      Ends : CacheAsideService → Writer → CacheAsideService → Type 0
      Ends s w s1 = Reaches (race s reading w) (race s1 finished w)

  pub set-Reaches :
      (s : CacheAsideService) (r : Reader)
      → Reaches (race s r writing) (race (set key v s) r dropped)
  unfolding set
  set-Reaches s r = then stores (then drops here)

  -- What holds once the write has reached the database, of a read that had not begun before.
  abbrev Loads : Reader → Type 0
  Loads (loaded u) = u ≡ v
  Loads reading = Unit
  Loads missed = Unit
  Loads finished = Unit

  abbrev Drops : CacheAsideService → Writer → Type 0
  Drops s writing = ⊥
  Drops s stored = Unit
  Drops s dropped = (u : String) → Cache.get key s.cache ≡ some u → u ≡ v

  abbrev IsFresh : Race → Type 0
  IsFresh (race s r w) = (Database.get key s.db ≡ some v) × Loads r × Drops s w

  filled_with : (c : Cache) (u x : String) → Cache.get key (Cache.set key u c) ≡ some x → u ≡ x
  filled_with c u x e = ground (arith, e, lookup-insert String_discrete key key u c.data_of)

  emptied : (c : Cache) (x : String) → Cache.get key (Cache.delete_key key c) ≡ some x → ⊥
  emptied c x e = ground (arith, e, lookup-delete String_discrete key key c.data_of)

  fill-Drops :
      (s : CacheAsideService) (u : String) (w : Writer)
      → u ≡ v
      → Drops s w
      → Drops (record s { cache = Cache.set key u s.cache }) w
  fill-Drops s u writing h d = d
  fill-Drops s u stored h d = tt
  fill-Drops s u dropped h d = λ x e. sym (filled_with s.cache u x e) ∙ h

  Step-IsFresh : (a b : Race) → Step a b → IsFresh a → IsFresh b
  Step-IsFresh a b (hits e) (d, l, c) = (d, tt, c)
  Step-IsFresh a b (misses e) (d, l, c) = (d, tt, c)
  Step-IsFresh a b (lacks e) (d, l, c) = (d, tt, c)
  Step-IsFresh a b (loads {u = u} e) (d, l, c) = (d, cc (d, e), c)
  Step-IsFresh a b (fills {s} {w} {u}) (d, l, c) = (d, tt, fill-Drops s u w l c)
  Step-IsFresh a b (stores) (d, l, c) = absurd c
  Step-IsFresh a b (drops {s}) (d, l, c) = (d, l, λ x e. absurd (emptied s.cache x e))

  Reaches-IsFresh : (a b : Race) → Reaches a b → IsFresh a → IsFresh b
  Reaches-IsFresh a b here h = h
  Reaches-IsFresh a b (then {b = c} step rest) h =
      Reaches-IsFresh c b rest (Step-IsFresh a c step h)

  -- A read that begins when the write has reached the database leaves nothing old behind, however
  -- its steps interleave with the end of the write and whatever the cache held before: once the
  -- write is at its end, wherever the read is, the database has the new value, and the cache holds
  -- that value under the key or none.
  pub race-fresh :
      (s s1 : CacheAsideService) (r : Reader)
      → Database.get key s.db ≡ some v
      → Reaches (race s reading stored) (race s1 r dropped)
      → (Database.get key s1.db ≡ some v) × ((u : String) → Cache.get key s1.cache ≡ some u → u ≡ v)
  race-fresh s s1 r e steps =
      let (d, l, c) =
        Reaches-IsFresh (race s reading stored) (race s1 r dropped) steps (e, tt, tt) in
      (d, c)

  -- A read finds its key in the cache still after any reads, of this key and of others.
  get-keeps :
      (old k : String) (s : CacheAsideService)
      → Cache.get key s.cache ≡ some old
      → Cache.get key (get k s).0.cache ≡ some old
  unfolding get read_through
  get-keeps old k s h = elim (Option-cases (Cache.get k s.cache)) [
    | inr (u, e) ↦ ground (arith, e, h)
    | inl e ↦ elim (Option-cases (Database.get k s.db)) [
      | inl f ↦ ground (arith, e, f, h)
      | inr (u, f) ↦ elim (String_discrete k key) [
        | yes p ↦ absurd (cc (e, h, ap (λ x. Cache.get x s.cache) p))
        | no p ↦ ground (arith, e, f, h, p, lookup-insert String_discrete k key u s.cache.data_of)
      ]
    ]
  ]

  get_all-keeps :
      (old : String) (keys : List String) (s : CacheAsideService)
      → Cache.get key s.cache ≡ some old
      → Cache.get key (get_all keys s).cache ≡ some old
  unfolding get_all
  get_all-keeps old [] s h = h
  get_all-keeps old (k ∷ keys) s h = get_all-keeps old keys (get k s).0 (get-keeps old k s h)

  -- From a cache that lacks the key, a read that overlaps a write can leave the old value in the
  -- cache: there is an order of the steps after which both are at their end and the database has the
  -- new value, while the cache answers a read of the key with the old one, then and after any
  -- further reads.
  pub race-stale :
      (s : CacheAsideService) (old : String)
      → Cache.get key s.cache ≡ none
      → Database.get key s.db ≡ some old
      → (s1 : CacheAsideService) × Reaches (race s reading writing) (race s1 finished dropped)
        × (Database.get key s1.db ≡ some v)
        × ((keys : List String) → (get key (get_all keys s1)).1 ≡ some old)
  unfolding get read_through
  race-stale s old e f =
      let s1 : CacheAsideService = record s { db = Database.set key v s.db } in
      let s2 : CacheAsideService = record s1 { cache = Cache.delete_key key s1.cache } in
      let s3 : CacheAsideService = record s2 { cache = Cache.set key old s2.cache } in
      let held : Cache.get key s3.cache ≡ some old =
        ground (arith, lookup-insert String_discrete key key old s2.cache.data_of) in
      (
        s3,
        then (misses e) (then (loads f) (then stores (then drops (then fills here)))),
        ground (arith, lookup-insert String_discrete key key v s.db.data_of),
        λ keys. ground (arith, get_all-keeps old keys s3 held),
      )
