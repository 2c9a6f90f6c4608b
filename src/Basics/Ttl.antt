-- ===== src/Basics/Ttl.antt =====
-- `CacheWithTTL` of tutorial/01-basics/simple_cache.go. `now` is the time that a method reads.
use ryan_cache.Prelude.{
  ℕ, ◌+◌, ◌≤◌, ◌≡◌, refl, sym, ◌∙◌, inl, inr, String, String_discrete, Bool, true, false, List, [],
  ◌∷◌, Option, none, some, arith, ltb, if◌then◌else◌, Result, ok, panic, closed_channel, length,
  Bool-cases,
}
use ryan_cache.GoMap.{GoMap, lookup, insert, delete, lookup-delete}
use ryan_cache.Lru.Defs.{Time}

pub record CacheItem (V : Type 0) : Type 0 where
  pub value : V
  pub expires_at : Time

pub record CacheWithTtl (V : Type 0) : Type 0 where
  pub entries : GoMap String (CacheItem V)
  pub started : Bool
  pub stopped : Bool

-- `NewCacheWithTTL`; the routine that cleans up every minute is left out.
abbrev pub new_cache_with_ttl : {V : Type 0} → CacheWithTtl V
new_cache_with_ttl = record { entries = []; started = true; stopped = false }

module _ {V : Type 0} where
  -- `IsExpired`
  abbrev pub is_expired : Time → CacheItem V → Bool
  is_expired now item = ltb item.expires_at now

  -- `Delete`
  unfoldable pub delete_key : String → CacheWithTtl V → CacheWithTtl V
  delete_key key c = record c { entries = delete String_discrete key c.entries }

  -- `Get`: an expired item is deleted.
  unfoldable pub get : Time → String → CacheWithTtl V → CacheWithTtl V × Option V
  unfolding delete_key
  get now key c = elim (lookup String_discrete key c.entries) [
    | none ↦ (c, none)
    | some item ↦ if is_expired now item then (delete_key key c, none) else (c, some item.value)
  ]

  -- `Set`
  unfoldable pub set : Time → String → V → ℕ → CacheWithTtl V → CacheWithTtl V
  set now key value ttl c = record c {
    entries =
        insert String_discrete key (record { value = value; expires_at = now + ttl }) c.entries;
  }

  -- `Size`
  abbrev pub size : CacheWithTtl V → ℕ
  size c = length c.entries

  -- `Close`: a second call does nothing.
  unfoldable pub close : CacheWithTtl V → Result (CacheWithTtl V)
  close c =
      if c.started
      then (if c.stopped
          then panic closed_channel
          else ok (record c { started = false; stopped = true }))
      else ok c

  -- The loop of `removeExpired` over the entries that it visits.
  unfoldable pub remove_visited :
      Time → List (String × CacheItem V) → GoMap String (CacheItem V) → GoMap String (CacheItem V)
  remove_visited now [] m = m
  remove_visited now ((key, item) ∷ visited) m =
      remove_visited now visited (if is_expired now item then delete String_discrete key m else m)

  -- `removeExpired`
  unfoldable pub remove_expired :
      Time → List (String × CacheItem V) → CacheWithTtl V → CacheWithTtl V
  unfolding remove_visited
  remove_expired now visited c = record c { entries = remove_visited now visited c.entries }

  -- What is read of a map at a time.
  abbrev live : Time → Option (CacheItem V) → Option V
  live now none = none
  live now (some item) = if is_expired now item then none else some item.value

  -- The visited entries are entries of the map.
  abbrev pub AreEntries : List (String × CacheItem V) → GoMap String (CacheItem V) → Type 0
  AreEntries [] m = Unit
  AreEntries ((key, item) ∷ visited) m =
      (lookup String_discrete key m ≡ some item) × AreEntries visited m

  get-live :
      (now : Time) (key : String) (c : CacheWithTtl V)
      → (get now key c).1 ≡ live now (lookup String_discrete key c.entries)
  unfolding get
  get-live now key c = ground arith

  remove_visited-live :
      (now later : Time) (visited : List (String × CacheItem V))
      (m all : GoMap String (CacheItem V)) (key : String)
      → now ≤ later
      → AreEntries visited all
      → live later (lookup String_discrete key m) ≡ live later (lookup String_discrete key all)
      → live later (lookup String_discrete key (remove_visited now visited m))
        ≡ live later (lookup String_discrete key all)
  unfolding remove_visited
  remove_visited-live now later [] m all key h es e = e
  remove_visited-live now later ((j, item) ∷ visited) m all key h es e =
      let gone = lookup-delete String_discrete j key m in
      remove_visited-live now later visited _ all key h es.1
        (elim (Bool-cases (is_expired now item)) [
          | inr f ↦ ground (arith, f, e)
          | inl f ↦ elim (String_discrete j key) [
            | yes p ↦ ground (arith, f, p, es.0, gone)
            | no p ↦ ground (arith, f, p, e, gone)
          ]
        ])

  -- `removeExpired` takes nothing away that could still be read: whatever entries it visits, in any
  -- order, every read from its time on answers what it would have answered without it.
  pub get-remove_expired :
      (now later : Time) (visited : List (String × CacheItem V)) (c : CacheWithTtl V) (key : String)
      → now ≤ later
      → AreEntries visited c.entries
      → (get later key (remove_expired now visited c)).1 ≡ (get later key c).1
  unfolding remove_expired
  get-remove_expired now later visited c key h es =
      get-live later key (remove_expired now visited c)
      ∙ (remove_visited-live now later visited c.entries c.entries key h es refl
          ∙ sym (get-live later key c))
