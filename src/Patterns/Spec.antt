-- ===== src/Patterns/Spec.antt =====
-- What a cache of tutorial/02-patterns promises: it answers every history of calls as one map from
-- keys to values does. `Other` are the calls that only one of the caches has.
use ryan_cache.Prelude.{
  ◌≡◌, refl, ap, ◌∙◌, String, String_discrete, List, [], ◌∷◌, Option, none, some, ite,
}

pub data Call (Other : Type 0) : Type 0 where
  gets : String → Call Other
  sets : String → String → Call Other
  deletes : String → Call Other
  other : Other → Call Other

pub data Answer : Type 0 where
  value : String → Answer
  missing done refused : Answer

-- The map behind a cache.
abbrev pub Plain : Type 0
Plain = String → Option String

-- The map with another entry at a key, or with none.
unfoldable pub put : String → Option String → Plain → Plain
put k o m j = ite (String_discrete k j) o (m j)

-- What `Get` returns: the value, or the error that there is none.
abbrev pub answer_of : Option String → Answer
answer_of none = missing
answer_of (some v) = value v

module _ {Other : Type 0} (effect : Other → Plain → Plain × Answer) where
  unfoldable pub expect : Call Other → Plain → Plain × Answer
  expect (gets k) m = (m, answer_of (m k))
  expect (sets k v) m = (put k (some v) m, done)
  expect (deletes k) m = (put k none m, done)
  expect (other o) m = effect o m

  unfoldable pub expect_all : List (Call Other) → Plain → Plain × List Answer
  expect_all [] m = (m, [])
  expect_all (c ∷ calls) m =
      let (m1, a) = expect c m in let (m2, answers) = expect_all calls m1 in (m2, a ∷ answers)

  module _ {S : Type 0} (step : Call Other → S → S × Answer) where
    unfoldable pub run : List (Call Other) → S → S × List Answer
    run [] s = (s, [])
    run (c ∷ calls) s =
        let (s1, a) = step c s in let (s2, answers) = run calls s1 in (s2, a ∷ answers)

    -- What a cache gives to promise this: the map that it stands for, and the states in which it does.
    pub record Implements : Type 1 where
      pub view : S → Plain
      pub IsValid : S → Type 0
      pub keeps : (c : Call Other) (s : S) → IsValid s → IsValid (step c s).0
      pub answers : (c : Call Other) (s : S) → IsValid s → (step c s).1 ≡ (expect c (view s)).1
      pub shows : (c : Call Other) (s : S) → IsValid s → view (step c s).0 ≡ (expect c (view s)).0

    pub history :
        (imp : Implements) (calls : List (Call Other)) (s : S)
        → imp.IsValid s
        → ((run calls s).1 ≡ (expect_all calls (imp.view s)).1)
          × (imp.view (run calls s).0 ≡ (expect_all calls (imp.view s)).0)
          × imp.IsValid (run calls s).0
    unfolding expect_all run
    history imp [] s w = (refl, refl, w)
    history imp (c ∷ calls) s w =
        let (answered, shown, valid) = history imp calls (step c s).0 (imp.keeps c s w) in
        let now = imp.shows c s w in
        (cc (imp.answers c s w, answered, now), shown ∙ ap (λ m. (expect_all calls m).0) now, valid)
