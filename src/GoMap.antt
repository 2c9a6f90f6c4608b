-- ===== src/GoMap.antt =====
-- Go's maps, as association lists over keys with a decidable equality: `m[k]`, `m[k] = v`,
-- `delete(m, k)` and `len(m)`. The code's `range` over a map visits the entries in any order; where
-- that order matters, the operation takes the list of visited entries as an argument.
use ryan_cache.Prelude.{
  ◌≡◌, ◌≢◌, sym, subst, if_pos, if_neg, All, Distinct, refl, ite, Option, none, some, List, [], ◌∷◌,
  map, arith, Fresh,
}

abbrev pub GoMap {ℓ} : Type ℓ → Type ℓ → Type ℓ
GoMap K V = List (K × V)

module _ {ℓ} {K V : Type ℓ} where
  abbrev pub keys : GoMap K V → List K
  keys = map (λ e. e.0)

module _ {ℓ} {K V : Type ℓ} (dec : Discrete K) where
  unfoldable pub lookup : K → GoMap K V → Option V
  lookup k [] = none
  lookup k ((j, v) ∷ m) = ite (dec j k) (some v) (lookup k m)

  -- `m[k] = v`
  unfoldable pub insert : K → V → GoMap K V → GoMap K V
  insert k v [] = (k, v) ∷ []
  insert k v ((j, w) ∷ m) = ite (dec j k) ((k, v) ∷ m) ((j, w) ∷ insert k v m)

  -- `delete(m, k)`
  unfoldable pub delete : K → GoMap K V → GoMap K V
  delete k [] = []
  delete k ((j, w) ∷ m) = ite (dec j k) (delete k m) ((j, w) ∷ delete k m)

  pub lookup-insert :
      (k j : K) (v : V) (m : GoMap K V)
      → lookup j (insert k v m) ≡ ite (dec k j) (some v) (lookup j m)
  unfolding lookup insert
  lookup-insert k j v [] = refl
  lookup-insert k j v (e ∷ m) = ground (arith, lookup-insert k j v m)

  pub lookup-delete :
      (k j : K) (m : GoMap K V) → lookup j (delete k m) ≡ ite (dec k j) none (lookup j m)
  unfolding lookup delete
  lookup-delete k j [] = ground arith
  lookup-delete k j (e ∷ m) = ground (arith, lookup-delete k j m)

  pub lookup-Fresh : (k : K) (m : GoMap K V) → Fresh k (keys m) → lookup k m ≡ none
  unfolding lookup
  lookup-Fresh k [] h = refl
  lookup-Fresh k (e ∷ m) h = ground (arith, lookup-Fresh k m h.1)

  pub delete-eq_of_Fresh : (k : K) (m : GoMap K V) → Fresh k (keys m) → delete k m ≡ m
  unfolding delete
  delete-eq_of_Fresh k [] h = refl
  delete-eq_of_Fresh k (e ∷ m) h = ground (arith, delete-eq_of_Fresh k m h.1)

  pub Fresh-lookup : (k : K) (m : GoMap K V) → lookup k m ≡ none → Fresh k (keys m)
  unfolding lookup
  Fresh-lookup k [] e = tt
  Fresh-lookup k (d ∷ m) e = elim (dec d.0 k) [
    | yes p ↦ absurd (ground arith)
    | no p ↦ (p, Fresh-lookup k m (ground arith))
  ]

  -- Insertion and deletion keep the keys distinct.
  Fresh-insert :
      (j k : K) (v : V) (m : GoMap K V) → k ≢ j → Fresh j (keys m) → Fresh j (keys (insert k v m))
  unfolding insert
  Fresh-insert j k v [] ne f = (ne, tt)
  Fresh-insert j k v ((i, w) ∷ m) ne f = elim (dec i k) [
    | yes p ↦ rw (if_pos _ p) (ne, f.1)
    | no p ↦ rw (if_neg _ p) (f.0, Fresh-insert j k v m ne f.1)
  ]

  pub insert-Distinct :
      (k : K) (v : V) (m : GoMap K V) → Distinct (keys m) → Distinct (keys (insert k v m))
  unfolding insert
  insert-Distinct k v [] d = (tt, tt)
  insert-Distinct k v ((i, w) ∷ m) d = elim (dec i k) [
    | yes p ↦ rw (if_pos _ p) (subst (λ x. Fresh x (keys m)) p d.0, d.1)
    | no p ↦ rw (if_neg _ p) (Fresh-insert i k v m (λ e. p (sym e)) d.0, insert-Distinct k v m d.1)
  ]

  All-delete {κ} :
      (P : K → Type κ) (k : K) (m : GoMap K V) → All P (keys m) → All P (keys (delete k m))
  unfolding delete
  All-delete P k [] a = tt
  All-delete P k ((i, w) ∷ m) a = elim (dec i k) [
    | yes p ↦ rw (if_pos _ p) (All-delete P k m a.1)
    | no p ↦ rw (if_neg _ p) (a.0, All-delete P k m a.1)
  ]

  pub delete-Distinct : (k : K) (m : GoMap K V) → Distinct (keys m) → Distinct (keys (delete k m))
  unfolding delete
  delete-Distinct k [] d = tt
  delete-Distinct k ((i, w) ∷ m) d = elim (dec i k) [
    | yes p ↦ rw (if_pos _ p) (delete-Distinct k m d.1)
    | no p ↦ rw (if_neg _ p) (All-delete (λ x. x ≢ i) k m d.0, delete-Distinct k m d.1)
  ]
