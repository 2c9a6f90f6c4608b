-- ===== src/Lru/Index.antt =====
-- The first node of a list of nodes under a key, and the entries that the nodes hold.
use ryan_cache.Prelude.{
  ◌≡◌, refl, sym, ap, subst, ◌≢◌, ite, if_pos, if_neg, String, String_discrete, Option, none, some,
  List, [], ◌∷◌, ◌++◌, map, arith, Fresh, Distinct,
}
use ryan_cache.GoMap.{keys, lookup, delete, delete-eq_of_Fresh}
use ryan_cache.Lru.Heap.Defs.{Ptr, update}
use ryan_cache.Lru.Heap.Chain.{update_self, update_ne}

unfoldable pub find : (Ptr → String) → String → List Ptr → Option Ptr
find key k [] = none
find key k (x ∷ xs) = ite (String_discrete (key x) k) (some x) (find key k xs)

abbrev pub entries : (Ptr → String) → (Ptr → String) → List Ptr → List (String × String)
entries key value = map (λ p. (key p, value p))

module _ (key value : Ptr → String) where
  pub entries-append :
      (ys zs : List Ptr)
      → entries key value (ys ++ zs) ≡ entries key value ys ++ entries key value zs
  entries-append [] zs = refl
  entries-append (y ∷ ys) zs = ap (◌∷◌ (key y, value y)) (entries-append ys zs)

  pub keys-entries : (xs : List Ptr) → keys (entries key value xs) ≡ map key xs
  keys-entries [] = refl
  keys-entries (x ∷ xs) = ap (◌∷◌ (key x)) (keys-entries xs)

  -- A key is found among the nodes exactly when the entries have it, with the value of its node.
  pub lookup-entries :
      (k : String) (xs : List Ptr)
      → lookup String_discrete k (entries key value xs)
        ≡ (elim (find key k xs) [ none ↦ none | some p ↦ some (value p) ])
  unfolding lookup find
  lookup-entries k [] = refl
  lookup-entries k (x ∷ xs) = ground (arith, lookup-entries k xs)

module _ (key : Ptr → String) where
  -- A node that is found splits the list.
  pub find-split :
      (k : String) (xs : List Ptr) (a : Ptr)
      → find key k xs ≡ some a
      → (ys : List Ptr) × (zs : List Ptr) × (xs ≡ ys ++ a ∷ zs) × (key a ≡ k)
  unfolding find
  find-split k [] a e = cc
  find-split k (x ∷ xs) a e = elim (String_discrete (key x) k) [
    | yes p ↦ ([], xs, ground arith, ground arith)
    | no p ↦
        let (ys, zs, split, found) = find-split k xs a (ground arith) in
        (x ∷ ys, zs, ap (◌∷◌ x) split, found)
  ]

  pub find-absent : (k : String) (xs : List Ptr) → Fresh k (map key xs) → find key k xs ≡ none
  unfolding find
  find-absent k [] f = refl
  find-absent k (x ∷ xs) f = ground (arith, find-absent k xs f.1)

  key_ne :
      (k : String) (ys : List Ptr) (a : Ptr) (zs : List Ptr)
      → Fresh k (map key (ys ++ a ∷ zs))
      → key a ≢ k
  key_ne k [] a zs f = f.0
  key_ne k (y ∷ ys) a zs f = key_ne k ys a zs f.1

  -- Without the node of a key, the other keys are found as before.
  pub find-remove :
      (j : String) (ys : List Ptr) (a : Ptr) (zs : List Ptr)
      → Distinct (map key (ys ++ a ∷ zs))
      → find key j (ys ++ zs) ≡ ite (String_discrete (key a) j) none (find key j (ys ++ a ∷ zs))
  unfolding find
  find-remove j [] a zs d =
      ground (arith, λ (p : key a ≡ j). find-absent j zs (subst (λ k. Fresh k (map key zs)) p d.0))
  find-remove j (y ∷ ys) a zs d =
      ground (arith, find-remove j ys a zs d.1, key_ne (key y) ys a zs d.0)

  -- The node of a key is found wherever it stands.
  pub find_at :
      (ys : List Ptr) (a : Ptr) (zs : List Ptr)
      → Distinct (map key (ys ++ a ∷ zs))
      → find key (key a) (ys ++ a ∷ zs) ≡ some a
  unfolding find
  find_at [] a zs d = ground arith
  find_at (y ∷ ys) a zs d = ground (arith, find_at ys a zs d.1, key_ne (key y) ys a zs d.0)

  pub find-front :
      (j : String) (ys : List Ptr) (a : Ptr) (zs : List Ptr)
      → Distinct (map key (ys ++ a ∷ zs))
      → find key j (a ∷ ys ++ zs) ≡ find key j (ys ++ a ∷ zs)
  unfolding find
  find-front j ys a zs d = elim (String_discrete (key a) j) [
    | yes p ↦ rw (if_pos _ p, ← p) (sym (find_at ys a zs d))
    | no p ↦ rw (if_neg _ p, find-remove j ys a zs d, if_neg _ p) refl
  ]

  -- A write to the key of a node outside the list.
  pub find-update :
      (n : Ptr) (k' j : String) (xs : List Ptr)
      → Fresh n xs
      → find (update key n k') j xs ≡ find key j xs
  unfolding find
  find-update n k' j [] f = refl
  find-update n k' j (x ∷ xs) f =
      ground (arith, find-update n k' j xs f.1, update_ne key n k' x f.0)

module _ (key value : Ptr → String) where
  -- Without the node of a key, the entries are those without the key.
  pub entries-remove :
      (ys : List Ptr) (a : Ptr) (zs : List Ptr)
      → Distinct (map key (ys ++ a ∷ zs))
      → entries key value (ys ++ zs)
        ≡ delete String_discrete (key a) (entries key value (ys ++ a ∷ zs))
  unfolding delete
  entries-remove [] a zs d =
      rw (if_pos _ refl)
        (sym (delete-eq_of_Fresh String_discrete (key a) _ (rw (keys-entries key value zs) d.0)))
  entries-remove (y ∷ ys) a zs d =
      ground (arith, entries-remove ys a zs d.1, key_ne key (key y) ys a zs d.0)

  -- A write to the value of a node outside the list.
  pub entries-set_value :
      (n : Ptr) (v : String) (xs : List Ptr)
      → Fresh n xs
      → entries key (update value n v) xs ≡ entries key value xs
  entries-set_value n v [] f = refl
  entries-set_value n v (x ∷ xs) f =
      ground (arith, entries-set_value n v xs f.1, update_ne value n v x f.0)

  -- A write to the key of a node outside the list.
  pub entries-set_key :
      (n : Ptr) (k : String) (xs : List Ptr)
      → Fresh n xs
      → entries (update key n k) value xs ≡ entries key value xs
  entries-set_key n k [] f = refl
  entries-set_key n k (x ∷ xs) f =
      ground (arith, entries-set_key n k xs f.1, update_ne key n k x f.0)

map-Fresh-remove :
    (key : Ptr → String) (k : String) (ys : List Ptr) (a : Ptr) (zs : List Ptr)
    → Fresh k (map key (ys ++ a ∷ zs))
    → Fresh k (map key (ys ++ zs))
map-Fresh-remove key k [] a zs f = f.1
map-Fresh-remove key k (y ∷ ys) a zs f = (f.0, map-Fresh-remove key k ys a zs f.1)

pub map-Distinct-remove :
    (key : Ptr → String) (ys : List Ptr) (a : Ptr) (zs : List Ptr)
    → Distinct (map key (ys ++ a ∷ zs))
    → Distinct (map key (ys ++ zs))
map-Distinct-remove key [] a zs d = d.1
map-Distinct-remove key (y ∷ ys) a zs d =
    (map-Fresh-remove key (key y) ys a zs d.0, map-Distinct-remove key ys a zs d.1)

-- A node may move to the front.
pub map-Distinct-front :
    (key : Ptr → String) (ys : List Ptr) (a : Ptr) (zs : List Ptr)
    → Distinct (map key (ys ++ a ∷ zs))
    → Distinct (map key (a ∷ ys ++ zs))
map-Distinct-front key [] a zs d = d
map-Distinct-front key (y ∷ ys) a zs d =
    let (f, rest) = map-Distinct-front key ys a zs d.1 in
    (
      ((λ e. key_ne key (key y) ys a zs d.0 (sym e)), f),
      (map-Fresh-remove key (key y) ys a zs d.0, rest),
    )

-- A key that is not found has no node.
pub find-Fresh :
    (key : Ptr → String) (k : String) (xs : List Ptr) → find key k xs ≡ none → Fresh k (map key xs)
unfolding find
find-Fresh key k [] e = tt
find-Fresh key k (x ∷ xs) e = elim (String_discrete (key x) k) [
  | yes p ↦ absurd (ground arith)
  | no p ↦ (p, find-Fresh key k xs (ground arith))
]

pub map-update :
    (key : Ptr → String) (n : Ptr) (k : String) (xs : List Ptr)
    → Fresh n xs
    → map (update key n k) xs ≡ map key xs
map-update key n k [] f = refl
map-update key n k (x ∷ xs) f = ground (arith, map-update key n k xs f.1, update_ne key n k x f.0)

module _ (key value : Ptr → String) (n : Ptr) (k x : String) (xs : List Ptr) (f : Fresh n xs) where
  -- A new node in front is found under its key and hides nothing else.
  pub find-new :
      (j : String)
      → find (update key n k) j (n ∷ xs) ≡ ite (String_discrete k j) (some n) (find key j xs)
  unfolding find
  find-new j = rw (update_self key n k, find-update key n k j xs f)

  pub entries-new :
      entries (update key n k) (update value n x) (n ∷ xs) ≡ (k, x) ∷ entries key value xs
  entries-new = rw (
    update_self key n k,
    update_self value n x,
    entries-set_key key (update value n x) n k xs f,
    entries-set_value key value n x xs f,
  )

  pub map-new :
      Fresh k (map key xs) → Distinct (map key xs) → Distinct (map (update key n k) (n ∷ xs))
  map-new absent d = rw (update_self key n k, map-update key n k xs f) (absent, d)
