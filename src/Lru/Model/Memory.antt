-- ===== src/Lru/Model/Memory.antt =====
-- The memory of the entries under the operations on them.
use ryan_cache.Prelude.{
  ◌+◌, ◌-◌, ◌≡◌, refl, ap, subst, ◌++◌, String, String_discrete, [], ◌∷◌, some, arith, Fresh,
  Distinct, length,
}
use ryan_cache.GoMap.{GoMap, keys, lookup, delete, delete-eq_of_Fresh}
use ryan_cache.Lru.Defs.{calculate_memory_usage}
use ryan_cache.Lru.Model.{total, but_last, last_weight}

-- A deletion gives back the memory of the entry.
pub total-delete :
    (k x : String) (m : GoMap String String)
    → Distinct (keys m)
    → lookup String_discrete k m ≡ some x
    → total (delete String_discrete k m) + calculate_memory_usage k x ≡ total m
unfolding lookup delete
total-delete k x [] d e = absurd (cc)
total-delete k x ((j, y) ∷ m) d e = elim (String_discrete j k) [
  | yes p ↦
      ground (arith, delete-eq_of_Fresh String_discrete k m (subst (λ i. Fresh i (keys m)) p d.0))
  | no p ↦ ground (arith, total-delete k x m d.1)
]

-- And it leaves one entry less.
pub length-delete :
    (k x : String) (m : GoMap String String)
    → Distinct (keys m)
    → lookup String_discrete k m ≡ some x
    → length (delete String_discrete k m) + 1 ≡ length m
unfolding lookup delete
length-delete k x [] d e = absurd (cc)
length-delete k x ((j, y) ∷ m) d e = elim (String_discrete j k) [
  | yes p ↦
      ground (arith, delete-eq_of_Fresh String_discrete k m (subst (λ i. Fresh i (keys m)) p d.0))
  | no p ↦ ground (arith, length-delete k x m d.1)
]

-- The deleted key is not among those that are left.
pub delete-Fresh :
    (k : String) (m : GoMap String String) → Fresh k (keys (delete String_discrete k m))
unfolding delete
delete-Fresh k [] = tt
delete-Fresh k (e ∷ m) = ground (arith, delete-Fresh k m)

-- The entries without the last one.
pub total-but_last : (m : GoMap String String) → total (but_last m) + last_weight m ≡ total m
unfolding but_last last_weight
total-but_last [] = refl
total-but_last (e ∷ []) = omega arith
total-but_last (e ∷ f ∷ m) = omega (arith, total-but_last (f ∷ m))

pub length-but_last : (m : GoMap String String) → length (but_last m) ≡ length m - 1
unfolding but_last
length-but_last [] = omega arith
length-but_last (e ∷ []) = omega arith
length-but_last (e ∷ f ∷ m) = omega (arith, length-but_last (f ∷ m))

pub but_last-Fresh :
    (k : String) (m : GoMap String String) → Fresh k (keys m) → Fresh k (keys (but_last m))
unfolding but_last
but_last-Fresh k [] f = tt
but_last-Fresh k (e ∷ []) f = tt
but_last-Fresh k (e ∷ f ∷ m) h = (h.0, but_last-Fresh k (f ∷ m) h.1)

pub but_last-Distinct : (m : GoMap String String) → Distinct (keys m) → Distinct (keys (but_last m))
unfolding but_last
but_last-Distinct [] d = tt
but_last-Distinct (e ∷ []) d = tt
but_last-Distinct (e ∷ f ∷ m) d = (but_last-Fresh e.0 (f ∷ m) d.0, but_last-Distinct (f ∷ m) d.1)

-- The entries before a last one, and the weight of that one.
pub but_last-append : (m : GoMap String String) (e : String × String) → but_last (m ++ e ∷ []) ≡ m
unfolding but_last
but_last-append [] e = refl
but_last-append (d ∷ []) e = refl
but_last-append (d ∷ f ∷ m) e = ap (◌∷◌ d) (but_last-append (f ∷ m) e)

pub last_weight-append :
    (m : GoMap String String) (e : String × String)
    → last_weight (m ++ e ∷ []) ≡ calculate_memory_usage e.0 e.1
unfolding last_weight
last_weight-append [] e = refl
last_weight-append (d ∷ []) e = refl
last_weight-append (d ∷ f ∷ m) e = last_weight-append (f ∷ m) e
