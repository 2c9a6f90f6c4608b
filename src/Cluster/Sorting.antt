-- ===== src/Cluster/Sorting.antt =====
-- `slices.Sort` as core/distributed_cache.go calls it, and lists in ascending order.
use ryan_cache.Prelude.{
  ℕ, zero, suc, ◌≤◌, ◌<◌, ◌≡◌, refl, ◌⊎◌, subst, inl, inr, List, [], ◌∷◌, ◌++◌, arith, leb, leb→le,
  Bool-cases, if◌then◌else◌, length, All, All-map,
}

-- `a` is an element.
abbrev pub In : ℕ → List ℕ → Type 0
In a [] = ⊥
In a (x ∷ xs) = (x ≡ a) ⊎ In a xs

abbrev pub IsSorted : List ℕ → Type 0
IsSorted [] = Unit
IsSorted (x ∷ xs) = All (λ y. x ≤ y) xs × IsSorted xs

-- Sorting, by insertion.
unfoldable pub sorted_insert : ℕ → List ℕ → List ℕ
sorted_insert a [] = a ∷ []
sorted_insert a (x ∷ xs) = if leb a x then a ∷ x ∷ xs else x ∷ sorted_insert a xs

unfoldable pub sort : List ℕ → List ℕ
unfolding sorted_insert
sort [] = []
sort (x ∷ xs) = sorted_insert x (sort xs)

All-sorted_insert {κ} :
    (P : ℕ → Type κ) (a : ℕ) (xs : List ℕ) → P a → All P xs → All P (sorted_insert a xs)
unfolding sorted_insert
All-sorted_insert P a [] p h = (p, tt)
All-sorted_insert P a (x ∷ xs) p h = elim (Bool-cases (leb a x)) [
  | inl e ↦ rw e (p, h)
  | inr e ↦ rw e (h.0, All-sorted_insert P a xs p h.1)
]

sorted_insert-IsSorted : (a : ℕ) (xs : List ℕ) → IsSorted xs → IsSorted (sorted_insert a xs)
unfolding sorted_insert
sorted_insert-IsSorted a [] s = (tt, tt)
sorted_insert-IsSorted a (x ∷ xs) s = elim (Bool-cases (leb a x)) [
  | inl e ↦ rw e ((leb→le a x e, All-map (λ y. x ≤ y) (λ y. a ≤ y) (λ y h. ground arith) xs s.0), s)
  | inr e ↦
      rw e (All-sorted_insert (λ y. x ≤ y) a xs (ground arith) s.0, sorted_insert-IsSorted a xs s.1)
]

pub sort-IsSorted : (xs : List ℕ) → IsSorted (sort xs)
unfolding sort
sort-IsSorted [] = tt
sort-IsSorted (x ∷ xs) = sorted_insert-IsSorted x (sort xs) (sort-IsSorted xs)

-- Sorting keeps the elements.
sorted_insert-In : (b a : ℕ) (xs : List ℕ) → In b (sorted_insert a xs) → (a ≡ b) ⊎ In b xs
unfolding sorted_insert
sorted_insert-In b a [] i = i
sorted_insert-In b a (x ∷ xs) i = elim (Bool-cases (leb a x)) [
  | inl e ↦ subst (λ t. In b (if t then a ∷ x ∷ xs else x ∷ sorted_insert a xs)) e i
  | inr e ↦
      later (sorted_insert-In b a xs)
        (subst (λ t. In b (if t then a ∷ x ∷ xs else x ∷ sorted_insert a xs)) e i)
]
  where
    later :
        (In b (sorted_insert a xs) → (a ≡ b) ⊎ In b xs)
        → In b (x ∷ sorted_insert a xs)
        → (a ≡ b) ⊎ In b (x ∷ xs)
    later ih (inl p) = inr (inl p)
    later ih (inr j) = elim (ih j) [ inl p ↦ inl p | inr k ↦ inr (inr k) ]

In-sorted_insert_new : (a : ℕ) (xs : List ℕ) → In a (sorted_insert a xs)
unfolding sorted_insert
In-sorted_insert_new a [] = inl refl
In-sorted_insert_new a (x ∷ xs) = elim (Bool-cases (leb a x)) [
  | inl e ↦ rw e (inl refl)
  | inr e ↦ rw e (inr (In-sorted_insert_new a xs))
]

In-sorted_insert : (b a : ℕ) (xs : List ℕ) → In b xs → In b (sorted_insert a xs)
unfolding sorted_insert
In-sorted_insert b a [] i = absurd i
In-sorted_insert b a (x ∷ xs) (inl p) = elim (Bool-cases (leb a x)) [
  | inl e ↦ rw e (inr (inl p))
  | inr e ↦ rw e (inl p)
]
In-sorted_insert b a (x ∷ xs) (inr j) = elim (Bool-cases (leb a x)) [
  | inl e ↦ rw e (inr (inr j))
  | inr e ↦ rw e (inr (In-sorted_insert b a xs j))
]

pub In-sort : (b : ℕ) (xs : List ℕ) → In b (sort xs) → In b xs
unfolding sort
In-sort b [] i = i
In-sort b (x ∷ xs) i = elim (sorted_insert-In b x (sort xs) i) [
  | inl e ↦ inl e
  | inr j ↦ inr (In-sort b xs j)
]

pub sort-In : (b : ℕ) (xs : List ℕ) → In b xs → In b (sort xs)
unfolding sort
sort-In b [] i = i
sort-In b (x ∷ xs) (inl e) =
    subst (λ y. In y (sorted_insert x (sort xs))) e (In-sorted_insert_new x (sort xs))
sort-In b (x ∷ xs) (inr j) = In-sorted_insert b x (sort xs) (sort-In b xs j)

pub In-append : (b : ℕ) (xs ys : List ℕ) → In b (xs ++ ys) → In b xs ⊎ In b ys
In-append b [] ys i = inr i
In-append b (x ∷ xs) ys (inl e) = inl (inl e)
In-append b (x ∷ xs) ys (inr i) = elim (In-append b xs ys i) [ inl j ↦ inl (inr j) | inr j ↦ inr j ]

pub append-In_right : (b : ℕ) (xs ys : List ℕ) → In b ys → In b (xs ++ ys)
append-In_right b [] ys i = i
append-In_right b (x ∷ xs) ys i = inr (append-In_right b xs ys i)

pub append-In_left : (b : ℕ) (xs ys : List ℕ) → In b xs → In b (xs ++ ys)
append-In_left b [] ys i = absurd i
append-In_left b (x ∷ xs) ys (inl e) = inl e
append-In_left b (x ∷ xs) ys (inr i) = inr (append-In_left b xs ys i)

-- The element at an index, 0 out of range.
abbrev pub get_or : List ℕ → ℕ → ℕ → ℕ
get_or [] i d = d
get_or (x ∷ xs) zero d = x
get_or (x ∷ xs) (suc i) d = get_or xs i d

pub In-get_or : (xs : List ℕ) (i : ℕ) → i < length xs → In (get_or xs i 0) xs
In-get_or [] i h = absurd (omega arith)
In-get_or (x ∷ xs) zero h = inl refl
In-get_or (x ∷ xs) (suc i) h = inr (In-get_or xs i (omega arith))

pub index-In : (b : ℕ) (xs : List ℕ) → In b xs → (i : ℕ) × (i < length xs) × (get_or xs i 0 ≡ b)
index-In b [] i = absurd i
index-In b (x ∷ xs) (inl e) = (0, omega arith, e)
index-In b (x ∷ xs) (inr j) = let (i, h, e) = index-In b xs j in (suc i, omega arith, e)

All-get_or {κ} :
    (P : ℕ → Type κ) (xs : List ℕ) (i : ℕ) → All P xs → i < length xs → P (get_or xs i 0)
All-get_or P [] i a h = absurd (omega arith)
All-get_or P (x ∷ xs) zero a h = a.0
All-get_or P (x ∷ xs) (suc i) a h = All-get_or P xs i a.1 (omega arith)

-- In a sorted list a later index holds no smaller element.
pub get_or_mono :
    (xs : List ℕ) (i j : ℕ) → IsSorted xs → i ≤ j → j < length xs → get_or xs i 0 ≤ get_or xs j 0
get_or_mono [] i j s le h = absurd (omega arith)
get_or_mono (x ∷ xs) zero zero s le h = omega arith
get_or_mono (x ∷ xs) zero (suc j) s le h = All-get_or (λ y. x ≤ y) xs j s.0 (omega arith)
get_or_mono (x ∷ xs) (suc i) zero s le h = absurd (omega arith)
get_or_mono (x ∷ xs) (suc i) (suc j) s le h = get_or_mono xs i j s.1 (omega arith) (omega arith)
