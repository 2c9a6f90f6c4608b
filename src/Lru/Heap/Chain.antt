-- ===== src/Lru/Heap/Chain.antt =====
-- The list that the pointers spell, and what the assignments of core/lrucache.go do to it.
use ryan_cache.Prelude.{◌≡◌, sym, ◌≢◌, List, [], ◌∷◌, ◌++◌, arith, Fresh, Distinct, All-split}
use ryan_cache.Lru.Heap.Defs.{Ptr, update}

-- From `p` the `next` pointers lead through `xs` to `q`, and the `prev` pointers lead back.
abbrev pub Linked : (Ptr → Ptr) → (Ptr → Ptr) → Ptr → List Ptr → Ptr → Type 0
Linked nx pv p [] q = (nx p ≡ q) × (pv q ≡ p)
Linked nx pv p (x ∷ xs) q = (nx p ≡ x) × (pv x ≡ p) × Linked nx pv x xs q

module _ {ℓ} {A : Type ℓ} (f : Ptr → A) (p : Ptr) (a : A) where
  pub update_self : update f p a p ≡ a
  unfolding update
  update_self = ground arith

  pub update_ne : (q : Ptr) → q ≢ p → update f p a q ≡ f q
  unfolding update
  update_ne q h = ground arith

module _ (nx pv : Ptr → Ptr) (b v : Ptr) where
  -- An assignment to `next` of a node outside the list.
  pub Linked-set_next :
      (p : Ptr) (xs : List Ptr) (q : Ptr)
      → p ≢ b
      → Fresh b xs
      → Linked nx pv p xs q
      → Linked (update nx b v) pv p xs q
  Linked-set_next p [] q n f l = ground (arith, update_ne nx b v p)
  Linked-set_next p (x ∷ xs) q n f l =
      (ground (arith, update_ne nx b v p), l.1, Linked-set_next x xs q f.0 f.1 l.2)

  pub Linked-set_prev :
      (p : Ptr) (xs : List Ptr) (q : Ptr)
      → q ≢ b
      → Fresh b xs
      → Linked nx pv p xs q
      → Linked nx (update pv b v) p xs q
  Linked-set_prev p [] q n f l = ground (arith, update_ne pv b v q)
  Linked-set_prev p (x ∷ xs) q n f l =
      (l.0, ground (arith, update_ne pv b v x), Linked-set_prev x xs q n f.1 l.2)

-- The node behind `p`, and the node before `q`.
abbrev pub first : List Ptr → Ptr → Ptr
first [] q = q
first (x ∷ xs) q = x

abbrev pub last : Ptr → List Ptr → Ptr
last p [] = p
last p (x ∷ xs) = last x xs

module _ (nx pv : Ptr → Ptr) where
  pub Linked-first : (p : Ptr) (xs : List Ptr) (q : Ptr) → Linked nx pv p xs q → nx p ≡ first xs q
  Linked-first p [] q l = l.0
  Linked-first p (x ∷ xs) q l = l.0

  pub Linked-last : (p : Ptr) (xs : List Ptr) (q : Ptr) → Linked nx pv p xs q → pv q ≡ last p xs
  Linked-last p [] q l = l.1
  Linked-last p (x ∷ xs) q l = Linked-last x xs q l.2

  pub Linked-at :
      (p : Ptr) (ys : List Ptr) (a : Ptr) (zs : List Ptr) (q : Ptr)
      → Linked nx pv p (ys ++ a ∷ zs) q
      → (pv a ≡ last p ys) × (nx a ≡ first zs q)
  Linked-at p [] a zs q l = (l.1, Linked-first a zs q l.2)
  Linked-at p (y ∷ ys) a zs q l = Linked-at y ys a zs q l.2

pub first_ne : (xs : List Ptr) (q b : Ptr) → Fresh b xs → q ≢ b → first xs q ≢ b
first_ne [] q b f n = n
first_ne (x ∷ xs) q b f n = f.0

pub last_ne : (p : Ptr) (xs : List Ptr) (b : Ptr) → p ≢ b → Fresh b xs → last p xs ≢ b
last_ne p [] b n f = n
last_ne p (x ∷ xs) b n f = last_ne x xs b f.0 f.1

module _ (nx pv : Ptr → Ptr) (p n q b v : Ptr) where
  -- The start of a list moves from `p` to `n` by an assignment to `next` outside the rest of the
  -- list, when `n` then points to the first node and that node is made to point back to `n`.
  pub Linked-restart :
      (xs : List Ptr)
      → update nx b v n ≡ first xs q
      → Fresh b xs
      → Distinct (q ∷ xs)
      → Linked nx pv p xs q
      → Linked (update nx b v) (update pv (first xs q) n) n xs q
  Linked-restart [] e f d l = (e, update_self pv q n)
  Linked-restart (x ∷ xs) e f d l = (
    e,
    update_self pv x n,
    Linked-set_next nx (update pv x n) b v x xs q f.0 f.1
        (Linked-set_prev nx pv x n x xs q (λ i. d.0.0 (sym i)) d.1.0 l.2),
  )

module _ (nx pv : Ptr → Ptr) (a : Ptr) (zs : List Ptr) (q : Ptr) where
  -- A node is taken out when the nodes around it are joined.
  pub Linked-remove :
      (p : Ptr) (ys : List Ptr)
      → Distinct (p ∷ q ∷ ys ++ a ∷ zs)
      → Linked nx pv p (ys ++ a ∷ zs) q
      → Linked
          (update nx (last p ys) (first zs q))
          (update pv (first zs q) (last p ys))
          p
          (ys ++ zs)
          q
  Linked-remove p [] d l =
      Linked-restart nx pv a p q p (first zs q) zs (update_self nx p (first zs q)) d.0.1.1
        (d.1.0.1, d.1.1.1) l.2
  Linked-remove p (y ∷ ys) d l =
      let (g, f) = All-split (λ x. x ≢ y) ys (a ∷ zs) d.1.1.0 in
      (
        ground (arith, update_ne nx (last y ys) (first zs q) p, last_ne y ys p d.0.1.0 before),
        ground (arith, update_ne pv (first zs q) (last y ys) y, first_ne zs q y f.1 apart),
        Linked-remove y ys ((apart, d.1.1.0), (d.1.0.1, d.1.1.1)) l.2,
      )
    where
      before : Fresh p ys
      before = (All-split (λ x. x ≢ p) ys (a ∷ zs) d.0.1.1).0

      apart : q ≢ y
      apart e = d.1.0.0 (sym e)
