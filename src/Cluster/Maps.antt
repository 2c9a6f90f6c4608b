-- ===== src/Cluster/Maps.antt =====
-- What the loops of core/distributed_cache.go over the ring leave in the map and in the list.
use ryan_cache.Prelude.{
  ℕ, String, String_discrete, ℕ_discrete, ◌≤◌, ◌≡◌, ◌≢◌, refl, ap, ◌∙◌, subst, ◌⊎◌, inl, inr,
  Option, none, some, List, [], ◌∷◌, arith, All, Fresh, Distinct, if_pos, if_neg,
}
use ryan_cache.GoMap.{
  GoMap, keys, lookup, insert, delete, lookup-insert, lookup-delete, delete-Distinct,
}
use ryan_cache.Cluster.Sorting.{In, IsSorted}
use ryan_cache.Cluster.Defs.{node_or_empty, keep_hashes, hashes_of, delete_hashes}

abbrev Ring : Type 0
Ring = GoMap ℕ String

abbrev pub at : ℕ → Ring → Option String
at h ring = lookup ℕ_discrete h ring

pub delete_hashes-Distinct :
    (hs : List ℕ) (ring : Ring) → Distinct (keys ring) → Distinct (keys (delete_hashes hs ring))
unfolding delete_hashes
delete_hashes-Distinct [] ring d = d
delete_hashes-Distinct (h ∷ hs) ring d =
    delete_hashes-Distinct hs (delete ℕ_discrete h ring) (delete-Distinct ℕ_discrete h ring d)

pub at-insert_same : (h : ℕ) (n : String) (ring : Ring) → at h (insert ℕ_discrete h n ring) ≡ some n
at-insert_same h n ring = ground (arith, lookup-insert ℕ_discrete h h n ring)

pub at-insert_other :
    (h k : ℕ) (n : String) (ring : Ring) → h ≢ k → at k (insert ℕ_discrete h n ring) ≡ at k ring
at-insert_other h k n ring ne = ground (arith, lookup-insert ℕ_discrete h k n ring)

at-delete_same : (x h : ℕ) (ring : Ring) → x ≡ h → at h (delete ℕ_discrete x ring) ≡ none
at-delete_same x h ring e = ground (arith, lookup-delete ℕ_discrete x h ring)

at-delete_other : (x h : ℕ) (ring : Ring) → x ≢ h → at h (delete ℕ_discrete x ring) ≡ at h ring
at-delete_other x h ring ne = ground (arith, lookup-delete ℕ_discrete x h ring)

at_here : (h j : ℕ) (n : String) (ring : Ring) → j ≡ h → at h ((j, n) ∷ ring) ≡ some n
unfolding lookup
at_here h j n ring e = ground arith

at_later : (h j : ℕ) (n : String) (ring : Ring) → j ≢ h → at h ((j, n) ∷ ring) ≡ at h ring
unfolding lookup
at_later h j n ring ne = ground arith

-- A hash is in a list or not.
pub In-cases : (h : ℕ) (hs : List ℕ) → In h hs ⊎ Fresh h hs
In-cases h [] = inr tt
In-cases h (x ∷ hs) = elim (ℕ_discrete x h) [
  | yes p ↦ inl (inl p)
  | no p ↦ elim (In-cases h hs) [ inl i ↦ inl (inr i) | inr f ↦ inr (p, f) ]
]

at-delete_hashes-none :
    (h : ℕ) (hs : List ℕ) (ring : Ring) → at h ring ≡ none → at h (delete_hashes hs ring) ≡ none
unfolding delete_hashes
at-delete_hashes-none h [] ring e = e
at-delete_hashes-none h (x ∷ hs) ring e =
    at-delete_hashes-none h hs (delete ℕ_discrete x ring)
      (ground (arith, lookup-delete ℕ_discrete x h ring))

at-delete_hashes-In :
    (h : ℕ) (hs : List ℕ) (ring : Ring) → In h hs → at h (delete_hashes hs ring) ≡ none
unfolding delete_hashes
at-delete_hashes-In h [] ring i = absurd i
at-delete_hashes-In h (x ∷ hs) ring (inl e) =
    at-delete_hashes-none h hs (delete ℕ_discrete x ring) (at-delete_same x h ring e)
at-delete_hashes-In h (x ∷ hs) ring (inr i) = at-delete_hashes-In h hs (delete ℕ_discrete x ring) i

at-delete_hashes-Fresh :
    (h : ℕ) (hs : List ℕ) (ring : Ring) → Fresh h hs → at h (delete_hashes hs ring) ≡ at h ring
unfolding delete_hashes
at-delete_hashes-Fresh h [] ring f = refl
at-delete_hashes-Fresh h (x ∷ hs) ring f =
    at-delete_hashes-Fresh h hs (delete ℕ_discrete x ring) f.1 ∙ at-delete_other x h ring f.0

In-Fresh : (h : ℕ) (hs : List ℕ) → In h hs → Fresh h hs → ⊥
In-Fresh h [] i f = i
In-Fresh h (x ∷ hs) (inl e) f = f.0 e
In-Fresh h (x ∷ hs) (inr i) f = In-Fresh h hs i f.1

In-hashes_of :
    (node : String) (h : ℕ) (ring : Ring) → at h ring ≡ some node → In h (hashes_of node ring)
unfolding hashes_of lookup
In-hashes_of node h [] e = absurd (cc e)
In-hashes_of node h ((j, n) ∷ ring) e = elim (ℕ_discrete j h) [
  | yes p ↦ elim (String_discrete n node) [
    | yes q ↦ rw (if_pos _ q) (inl p)
    | no q ↦ absurd (ground arith)
  ]
  | no p ↦ elim (String_discrete n node) [
    | yes q ↦ rw (if_pos _ q) (inr (In-hashes_of node h ring (ground arith)))
    | no q ↦ rw (if_neg _ q) (In-hashes_of node h ring (ground arith))
  ]
]

hashes_of-keys {κ} :
    (P : ℕ → Type κ) (node : String) (ring : Ring) → All P (keys ring) → All P (hashes_of node ring)
unfolding hashes_of
hashes_of-keys P node [] a = tt
hashes_of-keys P node ((j, n) ∷ ring) a = elim (String_discrete n node) [
  | yes q ↦ rw (if_pos _ q) (a.0, hashes_of-keys P node ring a.1)
  | no q ↦ rw (if_neg _ q) (hashes_of-keys P node ring a.1)
]

-- With distinct keys, a hash of another node is not among the hashes of `node`.
hashes_of-Fresh :
    (node : String) (h : ℕ) (ring : Ring)
    → Distinct (keys ring)
    → at h ring ≢ some node
    → Fresh h (hashes_of node ring)
unfolding hashes_of lookup
hashes_of-Fresh node h [] d ne = tt
hashes_of-Fresh node h ((j, n) ∷ ring) d ne = elim (ℕ_discrete j h) [
  | yes p ↦ elim (String_discrete n node) [
    | yes q ↦ absurd (ne (at_here h j n ring p ∙ ap some q))
    | no q ↦
        rw (if_neg _ q)
          (hashes_of-keys (λ x. x ≢ h) node ring (subst (λ k. Fresh k (keys ring)) p d.0))
  ]
  | no p ↦ elim (String_discrete n node) [
    | yes q ↦
        rw (if_pos _ q) (p, hashes_of-Fresh node h ring d.1 (λ e. ne (at_later h j n ring p ∙ e)))
    | no q ↦ rw (if_neg _ q) (hashes_of-Fresh node h ring d.1 (λ e. ne (at_later h j n ring p ∙ e)))
  ]
]

option_dec : (node : String) (o : Option String) → Dec (o ≡ some node)
option_dec node none = no (λ e. cc e)
option_dec node (some n) = elim (String_discrete n node) [
  | yes e ↦ yes (ap some e)
  | no ne ↦ no (λ e. ne (cc e))
]

-- Deleting the hashes of a node: they are gone, and every other hash keeps its node.
pub removed_at :
    (node : String) (h : ℕ) (ring : Ring)
    → Distinct (keys ring)
    → ((at h ring ≡ some node) × (at h (delete_hashes (hashes_of node ring) ring) ≡ none))
      ⊎ ((at h ring ≢ some node) × (at h (delete_hashes (hashes_of node ring) ring) ≡ at h ring))
removed_at node h ring d = elim (In-cases h (hashes_of node ring)) [
  | inl i ↦ inl (owned i, at-delete_hashes-In h _ ring i)
  | inr f ↦
      inr (λ e. In-Fresh h _ (In-hashes_of node h ring e) f, at-delete_hashes-Fresh h _ ring f)
]
  where
    owned : In h (hashes_of node ring) → at h ring ≡ some node
    owned i = elim (option_dec node (at h ring)) [
      | yes e ↦ e
      | no ne ↦ absurd (In-Fresh h _ i (hashes_of-Fresh node h ring d ne))
    ]

-- The hashes kept are those listed whose node is not the empty string.
pub In-keep_hashes :
    (h : ℕ) (ring : Ring) (hs : List ℕ)
    → In h hs
    → node_or_empty (at h ring) ≢ ""
    → In h (keep_hashes ring hs)
unfolding keep_hashes
In-keep_hashes h ring [] i ne = absurd i
In-keep_hashes h ring (x ∷ hs) i ne = elim (String_discrete (node_or_empty (at x ring)) "") [
  | yes p ↦ rw (if_pos _ p) (elim i [
    | inl e ↦ absurd (ne (subst (λ k. node_or_empty (at k ring) ≡ "") e p))
    | inr j ↦ In-keep_hashes h ring hs j ne
  ])
  | no p ↦ rw (if_neg _ p) (elim i [ inl e ↦ inl e | inr j ↦ inr (In-keep_hashes h ring hs j ne) ])
]

keep_hashes_tail :
    (h : ℕ) (ring : Ring) (x : ℕ) (hs : List ℕ)
    → node_or_empty (at x ring) ≢ ""
    → In h (keep_hashes ring (x ∷ hs))
    → In h (x ∷ keep_hashes ring hs)
unfolding keep_hashes
keep_hashes_tail h ring x hs p i =
    subst (λ l. In h l)
      (if_neg (String_discrete (node_or_empty (at x ring)) "") p (keep_hashes ring hs)
        (x ∷ keep_hashes ring hs))
      i

pub keep_hashes-In :
    (h : ℕ) (ring : Ring) (hs : List ℕ)
    → In h (keep_hashes ring hs)
    → In h hs × (node_or_empty (at h ring) ≢ "")
unfolding keep_hashes
keep_hashes-In h ring [] i = absurd i
keep_hashes-In h ring (x ∷ hs) i = elim (String_discrete (node_or_empty (at x ring)) "") [
  | yes p ↦
      let (j, ne) = keep_hashes-In h ring hs (
        subst (λ l. In h l)
          (if_pos (String_discrete (node_or_empty (at x ring)) "") p (keep_hashes ring hs)
            (x ∷ keep_hashes ring hs))
          i) in
      (inr j, ne)
  | no p ↦ elim (keep_hashes_tail h ring x hs p i) [
    | inl e ↦ (inl e, subst (λ k. node_or_empty (at k ring) ≢ "") e p)
    | inr j ↦ let (k, ne) = keep_hashes-In h ring hs j in (inr k, ne)
  ]
]

All-keep_hashes {κ} :
    (P : ℕ → Type κ) (ring : Ring) (hs : List ℕ) → All P hs → All P (keep_hashes ring hs)
unfolding keep_hashes
All-keep_hashes P ring [] a = tt
All-keep_hashes P ring (x ∷ hs) a = elim (String_discrete (node_or_empty (at x ring)) "") [
  | yes p ↦ rw (if_pos _ p) (All-keep_hashes P ring hs a.1)
  | no p ↦ rw (if_neg _ p) (a.0, All-keep_hashes P ring hs a.1)
]

pub keep_hashes-IsSorted :
    (ring : Ring) (hs : List ℕ) → IsSorted hs → IsSorted (keep_hashes ring hs)
unfolding keep_hashes
keep_hashes-IsSorted ring [] s = tt
keep_hashes-IsSorted ring (x ∷ hs) s = elim (String_discrete (node_or_empty (at x ring)) "") [
  | yes p ↦ rw (if_pos _ p) (keep_hashes-IsSorted ring hs s.1)
  | no p ↦
      rw (if_neg _ p) (All-keep_hashes (λ y. x ≤ y) ring hs s.0, keep_hashes-IsSorted ring hs s.1)
]
