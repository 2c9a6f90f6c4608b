-- ===== src/Cluster/Owner.antt =====
-- The clockwise successor of a hash among the hashes of core/distributed_cache.go, described without
-- sorting or searching, and the search for it.
use ryan_cache.Prelude.{
  ℕ, ◌≤◌, ◌<◌, ◌≡◌, subst, ◌⊎◌, inl, inr, Bool, false, List, arith, leb, leb→le, ◌==◌, Bool-cases,
  length,
}
use ryan_cache.Cluster.Search.{sort_search, IsMonotone, Splits, sort_search-Splits}
use ryan_cache.Cluster.Sorting.{In, IsSorted, get_or, get_or_mono, In-get_or, index-In}
use ryan_cache.Cluster.Defs.{ring_index}

-- `s` is the smallest hash at or after `h`; where there is none, the smallest hash of all.
pub record IsOwner (hashes : List ℕ) (h s : ℕ) : Type 0 where
  pub listed : In s hashes
  pub nearest :
      (h ≤ s × ((t : ℕ) → In t hashes → h ≤ t → s ≤ t))
      ⊎ (((t : ℕ) → In t hashes → t < h) × ((t : ℕ) → In t hashes → s ≤ t))

antisym : (s t : ℕ) → s ≤ t → t ≤ s → s ≡ t
antisym s t p q = omega arith

pub IsOwner-unique : (hashes : List ℕ) (h s t : ℕ) → IsOwner hashes h s → IsOwner hashes h t → s ≡ t
IsOwner-unique hashes h s t a b = both a.nearest b.nearest
  where
    Nearest : ℕ → Type 0
    Nearest s =
        (h ≤ s × ((t : ℕ) → In t hashes → h ≤ t → s ≤ t))
        ⊎ (((t : ℕ) → In t hashes → t < h) × ((t : ℕ) → In t hashes → s ≤ t))

    both : Nearest s → Nearest t → s ≡ t
    both (inl p) (inl q) = antisym s t (p.1 t b.listed q.0) (q.1 s a.listed p.0)
    both (inl p) (inr q) = absurd (omega (arith, p.0, q.0 s a.listed))
    both (inr p) (inl q) = absurd (omega (arith, q.0, p.0 t b.listed))
    both (inr p) (inr q) = antisym s t (p.1 t b.listed) (q.1 s a.listed)

-- The owner among more hashes stays the owner among fewer, while it is one of them.
pub IsOwner-fewer :
    (more fewer : List ℕ) (h s : ℕ)
    → ((t : ℕ) → In t fewer → In t more)
    → IsOwner more h s
    → In s fewer
    → IsOwner fewer h s
IsOwner-fewer more fewer h s sub o i = record {
  listed = i;
  nearest = elim o.nearest [
    | inl p ↦ inl (p.0, λ t j. p.1 t (sub t j))
    | inr p ↦ inr (λ t j. p.0 t (sub t j), λ t j. p.1 t (sub t j))
  ];
}

module _ (hashes : List ℕ) (h : ℕ) (sorted : IsSorted hashes) where
  abbrev test : ℕ → Bool
  test i = leb h (get_or hashes i 0)

  test-IsMonotone : IsMonotone (length hashes) test
  test-IsMonotone i j le lt e =
      ground (arith, get_or_mono hashes i j sorted le lt, leb→le h (get_or hashes i 0) e)

  found-IsOwner :
      (r : ℕ)
      → Splits (length hashes) test r
      → r < length hashes
      → IsOwner hashes h (get_or hashes r 0)
  found-IsOwner r s lt = record {
    listed = In-get_or hashes r lt;
    nearest =
        inl (leb→le h (get_or hashes r 0) (s.after r (omega arith) lt), λ t i le. first t i le);
  }
    where
      first : (t : ℕ) → In t hashes → h ≤ t → get_or hashes r 0 ≤ t
      first t i le =
          let (k, kt, e) = index-In t hashes i in
          elim (Bool-cases (leb r k)) [
            | inl b ↦
                subst (λ u. get_or hashes r 0 ≤ u) e
                  (get_or_mono hashes r k sorted (leb→le r k b) kt)
            | inr b ↦ absurd (ground (arith, s.before k, e))
          ]

  wrapped-IsOwner :
      Splits (length hashes) test (length hashes)
      → 0 < length hashes
      → IsOwner hashes h (get_or hashes 0 0)
  wrapped-IsOwner s lt = record {
    listed = In-get_or hashes 0 lt;
    nearest = inr (λ t i. below t i, λ t i. least t i);
  }
    where
      below : (t : ℕ) → In t hashes → t < h
      below t i = let (k, kt, e) = index-In t hashes i in ground (arith, s.before k kt, e)

      least : (t : ℕ) → In t hashes → get_or hashes 0 0 ≤ t
      least t i =
          let (k, kt, e) = index-In t hashes i in
          subst (λ u. get_or hashes 0 0 ≤ u) e (get_or_mono hashes 0 k sorted (omega arith) kt)

  -- The binary search finds the owner.
  pub ring_index-IsOwner :
      0 < length hashes
      → (ring_index h hashes < length hashes)
        × IsOwner hashes h (get_or hashes (ring_index h hashes) 0)
  unfolding ring_index
  ring_index-IsOwner lt = elim (Bool-cases (sort_search (length hashes) test == length hashes)) [
    | inl e ↦
        rw e (lt, wrapped-IsOwner (subst (Splits (length hashes) test) (ground arith) split) lt)
    | inr e ↦ let below = inside e in rw e (below, found-IsOwner _ split below)
  ]
    where
      split : Splits (length hashes) test (sort_search (length hashes) test)
      split = sort_search-Splits (length hashes) test test-IsMonotone

      inside :
          (sort_search (length hashes) test == length hashes) ≡ false
          → sort_search (length hashes) test < length hashes
      inside e = ground (arith, split.inside)
