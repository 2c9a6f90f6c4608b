-- ===== src/Cluster/Routing.antt =====
-- Which node `getNodeForKeyUnsafe` of core/distributed_cache.go answers, and what a change of the
-- nodes does to the answers.
use ryan_cache.Prelude.{
  ℕ, ◌<◌, String, ◌≡◌, ◌≢◌, refl, sym, ap, ◌∙◌, subst, ◌⊎◌, ◌↔◌, inl, inr, some, List, [], ◌∷◌,
  arith, ok, panic, index_range, leb, leb→le, Bool-cases, length,
}
use ryan_cache.Cluster.Sorting.{In, get_or}
use ryan_cache.Cluster.Defs.{
  DistributedCache, node_or_empty, node_at, ring_index, hash_key, get_node_for_key,
  add_node_to_hash_ring, remove_node_from_hash_ring,
}
use ryan_cache.Cluster.Owner.{IsOwner, IsOwner-unique, IsOwner-fewer, ring_index-IsOwner}
use ryan_cache.Cluster.Maps.{at}
use ryan_cache.Cluster.Ring.{
  IsRing, add_node_at, add_node-In, add_node-IsRing, remove_node_at, remove_node-In,
  remove_node-IsRing, In-remove_node,
}

ok-injective {ℓ} : {A : Type ℓ} (a b : A) → ok a ≡ ok b → a ≡ b
ok-injective a b e = cc e

pub In-nonempty : (h : ℕ) (hs : List ℕ) → In h hs → 0 < length hs
In-nonempty h [] i = absurd i
In-nonempty h (x ∷ hs) i = omega arith

empty_of : (hs : List ℕ) → (hs ≡ []) ⊎ (0 < length hs)
empty_of [] = inl refl
empty_of (x ∷ hs) = inr (omega arith)

module _ (sha1 : String → ℕ → ℕ) (key : String) where
  -- `node` holds the clockwise successor of the key's hash.
  abbrev pub IsRouted : DistributedCache → String → Type 0
  IsRouted dc node =
      (s : ℕ) × IsOwner dc.sorted_hashes (hash_key sha1 key) s × (at s dc.hash_ring ≡ some node)

  module _ (dc : DistributedCache) where
    abbrev index : ℕ
    index = ring_index (hash_key sha1 key) dc.sorted_hashes

    in_range :
        index < length dc.sorted_hashes
        → get_node_for_key sha1 key dc
          ≡ ok (node_or_empty (at (get_or dc.sorted_hashes index 0) dc.hash_ring))
    unfolding get_node_for_key node_at
    in_range lt = elim (Bool-cases (leb (length dc.sorted_hashes) index)) [
      | inl e ↦ absurd (omega (arith, leb→le (length dc.sorted_hashes) index e))
      | inr e ↦ rw e refl
    ]

    empty_panics : dc.sorted_hashes ≡ [] → get_node_for_key sha1 key dc ≡ panic index_range
    unfolding get_node_for_key node_at
    empty_panics e = ground (arith, ap length e)

    module _ (r : IsRing dc) where
      routed :
          0 < length dc.sorted_hashes
          → (n : String) × IsRouted dc n × (get_node_for_key sha1 key dc ≡ ok n)
      unfolding node_or_empty
      routed lt =
          let (inside, o) = ring_index-IsOwner dc.sorted_hashes (hash_key sha1 key) r.sorted lt in
          let (n, e, ne) = r.filled.on_ring _ o.listed in
          (n, (_, o, e), in_range inside ∙ ap (λ x. ok (node_or_empty x)) e)

      same_node : (n m : String) → IsRouted dc n → IsRouted dc m → n ≡ m
      same_node n m (s, o, e) (t, p, f) =
          let q = IsOwner-unique dc.sorted_hashes (hash_key sha1 key) s t o p in
          cc (e, f, subst (λ k. at s dc.hash_ring ≡ at k dc.hash_ring) q refl)

      pub to_routed : (n : String) → get_node_for_key sha1 key dc ≡ ok n → IsRouted dc n
      to_routed n e = elim (empty_of dc.sorted_hashes) [
        | inl z ↦ absurd (cc (e, empty_panics z))
        | inr lt ↦
            let (m, rm, em) = routed lt in subst (IsRouted dc) (ok-injective m n (sym em ∙ e)) rm
      ]

      pub from_routed : (n : String) → IsRouted dc n → get_node_for_key sha1 key dc ≡ ok n
      from_routed n rn =
          let (m, rm, em) = routed (In-nonempty _ _ rn.1.listed) in em ∙ ap ok (same_node m n rm rn)

      -- On a consistent ring the lookup of a key answers a node exactly when that node holds the
      -- smallest hash at or after the key's, or the smallest of all where there is none. It answers
      -- some node while the ring has a hash, and on an empty ring it panics with an index out of
      -- range.
      pub get_node_for_key_lem :
          ((n : String) → (get_node_for_key sha1 key dc ≡ ok n) ↔ IsRouted dc n)
          × (0 < length dc.sorted_hashes → (n : String) × (get_node_for_key sha1 key dc ≡ ok n))
          × (dc.sorted_hashes ≡ [] → get_node_for_key sha1 key dc ≡ panic index_range)
      get_node_for_key_lem = (
        λ n. (to_routed n, from_routed n),
        λ lt. let (n, rn, e) = routed lt in (n, e),
        empty_panics,
      )

  module _ (dc : DistributedCache) (r : IsRing dc) (node n : String) where
    -- Where a ring is consistent and a node with a name is added to it, a key that was on a node is
    -- on that node still or on the new one: no key moves between the old nodes.
    pub get_node-add_node :
        node ≢ ""
        → get_node_for_key sha1 key dc ≡ ok n
        → (get_node_for_key sha1 key (add_node_to_hash_ring sha1 node dc) ≡ ok n)
          ⊎ (get_node_for_key sha1 key (add_node_to_hash_ring sha1 node dc) ≡ ok node)
    get_node-add_node named e =
        let (s, o, es) = to_routed dc r n e in
        let added = add_node-IsRing sha1 node dc named r in
        let more = In-nonempty s _ (add_node-In sha1 node dc s o.listed) in
        let (m, (t, p, et), em) = routed (add_node_to_hash_ring sha1 node dc) added more in
        elim (add_node_at sha1 node dc t) [
          | inl q ↦ inr (em ∙ ap ok (cc (q, et)))
          | inr q ↦
              let old = r.filled.listed t m (sym q ∙ et) in
              let fewer =
                IsOwner-fewer _ dc.sorted_hashes (hash_key sha1 key) t (add_node-In sha1 node dc) p
                  old in
              inl (em ∙ ap ok (same_node dc r m n (t, fewer, sym q ∙ et) (s, o, es)))
        ]

    -- Where a node is removed from a consistent ring, a key that was on another node stays there.
    pub get_node-remove_node :
        get_node_for_key sha1 key dc ≡ ok n
        → n ≢ node
        → get_node_for_key sha1 key (remove_node_from_hash_ring node dc) ≡ ok n
    get_node-remove_node e ne =
        let (s, o, es) = to_routed dc r n e in
        from_routed (remove_node_from_hash_ring node dc) (remove_node-IsRing node dc r) n (
          s,
          IsOwner-fewer dc.sorted_hashes _ (hash_key sha1 key) s (remove_node-In node dc r) o
              (In-remove_node node dc r s n es ne),
          (remove_node_at node dc r s n).1 es ne,
        )
