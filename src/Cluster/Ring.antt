-- ===== src/Cluster/Ring.antt =====
-- Consistency of the hash ring of core/distributed_cache.go, and that its operations keep it.
use ryan_cache.Prelude.{
  ℕ, zero, suc, ◌+◌, String, ℕ_discrete, ◌≡◌, ◌≢◌, refl, sym, ap, ◌∙◌, subst, ◌⊎◌, inl, inr, Option,
  none, some, List, [], ◌∷◌, ◌++◌, Distinct, Fresh, Option-cases, concat, itoa,
}
use ryan_cache.GoMap.{keys, lookup, insert, insert-Distinct}
use ryan_cache.Cluster.Sorting.{
  In, IsSorted, sort-IsSorted, In-sort, sort-In, In-append, append-In_left, append-In_right,
}
use ryan_cache.Cluster.Defs.{
  DistributedCache, node_or_empty, hashes_of, remove_node_from_hash_ring, hash_key,
  add_virtual_nodes, add_node_to_hash_ring, add_nodes, build_hash_ring,
}
use ryan_cache.Cluster.Maps.{
  at, at-insert_same, at-insert_other, removed_at, delete_hashes-Distinct, In-keep_hashes,
  keep_hashes-In, keep_hashes-IsSorted,
}

-- The list holds exactly the hashes of the map, and no node is the empty string.
pub record IsFilled (dc : DistributedCache) : Type 0 where
  pub distinct : Distinct (keys dc.hash_ring)
  pub on_ring :
      (h : ℕ) → In h dc.sorted_hashes → (n : String) × (at h dc.hash_ring ≡ some n) × (n ≢ "")
  pub listed : (h : ℕ) (n : String) → at h dc.hash_ring ≡ some n → In h dc.sorted_hashes

-- The list is sorted besides.
pub record IsRing (dc : DistributedCache) : Type 0 where
  pub filled : IsFilled dc
  pub sorted : IsSorted dc.sorted_hashes

abbrev pub put : ℕ → String → DistributedCache → DistributedCache
put hash node dc = record dc {
  hash_ring = insert ℕ_discrete hash node dc.hash_ring;
  sorted_hashes = dc.sorted_hashes ++ hash ∷ [];
}

-- Putting one virtual node on the ring.
module _ (hash : ℕ) (node : String) (dc : DistributedCache) where
  put-at :
      (h : ℕ)
      → ((hash ≡ h) × (at h (put hash node dc).hash_ring ≡ some node))
        ⊎ ((hash ≢ h) × (at h (put hash node dc).hash_ring ≡ at h dc.hash_ring))
  put-at h = elim (ℕ_discrete hash h) [
    | yes p ↦ inl (
      p,
      subst (λ k. at k (put hash node dc).hash_ring ≡ some node) p
          (at-insert_same hash node dc.hash_ring),
    )
    | no p ↦ inr (p, at-insert_other hash h node dc.hash_ring p)
  ]

  put-IsFilled : node ≢ "" → IsFilled dc → IsFilled (put hash node dc)
  put-IsFilled named f = record {
    distinct = insert-Distinct ℕ_discrete hash node dc.hash_ring f.distinct;
    on_ring = λ h i. elim (put-at h) [
      | inl (p, e) ↦ (node, e, named)
      | inr (p, e) ↦ elim (In-append h dc.sorted_hashes (hash ∷ []) i) [
        | inl j ↦ let (n, en, ne) = f.on_ring h j in (n, e ∙ en, ne)
        | inr (inl q) ↦ absurd (p q)
        | inr (inr j) ↦ absurd j
      ]
    ];
    listed = λ h n e. elim (put-at h) [
      | inl (p, q) ↦ append-In_right h dc.sorted_hashes (hash ∷ []) (inl p)
      | inr (p, q) ↦ append-In_left h dc.sorted_hashes (hash ∷ []) (f.listed h n (sym q ∙ e))
    ];
  }

module _ (sha1 : String → ℕ → ℕ) (node : String) where
  add_virtual_nodes-IsFilled :
      (rounds i : ℕ) (dc : DistributedCache)
      → node ≢ ""
      → IsFilled dc
      → IsFilled (add_virtual_nodes sha1 rounds node i dc)
  unfolding add_virtual_nodes
  add_virtual_nodes-IsFilled zero i dc named f = f
  add_virtual_nodes-IsFilled (suc rounds) i dc named f =
      add_virtual_nodes-IsFilled rounds (i + 1) _ named (put-IsFilled _ node dc named f)

  -- After the loop a hash is the node's, or as it was.
  add_virtual_nodes-at :
      (rounds i : ℕ) (dc : DistributedCache) (h : ℕ)
      → (at h (add_virtual_nodes sha1 rounds node i dc).hash_ring ≡ some node)
        ⊎ (at h (add_virtual_nodes sha1 rounds node i dc).hash_ring ≡ at h dc.hash_ring)
  unfolding add_virtual_nodes
  add_virtual_nodes-at zero i dc h = inr refl
  add_virtual_nodes-at (suc rounds) i dc h =
      elim (add_virtual_nodes-at rounds (i + 1)
        (put (hash_key sha1 (concat (concat node "#") (itoa i))) node dc) h) [
          | inl e ↦ inl e
          | inr e ↦ elim (put-at (hash_key sha1 (concat (concat node "#") (itoa i))) node dc h) [
            | inl (p, q) ↦ inl (e ∙ q)
            | inr (p, q) ↦ inr (e ∙ q)
          ]
        ]

  pub add_virtual_nodes-In :
      (rounds i : ℕ) (dc : DistributedCache) (h : ℕ)
      → In h dc.sorted_hashes
      → In h (add_virtual_nodes sha1 rounds node i dc).sorted_hashes
  unfolding add_virtual_nodes
  add_virtual_nodes-In zero i dc h j = j
  add_virtual_nodes-In (suc rounds) i dc h j =
      add_virtual_nodes-In rounds (i + 1) _ h (append-In_left h dc.sorted_hashes _ j)

  module _ (dc : DistributedCache) where
    pub add_node_at :
        (h : ℕ)
        → (at h (add_node_to_hash_ring sha1 node dc).hash_ring ≡ some node)
          ⊎ (at h (add_node_to_hash_ring sha1 node dc).hash_ring ≡ at h dc.hash_ring)
    unfolding add_node_to_hash_ring
    add_node_at h = add_virtual_nodes-at dc.virtual_nodes 0 dc h

    pub add_node-In :
        (h : ℕ) → In h dc.sorted_hashes → In h (add_node_to_hash_ring sha1 node dc).sorted_hashes
    unfolding add_node_to_hash_ring
    add_node-In h j = sort-In h _ (add_virtual_nodes-In dc.virtual_nodes 0 dc h j)

    -- Adding a node with a name keeps the ring consistent: the list is sorted and holds exactly the
    -- hashes of the map, whose keys are distinct and whose nodes have names.
    pub add_node-IsRing : node ≢ "" → IsRing dc → IsRing (add_node_to_hash_ring sha1 node dc)
    unfolding add_node_to_hash_ring
    add_node-IsRing named r =
        let f = add_virtual_nodes-IsFilled dc.virtual_nodes 0 dc named r.filled in
        record {
          filled = record {
            distinct = f.distinct;
            on_ring = λ h i. f.on_ring h (In-sort h _ i);
            listed = λ h n e. sort-In h _ (f.listed h n e);
          };
          sorted = sort-IsSorted (add_virtual_nodes sha1 dc.virtual_nodes node 0 dc).sorted_hashes;
        }

none_empty : node_or_empty none ≡ ""
unfolding node_or_empty
none_empty = refl

pub empty_at : (h : ℕ) (n : String) → at h [] ≡ some n → ⊥
unfolding lookup
empty_at h n e = cc e

node_or_empty-some : (n : String) (o : Option String) → o ≡ some n → node_or_empty o ≡ n
unfolding node_or_empty
node_or_empty-some n o e = ap node_or_empty e

module _ (node : String) (dc : DistributedCache) (r : IsRing dc) where
  abbrev left : DistributedCache
  left = remove_node_from_hash_ring node dc

  -- After a removal a hash has a node exactly when it had that node and it is another one.
  pub remove_node_at :
      (h : ℕ) (n : String)
      → (at h left.hash_ring ≡ some n → (at h dc.hash_ring ≡ some n) × (n ≢ node))
        × (at h dc.hash_ring ≡ some n → n ≢ node → at h left.hash_ring ≡ some n)
  unfolding remove_node_from_hash_ring
  remove_node_at h n = elim (removed_at node h dc.hash_ring r.filled.distinct) [
    | inl (e, g) ↦ (λ p. absurd (cc (p, g)), λ p ne. absurd (ne (cc (p, e))))
    | inr (ne, g) ↦ (λ p. (sym g ∙ p, λ q. ne (sym g ∙ (p ∙ ap some q))), λ p _. g ∙ p)
  ]

  pub remove_node-In : (h : ℕ) → In h left.sorted_hashes → In h dc.sorted_hashes
  unfolding remove_node_from_hash_ring
  remove_node-In h i = (keep_hashes-In h _ dc.sorted_hashes i).0

  keep :
      (h : ℕ) (n : String)
      → at h left.hash_ring ≡ some n
      → n ≢ ""
      → In h dc.sorted_hashes
      → In h left.sorted_hashes
  unfolding remove_node_from_hash_ring
  keep h n e ne i =
      In-keep_hashes h _ dc.sorted_hashes i
        (subst (λ s. s ≢ "") (sym (node_or_empty-some n (at h left.hash_ring) e)) ne)

  named : (h : ℕ) (n : String) → at h dc.hash_ring ≡ some n → n ≢ ""
  named h n e =
      let (m, em, ne) = r.filled.on_ring h (r.filled.listed h n e) in
      subst (λ s. s ≢ "") (cc (e, em)) ne

  pub In-remove_node :
      (h : ℕ) (n : String) → at h dc.hash_ring ≡ some n → n ≢ node → In h left.sorted_hashes
  In-remove_node h n e ne =
      keep h n ((remove_node_at h n).1 e ne) (named h n e) (r.filled.listed h n e)

  left-Distinct : Distinct (keys left.hash_ring)
  unfolding remove_node_from_hash_ring
  left-Distinct =
      delete_hashes-Distinct (hashes_of node dc.hash_ring) dc.hash_ring r.filled.distinct

  left-IsSorted : IsSorted left.sorted_hashes
  unfolding remove_node_from_hash_ring
  left-IsSorted = keep_hashes-IsSorted _ dc.sorted_hashes r.sorted

  left_named : (h : ℕ) → In h left.sorted_hashes → node_or_empty (at h left.hash_ring) ≢ ""
  unfolding remove_node_from_hash_ring
  left_named h i = (keep_hashes-In h _ dc.sorted_hashes i).1

  -- Removing a node keeps a consistent ring consistent.
  pub remove_node-IsRing : IsRing left
  remove_node-IsRing = record {
    filled = record {
      distinct = left-Distinct;
      on_ring = λ h i. elim (Option-cases (at h left.hash_ring)) [
        | inl e ↦ absurd (left_named h i (ap node_or_empty e ∙ none_empty))
        | inr (n, e) ↦ (n, e, named h n ((remove_node_at h n).0 e).0)
      ];
      listed = λ h n e. let (p, ne) = (remove_node_at h n).0 e in In-remove_node h n p ne;
    };
    sorted = left-IsSorted;
  }

-- The ring that `buildHashRing` makes.
module _ (sha1 : String → ℕ → ℕ) where
  add_nodes-IsRing :
      (nodes : List String) (dc : DistributedCache)
      → Fresh "" nodes
      → IsRing dc
      → IsRing (add_nodes sha1 nodes dc)
  unfolding add_nodes
  add_nodes-IsRing [] dc named r = r
  add_nodes-IsRing (node ∷ nodes) dc named r =
      add_nodes-IsRing nodes _ named.1 (add_node-IsRing sha1 node dc named.0 r)

  pub build_hash_ring-IsRing :
      (dc : DistributedCache) → Fresh "" dc.nodes → IsRing (build_hash_ring sha1 dc)
  unfolding build_hash_ring
  build_hash_ring-IsRing dc named = add_nodes-IsRing dc.nodes _ named record {
    filled = record {
      distinct = tt;
      on_ring = λ h i. absurd i;
      listed = λ h n e. absurd (empty_at h n e);
    };
    sorted = tt;
  }
