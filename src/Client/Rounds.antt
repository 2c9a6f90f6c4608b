-- ===== src/Client/Rounds.antt =====
-- The choice of a node in distributed/client.go, in turn.
use ryan_cache.Prelude.{
  ℕ, zero, suc, ◌+◌, ◌%◌, ◌<◌, ◌≡◌, refl, sym, subst, ◌⊎◌, inl, inr, String, true, false, List, [],
  ◌∷◌, none, some, Option-cases, Bool-cases, Result, ok, panic, ◌>>=◌, index_range, arith, length,
}
use native.Mathlib.Nat.{mod-lt}
use ryan_cache.Client.Defs.{DistributedClient}
use ryan_cache.Client.Nodes.{NodeStatus, NodeManager, status_of, healthy_of, get_healthy_nodes}

-- `nodes[i]`
unfoldable pub at_index : ℕ → List String → Result String
at_index i [] = panic index_range
at_index zero (n ∷ nodes) = ok n
at_index (suc i) (n ∷ nodes) = at_index i nodes

-- `getNextNode`
unfoldable pub get_next_node : DistributedClient → Result (DistributedClient × String)
unfolding at_index
get_next_node dc = do
  node ← at_index dc.current_node dc.nodes
  ok (record dc { current_node = (dc.current_node + 1) % length dc.nodes }, node)

-- The end of `getNextHealthyNode`, over the healthy nodes.
unfoldable pub take_turn : List String → DistributedClient → Result (DistributedClient × String)
unfolding at_index
take_turn healthy dc = do
  node ← at_index (dc.current_node % length healthy) healthy
  ok (record dc { current_node = (dc.current_node + 1) % length healthy }, node)

-- `getNextHealthyNode`
unfoldable pub get_next_healthy_node : DistributedClient → Result (DistributedClient × String)
unfolding get_next_node get_healthy_nodes take_turn
get_next_healthy_node dc = elim dc.node_manager [
  | none ↦ get_next_node dc
  | some nm ↦ elim (get_healthy_nodes nm) [
    | [] ↦ get_next_node dc
    | n ∷ nodes ↦ take_turn (n ∷ nodes) dc
  ]
]

abbrev pub Among : String → List String → Type 0
Among n [] = ⊥
Among n (m ∷ ms) = (m ≡ n) ⊎ Among n ms

at_index-Among :
    (i : ℕ) (nodes : List String)
    → i < length nodes
    → (n : String) × (at_index i nodes ≡ ok n) × Among n nodes
unfolding at_index
at_index-Among i [] lt = absurd (omega arith)
at_index-Among zero (m ∷ nodes) lt = (m, refl, inl refl)
at_index-Among (suc i) (m ∷ nodes) lt =
    let (n, e, a) = at_index-Among i nodes (omega arith) in (n, e, inr a)

-- The manager takes the node for healthy.
abbrev pub IsUp : NodeManager → String → Type 0
IsUp nm n = (status : NodeStatus) × (status_of n nm ≡ some status) × (status.is_healthy ≡ true)

none_up : (nm : NodeManager) (n : String) → Among n (healthy_of nm.node_status []) → ⊥
unfolding healthy_of
none_up nm n a = a

module _ (nm : NodeManager) where
  abbrev pub up : List String → List String
  up = healthy_of nm.node_status

  up_unknown :
      (m : String) (nodes : List String) → status_of m nm ≡ none → up (m ∷ nodes) ≡ up nodes
  unfolding healthy_of
  up_unknown m nodes e = ground (arith, e)

  up_down :
      (m : String) (nodes : List String) (t : NodeStatus)
      → status_of m nm ≡ some t
      → t.is_healthy ≡ false
      → up (m ∷ nodes) ≡ up nodes
  unfolding healthy_of
  up_down m nodes t e h = ground (arith, e, h)

  up_here :
      (m : String) (nodes : List String) (t : NodeStatus)
      → status_of m nm ≡ some t
      → t.is_healthy ≡ true
      → up (m ∷ nodes) ≡ m ∷ up nodes
  unfolding healthy_of
  up_here m nodes t e h = ground (arith, e, h)

  healthy_of-IsUp :
      (nodes : List String) (n : String) → Among n (up nodes) → Among n nodes × IsUp nm n
  healthy_of-IsUp [] n a = absurd (none_up nm n a)
  healthy_of-IsUp (m ∷ nodes) n a = elim (Option-cases (status_of m nm)) [
    | inl e ↦
        let (b, u) = healthy_of-IsUp nodes n (subst (Among n) (up_unknown m nodes e) a) in
        (inr b, u)
    | inr (t, e) ↦ elim (Bool-cases t.is_healthy) [
      | inl h ↦
          let c : Among n (m ∷ up nodes) = subst (Among n) (up_here m nodes t e h) a in
          elim c [
            | inl p ↦ (inl p, subst (IsUp nm) p (t, e, h))
            | inr j ↦ let (b, u) = healthy_of-IsUp nodes n j in (inr b, u)
          ]
      | inr h ↦
          let (b, u) = healthy_of-IsUp nodes n (subst (Among n) (up_down m nodes t e h) a) in
          (inr b, u)
    ]
  ]

  -- The list that is answered: the healthy active nodes, or else the seeds.
  abbrev pub IsChoice : String → Type 0
  IsChoice n =
      (Among n nm.active_nodes × IsUp nm n) ⊎ ((up nm.active_nodes ≡ []) × Among n nm.seed_nodes)

  chosen : (n : String) → Among n (get_healthy_nodes nm) → IsChoice n
  unfolding get_healthy_nodes
  chosen n a = by_cases (up nm.active_nodes) refl a
    where
      by_cases :
          (l : List String)
          → l ≡ up nm.active_nodes
          → Among n (elim l [ [] ↦ nm.seed_nodes | m ∷ ms ↦ m ∷ ms ])
          → IsChoice n
      by_cases [] e b = inr (sym e, b)
      by_cases (m ∷ ms) e b = inl (healthy_of-IsUp nm.active_nodes n (subst (Among n) e b))

  some_healthy : 0 < length nm.seed_nodes → 0 < length (get_healthy_nodes nm)
  unfolding get_healthy_nodes
  some_healthy lt = by_cases (up nm.active_nodes)
    where
      by_cases : (l : List String) → 0 < length (elim l [ [] ↦ nm.seed_nodes | m ∷ ms ↦ m ∷ ms ])
      by_cases [] = lt
      by_cases (m ∷ ms) = omega arith

take_turn_lem :
    (healthy : List String) (dc : DistributedClient)
    → 0 < length healthy
    → (i : ℕ) × (n : String) × (take_turn healthy dc ≡ ok (record dc { current_node = i }, n))
      × Among n healthy
      × (i < length healthy)
unfolding take_turn
take_turn_lem healthy dc lt =
    let (n, e, a) =
      at_index-Among (dc.current_node % length healthy) healthy (mod-lt dc.current_node lt) in
    ((dc.current_node + 1) % length healthy, n, rw e refl, a, mod-lt (dc.current_node + 1) lt)

turn_of :
    (nm : NodeManager) (dc : DistributedClient) (r : Result (DistributedClient × String))
    → dc.node_manager ≡ some nm
    → 0 < length (get_healthy_nodes nm)
    → take_turn (get_healthy_nodes nm) dc ≡ r
    → get_next_healthy_node dc ≡ r
unfolding get_next_healthy_node
turn_of nm dc r e lt ran = rw (e, get_next_healthy_node) (from_list (get_healthy_nodes nm) lt ran)
  where
    from_list :
        (l : List String)
        → 0 < length l
        → take_turn l dc ≡ r
        → (elim l [ [] ↦ get_next_node dc | n ∷ nodes ↦ take_turn (n ∷ nodes) dc ]) ≡ r
    from_list [] lt ran = absurd (omega arith)
    from_list (n ∷ nodes) lt ran = ran

-- The choice changes nothing but the index of the next turn.
pub next_node :
    (nm : NodeManager) (dc : DistributedClient)
    → dc.node_manager ≡ some nm
    → 0 < length nm.seed_nodes
    → (i : ℕ) × (n : String) × (get_next_healthy_node dc ≡ ok (record dc { current_node = i }, n))
      × IsChoice nm n
      × (i < length (get_healthy_nodes nm))
next_node nm dc e lt =
    let filled = some_healthy nm lt in
    let (i, n, ran, a, inside) = take_turn_lem (get_healthy_nodes nm) dc filled in
    (
      i,
      n,
      turn_of nm dc (ok (record dc { current_node = i }, n)) e filled ran,
      chosen nm n a,
      inside,
    )

-- A client with a node manager that has a seed node always finds a node: an active node that is
-- healthy, or, where there is none, a seed node. The index for the next turn is within the list of
-- nodes that was chosen from.
pub get_next_healthy_node-IsChoice :
    (nm : NodeManager) (dc : DistributedClient)
    → dc.node_manager ≡ some nm
    → 0 < length nm.seed_nodes
    → (dc1 : DistributedClient) × (n : String) × (get_next_healthy_node dc ≡ ok (dc1, n))
      × IsChoice nm n
      × (dc1.current_node < length (get_healthy_nodes nm))
get_next_healthy_node-IsChoice nm dc e lt =
    let (i, n, ran, choice, inside) = next_node nm dc e lt in
    (record dc { current_node = i }, n, ran, choice, inside)
