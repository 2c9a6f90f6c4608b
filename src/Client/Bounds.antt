-- ===== src/Client/Bounds.antt =====
-- How often `executeWithRetry` of distributed/client.go calls its operation, and that it ends.
use ryan_cache.Prelude.{
  ℕ, zero, suc, ◌+◌, ◌≤◌, ◌<◌, ◌≡◌, refl, sym, subst, ◌∙◌, ◌⊎◌, inl, inr, String, Option, none,
  some, arith, Result, ok, length,
}
use ryan_cache.Http.{CallError, Attempt, returned, errored}
use ryan_cache.Client.Nodes.{Time, NodeManager, mark_success, mark_failure}
use ryan_cache.Client.Defs.{DistributedClient}
use ryan_cache.Client.Rounds.{next_node, get_next_healthy_node}
use ryan_cache.Client.Retry.{with_manager, is_network_error, retry_loop, execute_with_retry}

-- The client has a node manager, and that has a seed node.
pub record HasSeeds (dc : DistributedClient) : Type 0 where
  pub manager : NodeManager
  pub managed : dc.node_manager ≡ some manager
  pub seeded : 0 < length manager.seed_nodes

-- The operation, with its calls counted.
abbrev pub counted :
    {W A : Type 0} → (String → W → W × Attempt A) → String → W × ℕ → (W × ℕ) × Attempt A
counted operation node (w, calls) =
    let (w1, attempt) = operation node w in ((w1, calls + 1), attempt)

abbrev pub IsError : {A : Type 0} → Attempt A → Type 0
IsError (returned a) = ⊥
IsError (errored e) = Unit

with_manager-HasSeeds :
    (f : NodeManager → NodeManager) (dc : DistributedClient)
    → ((nm : NodeManager) → (f nm).seed_nodes ≡ nm.seed_nodes)
    → HasSeeds dc
    → HasSeeds (with_manager f dc)
unfolding with_manager
with_manager-HasSeeds f dc keeps h = record {
  manager = f h.manager;
  managed = rw (h.managed, with_manager) refl;
  seeded = subst (λ l. 0 < length l) (sym (keeps h.manager)) h.seeded;
}

mark_success-seed_nodes :
    (now : Time) (node : String) (nm : NodeManager)
    → (mark_success now node nm).seed_nodes ≡ nm.seed_nodes
unfolding mark_success
mark_success-seed_nodes now node nm = ground arith

mark_failure-seed_nodes :
    (now : Time) (node : String) (nm : NodeManager)
    → (mark_failure now node nm).seed_nodes ≡ nm.seed_nodes
unfolding mark_failure
mark_failure-seed_nodes now node nm = ground arith

turn-HasSeeds :
    (dc : DistributedClient) (i : ℕ) → HasSeeds dc → HasSeeds (record dc { current_node = i })
turn-HasSeeds dc i h = record { manager = h.manager; managed = h.managed; seeded = h.seeded }

pub attempt_cases :
    {W A : Type 0} (p : W × Attempt A)
    → ((w : W) × (a : A) × (p ≡ (w, returned a)))
      ⊎ ((w : W) × (e : CallError) × (p ≡ (w, errored e)))
attempt_cases (w, returned a) = inl (w, a, refl)
attempt_cases (w, errored e) = inr (w, e, refl)

module _ {W A : Type 0} (clock : ℕ → Time) (operation : String → W → W × Attempt A) where
  -- What a run of some rounds promises: it ends, with no more calls than rounds, and with as many
  -- where it ends in an error.
  abbrev Ends : ℕ → ℕ → Result (DistributedClient × (W × ℕ) × Attempt A) → Type 0
  Ends rounds calls r =
      (dc1 : DistributedClient) × (w1 : W) × (calls1 : ℕ) × (attempt : Attempt A) × (r
        ≡ ok (dc1, (w1, calls1), attempt))
      × (calls1 ≤ calls + rounds)
      × (IsError attempt → calls1 ≡ calls + rounds)
      × HasSeeds dc1

  abbrev loop :
      ℕ
      → Option CallError
      → DistributedClient
      → W × ℕ
      → Result (DistributedClient × (W × ℕ) × Attempt A)
  loop = retry_loop clock (counted operation)

  -- One round, once the node and its answer are known.
  module _ (rounds : ℕ) (last : Option CallError) (dc dc1 : DistributedClient) (node : String)
      (w w1 : W) (calls : ℕ) (ran : get_next_healthy_node dc ≡ ok (dc1, node)) where
    returned_round :
        (a : A)
        → operation node w ≡ (w1, returned a)
        → loop (suc rounds) last dc (w, calls)
          ≡ ok (with_manager (mark_success (clock rounds) node) dc1, (w1, calls + 1), returned a)
    unfolding retry_loop
    returned_round a e = ground (arith, ran, e)

    errored_round :
        (err : CallError)
        → operation node w ≡ (w1, errored err)
        → loop (suc rounds) last dc (w, calls)
          ≡ loop rounds
              (some err)
              (with_manager (mark_failure (clock rounds) node) dc1)
              (w1, calls + 1)
    unfolding retry_loop is_network_error
    errored_round err e = ground (arith, ran, e)

  retry_loop-Ends :
      (rounds : ℕ) (last : Option CallError) (dc : DistributedClient) (w : W) (calls : ℕ)
      → HasSeeds dc
      → Ends rounds calls (loop rounds last dc (w, calls))
  unfolding retry_loop is_network_error
  retry_loop-Ends zero last dc w calls h = (dc, w, calls, _, refl, omega arith, λ _. omega arith, h)
  retry_loop-Ends (suc rounds) last dc w calls h =
      let (i, node, ran, _, _) = next_node h.manager dc h.managed h.seeded in
      let dc1 = record dc { current_node = i } in
      let h1 = turn-HasSeeds dc i h in
      elim (attempt_cases (operation node w)) [
        | inl (w1, a, e) ↦ (
          with_manager (mark_success (clock rounds) node) dc1,
          w1,
          calls + 1,
          returned a,
          returned_round rounds last dc dc1 node w w1 calls ran a e,
          omega arith,
          (λ b. absurd b),
          with_manager-HasSeeds _ dc1 (mark_success-seed_nodes (clock rounds) node) h1,
        )
        | inr (w1, err, e) ↦
            let dc2 = with_manager (mark_failure (clock rounds) node) dc1 in
            let (dc3, w3, calls3, attempt, ran3, most, all, h3) =
              retry_loop-Ends rounds (some err) dc2 w1 (calls + 1)
                (with_manager-HasSeeds _ dc1 (mark_failure-seed_nodes (clock rounds) node) h1) in
            (
              dc3,
              w3,
              calls3,
              attempt,
              errored_round rounds last dc dc1 node w w1 calls ran err e ∙ ran3,
              omega arith,
              (λ b. omega (arith, all b)),
              h3,
            )
      ]

  -- Where the client has a seed node, `executeWithRetry` ends without a fault after at most
  -- `retry_count` calls of its operation, and after exactly as many where it returns an error: an
  -- error of any kind is tried again, and the client keeps its seed nodes.
  pub execute_with_retry_bounds :
      (dc : DistributedClient) (w : W)
      → HasSeeds dc
      → (dc1 : DistributedClient) × (w1 : W) × (calls : ℕ) × (attempt : Attempt A)
        × (execute_with_retry clock (counted operation) dc (w, 0) ≡ ok (dc1, (w1, calls), attempt))
        × (calls ≤ dc.retry_count)
        × (IsError attempt → calls ≡ dc.retry_count)
        × HasSeeds dc1
  unfolding execute_with_retry
  execute_with_retry_bounds dc w h =
      let (dc1, w1, calls, attempt, ran, most, all, h1) =
        retry_loop-Ends dc.retry_count none dc w 0 h in
      (dc1, w1, calls, attempt, ran, omega arith, (λ b. omega (arith, all b)), h1)
