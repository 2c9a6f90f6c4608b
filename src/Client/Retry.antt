-- ===== src/Client/Retry.antt =====
-- `executeWithRetry` of distributed/client.go. `clock` gives the time of a round, counted down, and
-- `W` is what is behind the network.
use ryan_cache.Prelude.{
  ℕ, zero, suc, String, Bool, true, false, Option, none, some, Result, ok, ◌>>=◌, if◌then◌else◌,
}
use ryan_cache.Http.{CallError, Attempt, returned, errored, no_attempts, all_nodes_failed}
use ryan_cache.Client.Nodes.{Time, NodeManager, mark_success, mark_failure}
use ryan_cache.Client.Defs.{DistributedClient}
use ryan_cache.Client.Rounds.{get_next_healthy_node}

-- `isNetworkError`: every error counts.
unfoldable pub is_network_error : Option CallError → Bool
is_network_error none = false
is_network_error (some e) = true

-- `if dc.nodeManager != nil { … }`
unfoldable pub with_manager : (NodeManager → NodeManager) → DistributedClient → DistributedClient
with_manager f dc = elim dc.node_manager [
  | none ↦ dc
  | some nm ↦ record dc { node_manager = some (f nm) }
]

-- The error after the last round.
abbrev pub exhausted : Option CallError → CallError
exhausted none = no_attempts
exhausted (some e) = all_nodes_failed e

module _ {W A : Type 0} (clock : ℕ → Time) (operation : String → W → W × Attempt A) where
  -- The loop, with the rounds left and `lastErr`.
  unfoldable pub retry_loop :
      ℕ → Option CallError → DistributedClient → W → Result (DistributedClient × W × Attempt A)
  unfolding get_next_healthy_node with_manager mark_success mark_failure is_network_error
  retry_loop zero last dc w = ok (dc, w, errored (exhausted last))
  retry_loop (suc rounds) last dc w = do
    (dc1, node) ← get_next_healthy_node dc
    let (w1, attempt) = operation node w
    elim attempt [
      | returned a ↦ ok (with_manager (mark_success (clock rounds) node) dc1, w1, returned a)
      | errored e ↦
          let dc2 = with_manager (mark_failure (clock rounds) node) dc1 in
          let again = retry_loop rounds (some e) dc2 w1 in
          if is_network_error (some e) then again else ok (dc2, w1, errored e)
    ]

  -- `executeWithRetry`
  unfoldable pub execute_with_retry :
      DistributedClient → W → Result (DistributedClient × W × Attempt A)
  unfolding retry_loop
  execute_with_retry dc w = retry_loop dc.retry_count none dc w
