-- ===== src/Client/Tests.antt =====
-- Runs of the node manager of distributed/client.go, and each theorem about it at a run in which three
-- failures make a node unhealthy.
use ryan_cache.Prelude.{
  ℕ, ◌+◌, ◌≤◌, if◌then◌else◌, ◌<◌, ◌≡◌, ◌↔◌, refl, true, false, String, String_discrete, List, [],
  ◌∷◌, some, arith, ok, length,
}
use text.Mathlib.Text.{◌==◌}
use ryan_cache.GoMap.{lookup, insert}
use ryan_cache.Client.Nodes.{
  NodeManager, NodeStatus, get_healthy_nodes, new_node_manager, add_statuses, healthy_of, contains,
  failed, ensure_node_in_active_list, mark_success, mark_failure, check_single_node,
}
use ryan_cache.Client.Health.{Event, success, failure, checked, run, step}
use ryan_cache.Client.Health
use ryan_cache.Client.Rounds
use ryan_cache.Client.Defs.{ClientConfig, DistributedClient, new_distributed_client, with_defaults}
use ryan_cache.Client.Retry.{execute_with_retry}
use ryan_cache.Client.Bounds
use ryan_cache.Client.Bounds.{HasSeeds, IsError, counted}
use ryan_cache.Http.{Attempt, returned, errored, request_failed}
use ryan_cache.Client.Rounds.{get_next_healthy_node, IsChoice}

program : Unit {0}
unfolding run step new_node_manager add_statuses get_healthy_nodes healthy_of contains failed
    ensure_node_in_active_list mark_success mark_failure check_single_node lookup insert
    new_distributed_client with_defaults String_discrete
program = tt

abbrev nodes : List String
nodes = "a" ∷ "b" ∷ []

abbrev failures : List Event
failures = failure 1 "a" ∷ failure 2 "a" ∷ checked 3 false "a" ∷ []

failed_run : get_healthy_nodes (run failures (new_node_manager 0 nodes 3)) ≡ "b" ∷ []
unfolding program
failed_run = refl

recovered_run :
    get_healthy_nodes (run (checked 4 true "a" ∷ []) (run failures (new_node_manager 0 nodes 3)))
    ≡ "a" ∷ "b" ∷ []
unfolding program
recovered_run = refl

abbrev down : NodeStatus
down = record {
  address = "a";
  is_healthy = false;
  failure_count = 3;
  last_check_time = 3;
  last_failure_time = 3;
  last_success_time = 0;
}

history-Agrees_example : (down.is_healthy ≡ true) ↔ (down.failure_count < 3)
unfolding program
history-Agrees_example = Health.history-Agrees 3 (omega arith) 0 nodes failures "a" down refl

abbrev half_down : NodeManager
half_down = run failures (new_node_manager 0 nodes 3)

abbrev settings : ClientConfig
settings = record {
  nodes = nodes;
  timeout = 0;
  retry_count = 2;
  health_check_enabled = false;
  health_check_interval = 0;
  failure_threshold = 3;
  recovery_check_interval = 0;
}

abbrev client : DistributedClient
client = record (new_distributed_client 0 settings) {
  current_node = 1;
  node_manager = some half_down;
}

get_next_healthy_node-IsChoice_example :
    (dc1 : DistributedClient) × (n : String) × (get_next_healthy_node client ≡ ok (dc1, n))
    × IsChoice half_down n
    × (dc1.current_node < length (get_healthy_nodes half_down))
unfolding program
get_next_healthy_node-IsChoice_example =
    Rounds.get_next_healthy_node-IsChoice half_down client refl (omega arith)

-- A node "a" that is down, and a count of what the node "b" has answered.
abbrev ask : String → ℕ → ℕ × Attempt String
ask node w =
    if node == "b" then (w + 1, returned "pong") else (w, errored (request_failed "refused"))

fresh-HasSeeds : HasSeeds (new_distributed_client 0 settings)
unfolding program
fresh-HasSeeds = record {
  manager = new_node_manager 0 nodes 3;
  managed = refl;
  seeded = omega arith;
}

execute_with_retry_bounds_example :
    (dc1 : DistributedClient) × (w1 : ℕ) × (calls : ℕ) × (attempt : Attempt String)
    × (execute_with_retry (λ left. left) (counted ask) (new_distributed_client 0 settings) (0, 0)
        ≡ ok (dc1, (w1, calls), attempt))
    × (calls ≤ (new_distributed_client 0 settings).retry_count)
    × (IsError attempt → calls ≡ (new_distributed_client 0 settings).retry_count)
    × HasSeeds dc1
execute_with_retry_bounds_example =
    Bounds.execute_with_retry_bounds (λ left. left) ask (new_distributed_client 0 settings) 0
      fresh-HasSeeds
