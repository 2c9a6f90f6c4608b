-- ===== src/Client/Defs.antt =====
-- The client of distributed/client.go and its constructor. Durations and counts are naturals; a
-- negative retry count behaves as no attempt in the code.
use ryan_cache.Prelude.{ℕ, ◌*◌, String, Bool, true, List, Option, some, ◌==◌, if◌then◌else◌}
use ryan_cache.Client.Nodes.{Time, NodeManager, new_node_manager}

pub record ClientConfig : Type 0 where
  pub nodes : List String
  pub timeout : ℕ
  pub retry_count : ℕ
  pub health_check_enabled : Bool
  pub health_check_interval : ℕ
  pub failure_threshold : ℕ
  pub recovery_check_interval : ℕ

pub record DistributedClient : Type 0 where
  pub nodes : List String
  pub current_node : ℕ
  pub retry_count : ℕ
  pub timeout : ℕ
  pub node_manager : Option NodeManager
  pub config : ClientConfig

-- `time.Second`, in nanoseconds.
abbrev pub second : ℕ
second = 1000000000

-- `if x == 0 { x = d }`
abbrev pub or_default : ℕ → ℕ → ℕ
or_default d x = if x == 0 then d else x

-- The defaults that `NewDistributedClient` fills in; a health check cannot be turned off.
unfoldable pub with_defaults : ClientConfig → ClientConfig
with_defaults config = record {
  nodes = config.nodes;
  timeout = or_default (5 * second) config.timeout;
  retry_count = or_default 3 config.retry_count;
  health_check_enabled = true;
  health_check_interval = or_default (30 * second) config.health_check_interval;
  failure_threshold = or_default 3 config.failure_threshold;
  recovery_check_interval = or_default (60 * second) config.recovery_check_interval;
}

-- `NewDistributedClient`
unfoldable pub new_distributed_client : Time → ClientConfig → DistributedClient
unfolding with_defaults new_node_manager
new_distributed_client now config =
    let filled = with_defaults config in
    record {
      nodes = filled.nodes;
      current_node = 0;
      retry_count = filled.retry_count;
      timeout = filled.timeout;
      node_manager = some (new_node_manager now filled.nodes filled.failure_threshold);
      config = filled;
    }
