-- ===== src/Client/Nodes.antt =====
-- The node manager of distributed/client.go: which nodes the client takes for healthy. Each method
-- holds the manager's lock for its whole body; `now` is the time that it reads. A failure threshold
-- is a natural; the code's default is 3.
use ryan_cache.Prelude.{
  ℕ, ◌+◌, String, String_discrete, Bool, true, false, List, [], ◌∷◌, ◌++◌, Option, none, some, ite,
  leb, if◌then◌else◌,
}
use ryan_cache.GoMap.{GoMap, lookup, insert}

abbrev pub Time : Type 0
Time = ℕ

pub record NodeStatus : Type 0 where
  pub address : String
  pub is_healthy : Bool
  pub failure_count : ℕ
  pub last_check_time : Time
  pub last_failure_time : Time
  pub last_success_time : Time

-- The statuses are reached from the map alone, each under one name, so that it holds them by value.
pub record NodeManager : Type 0 where
  pub seed_nodes : List String
  pub active_nodes : List String
  pub node_status : GoMap String NodeStatus
  pub failure_threshold : ℕ

abbrev pub status_of : String → NodeManager → Option NodeStatus
status_of node nm = lookup String_discrete node nm.node_status

abbrev pub put_status : String → NodeStatus → NodeManager → NodeManager
put_status node status nm = record nm {
  node_status = insert String_discrete node status nm.node_status;
}

-- `slices.Contains`
unfoldable pub contains : String → List String → Bool
contains node [] = false
contains node (n ∷ nodes) = let rest = contains node nodes in ite (String_discrete n node) true rest

-- The status that `NewNodeManager` gives a node; the zero time is 0.
abbrev pub new_status : Time → String → NodeStatus
new_status now node = record {
  address = node;
  is_healthy = true;
  failure_count = 0;
  last_check_time = now;
  last_failure_time = 0;
  last_success_time = now;
}

-- The loop of `NewNodeManager`.
unfoldable pub add_statuses : Time → List String → NodeManager → NodeManager
add_statuses now [] nm = nm
add_statuses now (node ∷ nodes) nm =
    add_statuses now nodes (put_status node (new_status now node) nm)

-- `NewNodeManager`, up to the routines that it starts.
unfoldable pub new_node_manager : Time → List String → ℕ → NodeManager
unfolding add_statuses
new_node_manager now nodes threshold = add_statuses now nodes record {
  seed_nodes = nodes;
  active_nodes = nodes;
  node_status = [];
  failure_threshold = threshold;
}

unfoldable pub healthy_of : GoMap String NodeStatus → List String → List String
healthy_of statuses [] = []
healthy_of statuses (node ∷ nodes) =
    let rest = healthy_of statuses nodes in
    elim (lookup String_discrete node statuses) [
      | none ↦ rest
      | some status ↦ if status.is_healthy then node ∷ rest else rest
    ]

-- `GetHealthyNodes`
unfoldable pub get_healthy_nodes : NodeManager → List String
unfolding healthy_of
get_healthy_nodes nm = elim (healthy_of nm.node_status nm.active_nodes) [
  | [] ↦ nm.seed_nodes
  | n ∷ nodes ↦ n ∷ nodes
]

-- `ensureNodeInActiveList`
unfoldable pub ensure_node_in_active_list : String → NodeManager → NodeManager
unfolding contains
ensure_node_in_active_list node nm =
    if contains node nm.active_nodes
    then nm
    else record nm { active_nodes = nm.active_nodes ++ node ∷ [] }

abbrev pub recovered : Time → NodeStatus → NodeStatus
recovered now status = record status {
  is_healthy = true;
  failure_count = 0;
  last_success_time = now;
}

-- The status after one more failure.
unfoldable pub failed : Time → ℕ → NodeStatus → NodeStatus
failed now threshold status =
    let counted = record status {
      failure_count = status.failure_count + 1;
      last_failure_time = now;
    } in
    if leb threshold (status.failure_count + 1)
    then record counted { is_healthy = false }
    else counted

-- `MarkSuccess`
unfoldable pub mark_success : Time → String → NodeManager → NodeManager
unfolding ensure_node_in_active_list
mark_success now node nm = elim (status_of node nm) [
  | none ↦ nm
  | some status ↦ ensure_node_in_active_list node (put_status node (recovered now status) nm)
]

-- `MarkFailure`
unfoldable pub mark_failure : Time → String → NodeManager → NodeManager
unfolding failed
mark_failure now node nm = elim (status_of node nm) [
  | none ↦ nm
  | some status ↦ put_status node (failed now nm.failure_threshold status) nm
]

-- `checkSingleNode`, with the answer of the health check as an argument.
unfoldable pub check_single_node : Time → Bool → String → NodeManager → NodeManager
unfolding ensure_node_in_active_list failed
check_single_node now healthy node nm = elim (status_of node nm) [
  | none ↦ nm
  | some status ↦
      let checked = record status { last_check_time = now } in
      if healthy
      then (if status.is_healthy
          then put_status node checked nm
          else ensure_node_in_active_list node (put_status node (recovered now checked) nm))
      else put_status node (failed now nm.failure_threshold checked) nm
]
