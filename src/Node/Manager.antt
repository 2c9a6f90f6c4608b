-- ===== src/Node/Manager.antt =====
-- distributed/cluster_manager.go: what a node knows of the health of the others. The network is a
-- parameter; `now` is the time that a method reads, and `took` the milliseconds that it measures.
use ryan_cache.Prelude.{
  ℕ, suc, ◌/◌, String, String_discrete, Bool, true, false, List, [], ◌∷◌, Option, none, some,
  Result, ok, panic, closed_channel, ite, leb, if◌then◌else◌, length,
}
use ryan_cache.GoMap.{GoMap, lookup, insert, delete}
use ryan_cache.Http.{Http, Response, is_ok, internal_health, internal_join, internal_leave, Route}
use ryan_cache.Http
use ryan_cache.Lru.Defs.{Time}

-- The three texts that a status can be.
pub data Status : Type 0 where
  healthy unhealthy unknown : Status

-- A response time in milliseconds, or -1.
pub data Millis : Type 0 where
  millis : ℕ → Millis
  minus_one : Millis

pub record NodeInfo : Type 0 where
  pub node_id : String
  pub address : String
  pub status : Status
  pub last_seen : Time
  pub response_time : Millis

pub record ClusterManager : Type 0 where
  pub node_id : String
  pub nodes : GoMap String NodeInfo
  pub stopped : Bool

pub record ClusterStatus : Type 0 where
  pub total_nodes : ℕ
  pub healthy_nodes : ℕ
  pub unhealthy_nodes : ℕ
  pub nodes : List NodeInfo
  pub last_update : Time

abbrev pub new_info : Time → String → String → NodeInfo
new_info now id address = record {
  node_id = id;
  address = address;
  status = unknown;
  last_seen = now;
  response_time = millis 0;
}

abbrev pub info_of : String → ClusterManager → Option NodeInfo
info_of id cm = lookup String_discrete id cm.nodes

abbrev pub put_info : String → NodeInfo → ClusterManager → ClusterManager
put_info id info cm = record cm { nodes = insert String_discrete id info cm.nodes }

-- `AddNode`
unfoldable pub add_node : Time → String → String → ClusterManager → ClusterManager
add_node now id address cm = put_info id (new_info now id address) cm

-- `RemoveNode`
unfoldable pub remove_node : String → ClusterManager → ClusterManager
remove_node id cm = record cm { nodes = delete String_discrete id cm.nodes }

-- The loop of `NewClusterManager` over the configured nodes.
unfoldable pub add_nodes : Time → List (String × String) → ClusterManager → ClusterManager
unfolding add_node
add_nodes now [] cm = cm
add_nodes now ((id, address) ∷ entries) cm = add_nodes now entries (add_node now id address cm)

-- `NewClusterManager`
unfoldable pub new_cluster_manager : Time → String → List (String × String) → ClusterManager
unfolding add_nodes
new_cluster_manager now id entries =
    add_nodes now entries record { node_id = id; nodes = []; stopped = false }

abbrev pub is_healthy_status : Status → Bool
is_healthy_status healthy = true
is_healthy_status unhealthy = false
is_healthy_status unknown = false

unfoldable pub count_healthy : GoMap String NodeInfo → ℕ
count_healthy [] = 0
count_healthy ((id, info) ∷ nodes) =
    if is_healthy_status info.status then suc (count_healthy nodes) else count_healthy nodes

-- The other branch of the loop of `GetClusterStatus`.
unfoldable pub count_unhealthy : GoMap String NodeInfo → ℕ
count_unhealthy [] = 0
count_unhealthy ((id, info) ∷ nodes) =
    if is_healthy_status info.status then count_unhealthy nodes else suc (count_unhealthy nodes)

unfoldable pub infos : GoMap String NodeInfo → List NodeInfo
infos [] = []
infos ((id, info) ∷ nodes) = info ∷ infos nodes

-- `GetClusterStatus`
unfoldable pub get_cluster_status : Time → ClusterManager → ClusterStatus
unfolding count_healthy count_unhealthy infos
get_cluster_status now cm = record {
  total_nodes = length cm.nodes;
  healthy_nodes = count_healthy cm.nodes;
  unhealthy_nodes = count_unhealthy cm.nodes;
  nodes = infos cm.nodes;
  last_update = now;
}

-- `GetHealthyNodes`
unfoldable pub get_healthy_nodes : GoMap String NodeInfo → GoMap String NodeInfo
get_healthy_nodes [] = []
get_healthy_nodes ((id, info) ∷ nodes) =
    if is_healthy_status info.status
    then (id, info) ∷ get_healthy_nodes nodes
    else get_healthy_nodes nodes

-- `IsHealthy`
unfoldable pub is_healthy : ClusterManager → Bool
unfolding count_healthy
is_healthy cm = leb (length cm.nodes / 2) (count_healthy cm.nodes)

-- What a round of `performHealthCheck` makes of a node's record.
unfoldable pub after_check : Time → ℕ → Bool → NodeInfo → NodeInfo
after_check now took up info =
    if up
    then record info { status = healthy; last_seen = now; response_time = millis took }
    else record info { status = unhealthy; response_time = minus_one }

-- The nodes that `Leave` collects: those whose own name is another one.
unfoldable pub others : String → List (String × NodeInfo) → List NodeInfo
others self [] = []
others self ((id, info) ∷ nodes) =
    let rest = others self nodes in ite (String_discrete info.node_id self) rest (info ∷ rest)

-- `GetNodes`: a copy of the map.
abbrev pub get_nodes : ClusterManager → GoMap String NodeInfo
get_nodes cm = cm.nodes

-- `Stop`: a second call closes a closed channel.
unfoldable pub stop : ClusterManager → Result ClusterManager
stop cm = if cm.stopped then panic closed_channel else ok (record cm { stopped = true })

module _ {W : Type 0} (http : Http W) where
  -- `checkNodeHealth`
  unfoldable pub check_node_health : String → W → W × Bool
  unfolding is_ok
  check_node_health address w =
      let (w1, reply) =
        http (record { verb = Http.get; address = address; route = internal_health; body = "" })
          w in
      (w1, is_ok reply)

  -- A round, for the node under `id`; `took` is the time that its check takes.
  unfoldable pub check_node : Time → ℕ → String → ClusterManager → W → ClusterManager × W
  unfolding check_node_health after_check
  check_node now took id cm w = elim (info_of id cm) [
    | none ↦ (cm, w)
    | some info ↦
        let other : ClusterManager × W =
          (let (w1, up) = check_node_health info.address w in
            (put_info id (after_check now took up info) cm, w1)) in
        let self : ClusterManager × W =
          (put_info id (record info { status = healthy; last_seen = now }) cm, w) in
        ite (String_discrete id cm.node_id) self other
  ]

  -- `performHealthCheck`, over the nodes in the order in which the loop visits them.
  unfoldable pub perform_health_check :
      Time → (String → ℕ) → List String → ClusterManager → W → ClusterManager × W
  unfolding check_node
  perform_health_check now took [] cm w = (cm, w)
  perform_health_check now took (id ∷ ids) cm w =
      let (cm1, w1) = check_node now (took id) id cm w in perform_health_check now took ids cm1 w1

  -- `notifyNodeJoin` and `notifyNodeLeave`, by their route: a notice whose reply is only logged.
  unfoldable pub notify : Route → String → String → W → W
  notify route body address w =
      (http (record { verb = Http.post; address = address; route = route; body = body }) w).0

  -- The loop of `announceToCluster` over the other nodes.
  unfoldable pub notify_others : String → String → List (String × NodeInfo) → W → W
  unfolding notify
  notify_others body self [] w = w
  notify_others body self ((id, info) ∷ nodes) w =
      let told = notify_others body self nodes (notify internal_join body info.address w) in
      let skipped = notify_others body self nodes w in ite (String_discrete id self) skipped told

  -- `announceToCluster`; `join_body` is the JSON of the node's own name and address.
  unfoldable pub announce_to_cluster :
      (String → String → String) → List (String × NodeInfo) → ClusterManager → W → W
  unfolding notify_others
  announce_to_cluster join_body visited cm w = elim (info_of cm.node_id cm) [
    | none ↦ w
    | some info ↦ notify_others (join_body cm.node_id info.address) cm.node_id visited w
  ]

  -- The loop of `Leave` over the nodes that it collected.
  unfoldable pub notify_all : String → List NodeInfo → W → W
  unfolding notify
  notify_all body [] w = w
  notify_all body (info ∷ nodes) w =
      notify_all body nodes (notify internal_leave body info.address w)

  -- `Leave`; `leave_body` is the JSON of the node's own name.
  unfoldable pub leave : (String → String) → List (String × NodeInfo) → ClusterManager → W → W
  unfolding others notify_all
  leave leave_body visited cm w = notify_all (leave_body cm.node_id) (others cm.node_id visited) w
