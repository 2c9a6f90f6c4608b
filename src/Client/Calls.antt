-- ===== src/Client/Calls.antt =====
-- The requests of distributed/client.go and the calls that it offers. The network, and what
-- URLs and bodies carry, are parameters.
use ryan_cache.Prelude.{
  ℕ, String, String_discrete, Bool, List, [], ◌∷◌, Option, none, some, Result, ok, ◌>>=◌, ◌==◌,
  if◌then◌else◌,
}
use ryan_cache.GoMap.{GoMap, insert}
use ryan_cache.Http.{
  Http, Request, Response, transport_error, response, is_ok, status_ok, Wire, with_path,
  CacheResponse, CallError, Attempt, returned, errored, request_failed, bad_status, undecodable,
  at_key, api_cache, api_stats, api_health, admin_cluster,
}
use ryan_cache.Http
use ryan_cache.Client.Nodes.{Time}
use ryan_cache.Client.Defs.{DistributedClient}
use ryan_cache.Client.Retry.{execute_with_retry}

-- The error that a reply stands for, if any: no reply, or another status than 200, with its body.
unfoldable pub check_reply : Response → Attempt String
check_reply (transport_error e) = errored (request_failed e)
check_reply (response status body) =
    if status == status_ok then returned body else errored (bad_status body)

-- `json.NewDecoder(resp.Body).Decode`
unfoldable pub decode : {A : Type 0} → (String → Option A) → Attempt String → Attempt A
decode read (errored e) = errored e
decode read (returned body) = elim (read body) [
  | none ↦ errored (undecodable body)
  | some a ↦ returned a
]

module _ {W : Type 0} (http : Http W) (wire : Wire) where
  -- `setToNode`
  unfoldable pub set_to_node : String → String → String → W → W × Attempt String
  unfolding check_reply
  set_to_node key value node w = with_path wire key w (λ path.
      let (w1, reply) =
        http
          (record {
            verb = Http.put;
            address = node;
            route = api_cache path;
            body = wire.write_value value;
          })
          w in
      (w1, check_reply reply))

  -- `getFromNode`
  unfoldable pub get_from_node : String → String → W → W × Attempt CacheResponse
  unfolding check_reply decode
  get_from_node key node w = with_path wire key w (λ path.
      let (w1, reply) =
        http (record { verb = Http.get; address = node; route = api_cache path; body = "" }) w in
      (w1, decode wire.read_response (check_reply reply)))

  -- `deleteFromNode`
  unfoldable pub delete_from_node : String → String → W → W × Attempt String
  unfolding check_reply
  delete_from_node key node w = with_path wire key w (λ path.
      let (w1, reply) =
        http (record { verb = Http.delete; address = node; route = api_cache path; body = "" }) w in
      (w1, check_reply reply))

  -- `checkNodeHealth`
  unfoldable pub check_node_health : String → W → W × Bool
  unfolding is_ok
  check_node_health node w =
      let (w1, reply) =
        http (record { verb = Http.get; address = node; route = api_health; body = "" }) w in
      (w1, is_ok reply)

  -- The loop of `CheckHealth` over the nodes.
  unfoldable pub check_nodes : List String → GoMap String Bool → W → W × GoMap String Bool
  unfolding check_node_health
  check_nodes [] statuses w = (w, statuses)
  check_nodes (node ∷ nodes) statuses w =
      let (w1, healthy) = check_node_health node w in
      check_nodes nodes (insert String_discrete node healthy statuses) w1

  -- `CheckHealth`
  unfoldable pub check_health : DistributedClient → W → W × GoMap String Bool
  unfolding check_nodes
  check_health dc w = check_nodes dc.nodes [] w

  -- `getStatsFromNode` and `getClusterInfoFromNode`: the same with another route and another body.
  module _ {Info : Type 0} (read_info : String → Option Info) where
    unfoldable pub get_stats_from_node : String → W → W × Attempt Info
    unfolding check_reply decode
    get_stats_from_node node w =
        let (w1, reply) =
          http (record { verb = Http.get; address = node; route = api_stats; body = "" }) w in
        (w1, decode read_info (check_reply reply))

    unfoldable pub get_cluster_info_from_node : String → W → W × Attempt Info
    unfolding check_reply decode
    get_cluster_info_from_node node w =
        let (w1, reply) =
          http (record { verb = Http.get; address = node; route = admin_cluster; body = "" }) w in
        (w1, decode read_info (check_reply reply))

    -- `GetStats`
    unfoldable pub get_stats :
        (ℕ → Time) → DistributedClient → W → Result (DistributedClient × W × Attempt Info)
    unfolding get_stats_from_node execute_with_retry
    get_stats clock dc w = execute_with_retry clock get_stats_from_node dc w

    -- `GetClusterInfo`
    unfoldable pub get_cluster_info :
        (ℕ → Time) → DistributedClient → W → Result (DistributedClient × W × Attempt Info)
    unfolding get_cluster_info_from_node execute_with_retry
    get_cluster_info clock dc w = execute_with_retry clock get_cluster_info_from_node dc w

  module _ (clock : ℕ → Time) where
    -- `Set`
    unfoldable pub set :
        String → String → DistributedClient → W → Result (DistributedClient × W × Attempt String)
    unfolding set_to_node execute_with_retry
    set key value dc w = execute_with_retry clock (set_to_node key value) dc w

    -- `Get`: the value, and whether it was found.
    unfoldable pub get :
        String → DistributedClient → W → Result (DistributedClient × W × Attempt CacheResponse)
    unfolding get_from_node execute_with_retry
    get key dc w = execute_with_retry clock (get_from_node key) dc w

    -- `Delete`
    unfoldable pub delete_key :
        String → DistributedClient → W → Result (DistributedClient × W × Attempt String)
    unfolding delete_from_node execute_with_retry
    delete_key key dc w = execute_with_retry clock (delete_from_node key) dc w

  -- The batches stop at the first error. `clock` is that of each key, in turn.
  module _ (clock : String → ℕ → Time) where
    -- `BatchSet`, over the entries of its map.
    unfoldable pub batch_set :
        List (String × String)
        → DistributedClient
        → W
        → Result (DistributedClient × W × Option CallError)
    unfolding set
    batch_set [] dc w = ok (dc, w, none)
    batch_set ((key, value) ∷ entries) dc w = do
      (dc1, w1, attempt) ← set (clock key) key value dc w
      elim attempt [
        | returned body ↦ batch_set entries dc1 w1
        | errored e ↦ ok (dc1, w1, some (at_key key e))
      ]

    -- The loop of `BatchGet`, with the map of results.
    unfoldable pub get_each :
        List String
        → GoMap String String
        → DistributedClient
        → W
        → Result (DistributedClient × W × Attempt (GoMap String String))
    unfolding get
    get_each [] result dc w = ok (dc, w, returned result)
    get_each (key ∷ keys) result dc w = do
      (dc1, w1, attempt) ← get (clock key) key dc w
      elim attempt [
        | errored e ↦ ok (dc1, w1, errored (at_key key e))
        | returned reply ↦
            get_each keys
              (if reply.found then insert String_discrete key reply.value result else result) dc1 w1
      ]

    -- `BatchGet`
    unfoldable pub batch_get :
        List String
        → DistributedClient
        → W
        → Result (DistributedClient × W × Attempt (GoMap String String))
    unfolding get_each
    batch_get keys dc w = get_each keys [] dc w

    -- `BatchDelete`
    unfoldable pub batch_delete :
        List String → DistributedClient → W → Result (DistributedClient × W × Option CallError)
    unfolding delete_key
    batch_delete [] dc w = ok (dc, w, none)
    batch_delete (key ∷ keys) dc w = do
      (dc1, w1, attempt) ← delete_key (clock key) key dc w
      elim attempt [
        | returned body ↦ batch_delete keys dc1 w1
        | errored e ↦ ok (dc1, w1, some (at_key key e))
      ]
