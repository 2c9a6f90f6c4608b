-- ===== src/Node/Forwarding.antt =====
-- The requests that distributed/api_handlers.go passes on by itself; no handler calls these.
use ryan_cache.Prelude.{String, String_discrete, Option, none, some}
use ryan_cache.GoMap.{lookup}
use ryan_cache.Http.{
  Http, Request, Response, transport_error, response, Wire, with_path, CacheResponse, Attempt,
  returned, errored, request_failed, undecodable, no_target, internal_cache,
}
use ryan_cache.Http
use ryan_cache.Node.Manager.{get_nodes}
use ryan_cache.Node.Coordinator.{ClusterCoordinator}

-- `getNodeAddress`
unfoldable pub get_node_address : String → ClusterCoordinator → Option String
get_node_address id cc = elim (lookup String_discrete id (get_nodes cc.cluster)) [
  | none ↦ none
  | some info ↦ some info.address
]

-- What `forwardGetRequest` and `forwardSetRequest` read of a reply, whatever its status.
unfoldable pub read_forwarded : Wire → Response → Attempt CacheResponse
read_forwarded wire (transport_error e) = errored (request_failed e)
read_forwarded wire (response status body) = elim (wire.read_response body) [
  | none ↦ errored (undecodable body)
  | some r ↦ returned r
]

-- `forwardGetRequest`.
unfoldable pub forward_get_request :
    {W : Type 0}
    → Http W
    → Wire
    → String
    → String
    → ClusterCoordinator
    → W
    → W × Attempt CacheResponse
unfolding get_node_address read_forwarded
forward_get_request http wire id key cc w = elim (get_node_address id cc) [
  | none ↦ (w, errored (no_target id))
  | some address ↦ with_path wire key w (λ path.
      let (w1, reply) =
        http (record { verb = Http.get; address = address; route = internal_cache path; body = "" })
          w in
      (w1, read_forwarded wire reply))
]

-- `forwardSetRequest`.
unfoldable pub forward_set_request :
    {W : Type 0}
    → Http W
    → Wire
    → String
    → String
    → String
    → ClusterCoordinator
    → W
    → W × Attempt CacheResponse
unfolding get_node_address read_forwarded
forward_set_request http wire id key value cc w = elim (get_node_address id cc) [
  | none ↦ (w, errored (no_target id))
  | some address ↦ with_path wire key w (λ path.
      let (w1, reply) =
        http
          (record {
            verb = Http.put;
            address = address;
            route = internal_cache path;
            body = wire.write_value value;
          })
          w in
      (w1, read_forwarded wire reply))
]
