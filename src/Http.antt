-- ===== src/Http.antt =====
-- HTTP as the files of distributed/ use it: the requests that they build and the replies that they
-- read. A URL is kept as the parts that `fmt.Sprintf` puts together, an address and a route. The
-- network and the packages that read and write what is sent are parameters of what uses them.
use ryan_cache.Prelude.{ℕ, String, Bool, false, Option, none, some, ◌==◌}

pub data Verb : Type 0 where
  get put post delete : Verb

-- The paths below an address; of a path that ends in a key, its end as it is sent.
pub data Route : Type 0 where
  api_cache internal_cache : String → Route
  api_stats api_health admin_cluster admin_nodes admin_rebalance admin_metrics : Route
  internal_join internal_leave internal_sync_add internal_sync_remove internal_health : Route

pub record Request : Type 0 where
  pub verb : Verb
  pub address : String
  pub route : Route
  pub body : String

-- What `http.Client.Do` answers: an error of the transport, or a status and a body.
pub data Response : Type 0 where
  transport_error : String → Response
  response : ℕ → String → Response

-- The network: what is behind it may change with a request.
abbrev pub Http : Type 0 → Type 0
Http W = Request → W → W × Response

abbrev pub status_ok : ℕ
status_ok = 200

-- `resp.StatusCode == http.StatusOK`, with an error of the transport counted as a failure.
unfoldable pub is_ok : Response → Bool
is_ok (transport_error e) = false
is_ok (response status body) = status == status_ok

-- The body of a reply to a read of a key.
pub record CacheResponse : Type 0 where
  pub key : String
  pub value : String
  pub found : Bool
  pub node_id : String
  pub message : String

-- What is sent, as the packages of net/http, gin and encoding/json have it. A key is written into a
-- URL as it is: `send_path` is the end of the path that such a URL has (a query or a fragment is not
-- in it), and none where the URL does not parse; `path_key` is what the parameter `:key` of a route
-- holds for that end, and none where no route matches. The others are the JSON of the bodies: a
-- request's value, with the test that it is there, and a reply.
pub record Wire : Type 0 where
  pub send_path : String → Option String
  pub path_key : String → Option String
  pub write_value : String → String
  pub bind_value : String → Option String
  pub write_response : CacheResponse → String
  pub read_response : String → Option CacheResponse

-- The errors that the calls return, with what their messages quote.
pub data CallError : Type 0 where
  request_failed bad_status undecodable no_target : String → CallError
  no_attempts : CallError
  all_nodes_failed : CallError → CallError
  at_key : String → CallError → CallError

-- A call that answers or returns an error.
pub data Attempt {ℓ} (A : Type ℓ) : Type ℓ where
  returned : A → Attempt A
  errored : CallError → Attempt A

-- A request to a URL that ends in a key; where the URL does not parse, the error is returned and
-- nothing is sent.
abbrev pub with_path :
    {W : Type 0} {A : Type 0} → Wire → String → W → (String → W × Attempt A) → W × Attempt A
with_path wire key w send = elim (wire.send_path key) [
  | none ↦ (w, errored (request_failed key))
  | some path ↦ send path
]
