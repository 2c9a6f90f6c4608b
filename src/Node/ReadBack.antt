-- ===== src/Node/ReadBack.antt =====
-- A write and a read of a client over two nodes of one network (distributed/client.go to
-- core/lrucache.go).
use ryan_cache.Prelude.{
  ℕ, ◌≡◌, ◌≢◌, refl, sym, subst, ◌∙◌, String, String_discrete, true, some, arith, ok,
}
use ryan_cache.GoMap.{lookup, insert, lookup-insert}
use ryan_cache.Lru.Defs.{LruCache}
use ryan_cache.Lru.Methods
use ryan_cache.Lru.Methods.{set_internal}
use ryan_cache.Lru.Behaviour
use ryan_cache.Cluster.Service.{IsPlain, plain-Fits, plain-IsLive}
use ryan_cache.Http.{Wire, CacheResponse, returned, status_ok, response, api_cache}
use ryan_cache.Client.Calls.{set_to_node, get_from_node}
use ryan_cache.Node.Coordinator.{ClusterCoordinator, Run}
use ryan_cache.Node.Handlers.{Bodies}
use ryan_cache.Node.Routes.{Network, from_client}
use ryan_cache.Node.EndToEnd.{
  with_cache, put_request, get_request, Agrees, put_here, put_there, get_here, get_there, found_it,
}

at-insert_same :
    (a : String) (cc : ClusterCoordinator) (net : Network)
    → lookup String_discrete a (insert String_discrete a cc net) ≡ some cc
at-insert_same a cc net = ground (arith, lookup-insert String_discrete a a cc net)

at-insert_other :
    (a b : String) (cc : ClusterCoordinator) (net : Network)
    → a ≢ b
    → lookup String_discrete b (insert String_discrete a cc net) ≡ lookup String_discrete b net
at-insert_other a b cc net ne = ground (arith, lookup-insert String_discrete a b cc net)

-- Only the cache of the owner has changed.
record Changed (net net1 : Network) (owner : String) (cc : ClusterCoordinator) (c1 : LruCache)
    : Type 0 where
  at_owner : lookup String_discrete owner net1 ≡ some (with_cache cc c1)
  elsewhere :
      (x : String) → owner ≢ x → lookup String_discrete x net1 ≡ lookup String_discrete x net

module _ (net : Network) (at owner : String) (other cc : ClusterCoordinator) (c1 : LruCache) where
  at_node-Changed : Changed net (insert String_discrete owner (with_cache cc c1) net) owner cc c1
  at_node-Changed = record {
    at_owner = at-insert_same owner (with_cache cc c1) net;
    elsewhere = λ x ne. at-insert_other owner x (with_cache cc c1) net ne;
  }

  at_other-Changed :
      lookup String_discrete at net ≡ some other
      → at ≢ owner
      → Changed net
          (insert String_discrete at other (insert String_discrete owner (with_cache cc c1) net))
          owner
          cc
          c1
  at_other-Changed e apart =
      let mid = insert String_discrete owner (with_cache cc c1) net in
      record {
        at_owner = at-insert_other at owner other mid apart ∙ at_node-Changed.at_owner;
        elsewhere = λ x ne. elim (String_discrete at x) [
          | yes p ↦
              subst
                (λ y.
                  lookup String_discrete y (insert String_discrete at other mid)
                  ≡ lookup String_discrete y net)
                p (at-insert_same at other mid ∙ sym e)
          | no q ↦ at-insert_other at x other mid q ∙ at_node-Changed.elsewhere x ne
        ];
      }

-- The reply of a node to a write of a key that it has.
abbrev stored : String → String → ClusterCoordinator → CacheResponse
stored key value cc = record {
  key = key;
  value = value;
  found = true;
  node_id = cc.node.node_id;
  message = "success";
}

module _ (sha1 : String → ℕ → ℕ) (wire : Wire) (bodies : Bodies) (run : Run)
    (key value path : String) (sent : wire.send_path key ≡ some path)
    (taken : wire.path_key path ≡ some key) where
  -- What the client makes of a reply with status 200.
  set_to_node_lem :
      (at : String) (net net1 : Network) (r : CacheResponse)
      → from_client sha1 wire bodies run
          (put_request sha1 wire bodies run key value at (api_cache path))
          net
        ≡ (net1, response status_ok (wire.write_response r))
      → set_to_node (from_client sha1 wire bodies run) wire key value at net
        ≡ (net1, returned (wire.write_response r))
  unfolding set_to_node
  set_to_node_lem at net net1 r e = ground (arith, sent, e)

  get_from_node_lem :
      (at : String) (net net1 : Network) (r : CacheResponse)
      → wire.read_response (wire.write_response r) ≡ some r
      → from_client sha1 wire bodies run
          (get_request sha1 wire bodies run key value at (api_cache path))
          net
        ≡ (net1, response status_ok (wire.write_response r))
      → get_from_node (from_client sha1 wire bodies run) wire key at net ≡ (net1, returned r)
  unfolding get_from_node
  get_from_node_lem at net net1 r back e = ground (arith, sent, e, back)

  write :
      (net : Network) (target owner at : String) (other cc : ClusterCoordinator) (c1 : LruCache)
      → wire.bind_value (wire.write_value value) ≡ some value
      → Agrees sha1 wire bodies run key value net target owner
      → lookup String_discrete at net ≡ some other
      → lookup String_discrete owner net ≡ some cc
      → set_internal key value cc.node.local_cache ≡ ok c1
      → (net1 : Network) × (body : String) × (set_to_node
            (from_client sha1 wire bodies run)
            wire
            key
            value
            at
            net
          ≡ (net1, returned body))
        × Changed net net1 owner cc c1
  write net target owner at other cc c1 bound agrees e f ran = elim (String_discrete at owner) [
    | yes p ↦
        let net1 : Network = insert String_discrete owner (with_cache cc c1) net in
        let here =
          put_here sha1 wire bodies run key value path sent taken bound owner target cc c1 net f
            (agrees.routed owner cc f) ((agrees.named owner cc f).1 refl) ran in
        (
          _,
          _,
          subst
              (λ a.
                set_to_node (from_client sha1 wire bodies run) wire key value a net
                ≡ (net1, returned (wire.write_response (stored key value cc))))
              (sym p) (set_to_node_lem owner net net1 (stored key value cc) here),
          at_node-Changed net at owner other cc c1,
        )
    | no q ↦
        let away = λ (t : target ≡ other.node.node_id). q ((agrees.named at other e).0 t) in
        let there =
          put_there sha1 wire bodies run key value path sent taken bound at owner target other cc c1
            net e f (agrees.routed at other e) away (agrees.known at other e away) ran in
        (_, _, set_to_node_lem at net _ _ there, at_other-Changed net at owner other cc c1 e q)
  ]

  read :
      (net net1 : Network) (target owner at : String) (other cc : ClusterCoordinator)
      (c1 c2 : LruCache)
      → ((id : String)
          → wire.read_response (wire.write_response (found_it key value id))
            ≡ some (found_it key value id))
      → Agrees sha1 wire bodies run key value net target owner
      → Changed net net1 owner cc c1
      → lookup String_discrete at net ≡ some other
      → lookup String_discrete owner net ≡ some cc
      → Methods.get run.now key c1 ≡ ok (c2, (value, true))
      → (net2 : Network) × (r : CacheResponse) × (get_from_node
            (from_client sha1 wire bodies run)
            wire
            key
            at
            net1
          ≡ (net2, returned r))
        × (r.value ≡ value)
        × (r.found ≡ true)
  read net net1 target owner at other cc c1 c2 back agrees ch e f ran =
      elim (String_discrete at owner) [
        | yes p ↦
            let net2 : Network =
              insert String_discrete owner (with_cache (with_cache cc c1) c2) net1 in
            let here =
              get_here sha1 wire bodies run key value path sent taken back owner target
                (with_cache cc c1) c2 net1 ch.at_owner (agrees.routed owner cc f)
                ((agrees.named owner cc f).1 refl) ran in
            (
              _,
              _,
              subst
                  (λ a.
                    get_from_node (from_client sha1 wire bodies run) wire key a net1
                    ≡ (net2, returned (found_it key value cc.node.node_id)))
                  (sym p)
                  (get_from_node_lem owner net1 net2 (found_it key value cc.node.node_id)
                    (back cc.node.node_id) here),
              refl,
              refl,
            )
        | no q ↦
            let away = λ (t : target ≡ other.node.node_id). q ((agrees.named at other e).0 t) in
            let here = ch.elsewhere at (λ o. q (sym o)) ∙ e in
            let there =
              get_there sha1 wire bodies run key value path sent taken back at owner target other
                (with_cache cc c1) c2 net1 here ch.at_owner (agrees.routed at other e) away
                (agrees.known at other e away) ran in
            (
              _,
              found_it key value other.node.node_id,
              get_from_node_lem at net1 _ _ (back _) there,
              refl,
              refl,
            )
      ]

  -- For a key that a URL ends in and that a route reads from it as it was written, in a network of
  -- nodes that agree on the key, where the node that has it keeps a well-formed cache and the JSON of
  -- the value and of a reply with it is read as it was written: a value that a client sets at any node
  -- is what a client then reads at any node.
  pub get-set_network :
      (net : Network) (target owner : String) (cc : ClusterCoordinator) (at1 at2 : String)
      (node1 node2 : ClusterCoordinator)
      → wire.bind_value (wire.write_value value) ≡ some value
      → ((id : String)
          → wire.read_response (wire.write_response (found_it key value id))
            ≡ some (found_it key value id))
      → Agrees sha1 wire bodies run key value net target owner
      → lookup String_discrete owner net ≡ some cc
      → IsPlain cc.node.local_cache
      → lookup String_discrete at1 net ≡ some node1
      → lookup String_discrete at2 net ≡ some node2
      → (net1 : Network) × (net2 : Network) × (body : String) × (r : CacheResponse) × (set_to_node
            (from_client sha1 wire bodies run)
            wire
            key
            value
            at1
            net
          ≡ (net1, returned body))
        × (get_from_node (from_client sha1 wire bodies run) wire key at2 net1 ≡ (net2, returned r))
        × (r.value ≡ value)
        × (r.found ≡ true)
  get-set_network net target owner cc at1 at2 node1 node2 bound back agrees f p e1 e2 =
      let c = cc.node.local_cache in
      let (c1, c2, ran, ran2) =
        Behaviour.get-set run.now key value c p.nodes p.reps p.valid (plain-Fits key value c p)
          (plain-IsLive run.now key c p) in
      let (net1, body, wrote, ch) = write net target owner at1 node1 cc c1 bound agrees e1 f ran in
      let (net2, r, got, v, found) =
        read net net1 target owner at2 node2 cc c1 c2 back agrees ch e2 f ran2 in
      (net1, net2, body, r, wrote, got, v, found)
