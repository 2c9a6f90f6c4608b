-- ===== src/Node/Health.antt =====
-- What the checks of distributed/cluster_manager.go amount to.
use ryan_cache.Prelude.{
  ℕ, ◌+◌, ◌*◌, ◌≤◌, ◌≡◌, ◌≢◌, ◌↔◌, ◌⊎◌, refl, sym, ap, subst, subst₂, ◌∙◌, inl, inr, String,
  String_discrete, Bool, true, false, List, [], Option, ◌∷◌, none, some, arith, leb→le,
  Option-cases, length,
}
use ryan_cache.GoMap.{GoMap, lookup-insert}
use ryan_cache.Lru.Defs.{Time}
use ryan_cache.Http.{Http, Request, is_ok, internal_health}
use ryan_cache.Http
use ryan_cache.Node.Manager.{
  healthy, unhealthy, NodeInfo, ClusterManager, count_healthy, count_unhealthy, get_cluster_status,
  get_healthy_nodes, is_healthy, infos, info_of, put_info, check_node, check_node_health,
  after_check, perform_health_check,
}

count_both :
    (nodes : GoMap String NodeInfo) → count_healthy nodes + count_unhealthy nodes ≡ length nodes
unfolding count_healthy count_unhealthy
count_both [] = omega arith
count_both ((id, info) ∷ nodes) = ground (arith, count_both nodes)

healthy-length :
    (nodes : GoMap String NodeInfo) → length (get_healthy_nodes nodes) ≡ count_healthy nodes
unfolding count_healthy get_healthy_nodes
healthy-length [] = omega arith
healthy-length ((id, info) ∷ nodes) = ground (arith, healthy-length nodes)

infos-length : (nodes : GoMap String NodeInfo) → length (infos nodes) ≡ length nodes
unfolding infos
infos-length [] = omega arith
infos-length ((id, info) ∷ nodes) = omega (arith, infos-length nodes)

-- The counts that `GetClusterStatus` reports add up: healthy and unhealthy nodes make the total,
-- which is the length of the list of nodes, and `GetHealthyNodes` answers as many nodes as are
-- counted as healthy.
pub get_cluster_status_counts :
    (now : Time) (cm : ClusterManager)
    → let status = get_cluster_status now cm in
      (status.healthy_nodes + status.unhealthy_nodes ≡ status.total_nodes)
      × (length status.nodes ≡ status.total_nodes)
      × (length (get_healthy_nodes cm.nodes) ≡ status.healthy_nodes)
unfolding get_cluster_status
get_cluster_status_counts now cm =
    (count_both cm.nodes, infos-length cm.nodes, healthy-length cm.nodes)

-- `IsHealthy` rounds the half down: it holds exactly where twice the number of healthy nodes and one
-- reach the number of nodes, so that of an odd number of nodes the smaller part suffices, and of one
-- node none.
pub is_healthy_iff :
    (cm : ClusterManager)
    → (is_healthy cm ≡ true) ↔ (length cm.nodes ≤ 2 * length (get_healthy_nodes cm.nodes) + 1)
unfolding is_healthy
is_healthy_iff cm = (
  λ h. omega (arith, healthy-length cm.nodes, leb→le _ _ h),
  λ h. ground (arith, healthy-length cm.nodes),
)

-- The request by which the node at an address is checked.
abbrev pub health_request : String → Request
health_request address = record {
  verb = Http.get;
  address = address;
  route = internal_health;
  body = "";
}

-- A record that a check has judged: the node itself is healthy, and another one is healthy or
-- unhealthy by whether the network answered the request to its address with status 200, in some
-- state of the network.
abbrev pub IsJudged : {W : Type 0} → Http W → String → String → String → NodeInfo → Type 0
IsJudged {W} http self id address info =
    (info.address ≡ address)
    × (id ≡ self → info.status ≡ healthy)
    × (id ≢ self
        → (w : W) × ((is_ok (http (health_request address) w).1 ≡ true) ↔ (info.status ≡ healthy))
          × ((is_ok (http (health_request address) w).1 ≡ false) ↔ (info.status ≡ unhealthy)))

abbrev Known : String → String → ClusterManager → Type 0
Known id address cm = (info : NodeInfo) × (info_of id cm ≡ some info) × (info.address ≡ address)

info_of-put :
    (id : String) (info : NodeInfo) (cm : ClusterManager)
    → info_of id (put_info id info cm) ≡ some info
info_of-put id info cm = ground (arith, lookup-insert String_discrete id id info cm.nodes)

info_of-put_other :
    (id jd : String) (info : NodeInfo) (cm : ClusterManager)
    → id ≢ jd
    → info_of jd (put_info id info cm) ≡ info_of jd cm
info_of-put_other id jd info cm ne =
    ground (arith, lookup-insert String_discrete id jd info cm.nodes)

-- The status that a check writes says whether the node is up.
after_check-status :
    (now : Time) (took : ℕ) (up : Bool) (info : NodeInfo)
    → ((up ≡ true) ↔ ((after_check now took up info).status ≡ healthy))
      × ((up ≡ false) ↔ ((after_check now took up info).status ≡ unhealthy))
unfolding after_check
after_check-status now took true info = (((λ e. refl), (λ e. refl)), ((λ e. cc e), (λ e. cc e)))
after_check-status now took false info = (((λ e. cc e), (λ e. cc e)), ((λ e. refl), (λ e. refl)))

after_check-address :
    (now : Time) (took : ℕ) (up : Bool) (info : NodeInfo)
    → (after_check now took up info).address ≡ info.address
unfolding after_check
after_check-address now took up info = ground arith

module _ {W : Type 0} (http : Http W) where
  abbrev Judged : String → String → String → ClusterManager → Type 0
  Judged self id address cm =
      (info : NodeInfo) × (info_of id cm ≡ some info) × IsJudged http self id address info

  other-IsJudged :
      (now : Time) (took : ℕ) (self id : String) (info : NodeInfo) (w : W)
      → id ≢ self
      → IsJudged http self id info.address
          (after_check now took (check_node_health http info.address w).1 info)
  unfolding check_node_health
  other-IsJudged now took self id info w ne =
      let up = is_ok (http (health_request info.address) w).1 in
      let status = after_check-status now took up info in
      (after_check-address now took up info, (λ q. absurd (ne q)), (λ q. (w, status.0, status.1)))

  module _ (now : Time) (took : ℕ) (id : String) (cm : ClusterManager) (w : W) where
    abbrev checked : ClusterManager
    checked = (check_node http now took id cm w).0

    -- The check writes a record for its node, judged at its address, or changes nothing where the
    -- node is not known.
    check_node_cases :
        ((before : NodeInfo) × (info : NodeInfo) × (info_of id cm ≡ some before)
          × (checked ≡ put_info id info cm)
          × IsJudged http cm.node_id id before.address info)
        ⊎ ((info_of id cm ≡ none) × (checked ≡ cm))
    unfolding check_node
    check_node_cases = elim (Option-cases (info_of id cm)) [
      | inl e ↦ inr (e, ground (arith, e))
      | inr (info, e) ↦ elim (String_discrete id cm.node_id) [
        | yes p ↦ inl (
          info,
          record info { status = healthy; last_seen = now },
          e,
          ground (arith, e, p),
          (refl, (λ q. refl), (λ q. absurd (q p))),
        )
        | no p ↦ inl (
          info,
          after_check now took (check_node_health http info.address w).1 info,
          e,
          ground (arith, e, p),
          other-IsJudged now took cm.node_id id info w p,
        )
      ]
    ]

    check_node-node_id : checked.node_id ≡ cm.node_id
    unfolding check_node
    check_node-node_id = ground arith

    same_address :
        (jd : String) (before known : NodeInfo)
        → id ≡ jd
        → info_of id cm ≡ some before
        → info_of jd cm ≡ some known
        → before.address ≡ known.address
    same_address jd before known p e f =
        ap (λ (o : Option NodeInfo). elim o [ none ↦ "" | some i ↦ i.address ])
          (sym e ∙ (ap (λ j. info_of j cm) p ∙ f))

    -- A node that is judged stays judged, and one that is known and checked is.
    check_node-Judged :
        (jd address : String)
        → Judged cm.node_id jd address cm ⊎ ((id ≡ jd) × Known jd address cm)
        → Judged cm.node_id jd address checked
    check_node-Judged jd address h = elim check_node_cases [
      | inr (e, q) ↦ elim h [
        | inl s ↦ subst (Judged cm.node_id jd address) (sym q) s
        | inr (p, (info, f, a)) ↦ absurd (cc (subst (λ j. info_of j cm ≡ none) p e, f))
      ]
      | inl (before, info, e, q, judged) ↦ elim (String_discrete id jd) [
        | yes p ↦
            let same : before.address ≡ address = elim h [
              | inl (i, f, s) ↦ same_address jd before i p e f ∙ s.0
              | inr (r, (i, f, a)) ↦ same_address jd before i p e f ∙ a
            ] in
            (
              info,
              ap (info_of jd) q
                  ∙ subst (λ j. info_of j (put_info id info cm) ≡ some info) p
                      (info_of-put id info cm),
              subst₂ (λ j a. IsJudged http cm.node_id j a info) p same judged,
            )
        | no p ↦ elim h [
          | inl (i, f, s) ↦ (i, ap (info_of jd) q ∙ (info_of-put_other id jd info cm p ∙ f), s)
          | inr (r, k) ↦ absurd (p r)
        ]
      ]
    ]

    -- A known node stays known, at its address.
    check_node-Known : (jd address : String) → Known jd address cm → Known jd address checked
    check_node-Known jd address (known, f, a) = elim check_node_cases [
      | inr (e, q) ↦ (known, ap (info_of jd) q ∙ f, a)
      | inl (before, info, e, q, judged) ↦ elim (String_discrete id jd) [
        | yes p ↦ (
          info,
          ap (info_of jd) q
              ∙ subst (λ j. info_of j (put_info id info cm) ≡ some info) p (info_of-put id info cm),
          judged.0 ∙ same_address jd before known p e f ∙ a,
        )
        | no p ↦ (known, ap (info_of jd) q ∙ (info_of-put_other id jd info cm p ∙ f), a)
      ]
    ]

abbrev pub Visited : String → List String → Type 0
Visited id [] = ⊥
Visited id (j ∷ js) = (j ≡ id) ⊎ Visited id js

module _ {W : Type 0} (http : Http W) (now : Time) (took : String → ℕ) where
  loop-Judged :
      (ids : List String) (cm : ClusterManager) (w : W) (self id address : String)
      → cm.node_id ≡ self
      → Judged http self id address cm ⊎ (Visited id ids × Known id address cm)
      → Judged http self id address (perform_health_check http now took ids cm w).0
  unfolding perform_health_check
  loop-Judged [] cm w self id address e (inl s) = s
  loop-Judged [] cm w self id address e (inr (v, k)) = absurd v
  loop-Judged (j ∷ js) cm w self id address e h =
      let cm1 = (check_node http now (took j) j cm w).0 in
      let w1 = (check_node http now (took j) j cm w).1 in
      let e1 = check_node-node_id http now (took j) j cm w ∙ e in
      let judged_now : Judged http cm.node_id id address cm ⊎ ((j ≡ id) × Known id address cm)
          → Judged http self id address cm1 =
        λ g.
          subst (λ t. Judged http t id address cm1) e
            (check_node-Judged http now (took j) j cm w id address g) in
      loop-Judged js cm1 w1 self id address e1 (elim h [
        | inl s ↦ inl (judged_now (inl (subst (λ t. Judged http t id address cm) (sym e) s)))
        | inr (inl p, k) ↦ inl (judged_now (inr (p, k)))
        | inr (inr v, k) ↦ inr (v, check_node-Known http now (took j) j cm w id address k)
      ])

  -- After a health check every node that was known and visited has been judged, at the address that
  -- it had: the node itself is healthy, and another one is healthy where the network answered the
  -- request to that address with status 200, in a state of the network, and unhealthy where it did
  -- not.
  pub perform_health_check-IsJudged :
      (ids : List String) (cm : ClusterManager) (w : W) (id : String) (info : NodeInfo)
      → Visited id ids
      → info_of id cm ≡ some info
      → (after : NodeInfo) × (info_of id (perform_health_check http now took ids cm w).0
          ≡ some after)
        × IsJudged http cm.node_id id info.address after
  perform_health_check-IsJudged ids cm w id info v e =
      loop-Judged ids cm w cm.node_id id info.address refl (inr (v, (info, e, refl)))
