-- ===== src/Client/Health.antt =====
-- The node manager of distributed/client.go takes a node for healthy exactly while its failures stay
-- below the threshold.
use ryan_cache.Prelude.{
  ℕ, ◌<◌, ◌≡◌, ◌↔◌, refl, sym, ◌∙◌, subst, inl, inr, String, String_discrete, Bool, true, false,
  not, List, [], ◌∷◌, some, Option-cases, Bool-cases, arith, leb,
}
use ryan_cache.GoMap.{lookup, lookup-insert}
use ryan_cache.Client.Nodes.{
  Time, NodeStatus, NodeManager, status_of, put_status, contains, new_status, add_statuses,
  new_node_manager, ensure_node_in_active_list, recovered, failed, mark_success, mark_failure,
  check_single_node,
}

-- One thing that the client or its health checks report of a node.
pub data Event : Type 0 where
  success : Time → String → Event
  failure : Time → String → Event
  checked : Time → Bool → String → Event

unfoldable pub step : Event → NodeManager → NodeManager
unfolding mark_success mark_failure check_single_node
step (success now node) nm = mark_success now node nm
step (failure now node) nm = mark_failure now node nm
step (checked now healthy node) nm = check_single_node now healthy node nm

unfoldable pub run : List Event → NodeManager → NodeManager
unfolding step
run [] nm = nm
run (event ∷ events) nm = run events (step event nm)

-- A status says healthy exactly while its failures are below the threshold.
abbrev pub Agrees : ℕ → NodeStatus → Type 0
Agrees threshold status = status.is_healthy ≡ not (leb threshold status.failure_count)

pub record IsSound (threshold : ℕ) (nm : NodeManager) : Type 0 where
  pub threshold_kept : nm.failure_threshold ≡ threshold
  pub agrees :
      (node : String) (status : NodeStatus)
      → status_of node nm ≡ some status
      → Agrees threshold status

nothing : (n : String) (t : NodeStatus) → lookup String_discrete n [] ≡ some t → ⊥
unfolding lookup
nothing n t e = cc e

some-injective : (s t : NodeStatus) → some s ≡ some t → s ≡ t
some-injective s t e = cc e

module _ (threshold : ℕ) where
  put_status-IsSound :
      (node : String) (status : NodeStatus) (nm : NodeManager)
      → Agrees threshold status
      → IsSound threshold nm
      → IsSound threshold (put_status node status nm)
  put_status-IsSound node status nm a s = record {
    threshold_kept = s.threshold_kept;
    agrees = λ n t e. elim (String_discrete node n) [
      | yes p ↦
          let q : some status ≡ some t =
            ground (arith, e, lookup-insert String_discrete node n status nm.node_status) in
          subst (Agrees threshold) (some-injective status t q) a
      | no p ↦
          s.agrees n t
            (ground (arith, e, lookup-insert String_discrete node n status nm.node_status))
    ];
  }

  ensure-IsSound :
      (node : String) (nm : NodeManager)
      → IsSound threshold nm
      → IsSound threshold (ensure_node_in_active_list node nm)
  unfolding ensure_node_in_active_list
  ensure-IsSound node nm s = elim (Bool-cases (contains node nm.active_nodes)) [
    | inl e ↦ rw e s
    | inr e ↦ rw e (record { threshold_kept = s.threshold_kept; agrees = s.agrees })
  ]

  failed-Agrees :
      (now : Time) (status : NodeStatus)
      → Agrees threshold status
      → Agrees threshold (failed now threshold status)
  unfolding failed
  failed-Agrees now status a = ground (arith, a)

  failed_by :
      (now : Time) (nm : NodeManager) (status : NodeStatus)
      → IsSound threshold nm
      → Agrees threshold status
      → Agrees threshold (failed now nm.failure_threshold status)
  failed_by now nm status s a =
      subst (λ th. Agrees threshold (failed now th status)) (sym s.threshold_kept)
        (failed-Agrees now status a)

  module _ (positive : 0 < threshold) where
    recovered-Agrees : (now : Time) (status : NodeStatus) → Agrees threshold (recovered now status)
    recovered-Agrees now status = ground (arith, positive)

    mark_success-IsSound :
        (now : Time) (node : String) (nm : NodeManager)
        → IsSound threshold nm
        → IsSound threshold (mark_success now node nm)
    unfolding mark_success
    mark_success-IsSound now node nm s = elim (Option-cases (status_of node nm)) [
      | inl e ↦ rw (e, mark_success) s
      | inr (t, e) ↦
          rw (e, mark_success)
            (ensure-IsSound node _ (put_status-IsSound node _ nm (recovered-Agrees now t) s))
    ]

    mark_failure-IsSound :
        (now : Time) (node : String) (nm : NodeManager)
        → IsSound threshold nm
        → IsSound threshold (mark_failure now node nm)
    unfolding mark_failure
    mark_failure-IsSound now node nm s = elim (Option-cases (status_of node nm)) [
      | inl e ↦ rw (e, mark_failure) s
      | inr (t, e) ↦
          rw (e, mark_failure)
            (put_status-IsSound node (failed now nm.failure_threshold t) nm
              (failed_by now nm t s (s.agrees node t e)) s)
    ]

    check_single_node-IsSound :
        (now : Time) (healthy : Bool) (node : String) (nm : NodeManager)
        → IsSound threshold nm
        → IsSound threshold (check_single_node now healthy node nm)
    unfolding check_single_node
    check_single_node-IsSound now false node nm s = elim (Option-cases (status_of node nm)) [
      | inl e ↦ rw (e, check_single_node) s
      | inr (t, e) ↦
          let t1 = record t { last_check_time = now } in
          rw (e, check_single_node)
            (put_status-IsSound node (failed now nm.failure_threshold t1) nm
              (failed_by now nm t1 s (s.agrees node t e)) s)
    ]
    check_single_node-IsSound now true node nm s = elim (Option-cases (status_of node nm)) [
      | inl e ↦ rw (e, check_single_node) s
      | inr (t, e) ↦ elim (Bool-cases t.is_healthy) [
        | inl h ↦
            rw (e, check_single_node, h)
              (put_status-IsSound node (record t { is_healthy = true; last_check_time = now }) nm
                (sym h ∙ s.agrees node t e) s)
        | inr h ↦
            rw (e, check_single_node, h)
              (ensure-IsSound node _ (
                put_status-IsSound node _ nm
                  (recovered-Agrees now (record t { last_check_time = now })) s))
      ]
    ]

    run-IsSound :
        (events : List Event) (nm : NodeManager)
        → IsSound threshold nm
        → IsSound threshold (run events nm)
    unfolding run step
    run-IsSound [] nm s = s
    run-IsSound (success now node ∷ events) nm s =
        run-IsSound events (mark_success now node nm) (mark_success-IsSound now node nm s)
    run-IsSound (failure now node ∷ events) nm s =
        run-IsSound events (mark_failure now node nm) (mark_failure-IsSound now node nm s)
    run-IsSound (checked now healthy node ∷ events) nm s =
        run-IsSound events (check_single_node now healthy node nm)
          (check_single_node-IsSound now healthy node nm s)

    add_statuses-IsSound :
        (now : Time) (nodes : List String) (nm : NodeManager)
        → IsSound threshold nm
        → IsSound threshold (add_statuses now nodes nm)
    unfolding add_statuses
    add_statuses-IsSound now [] nm s = s
    add_statuses-IsSound now (node ∷ nodes) nm s =
        add_statuses-IsSound now nodes (put_status node (new_status now node) nm) (
          put_status-IsSound node (new_status now node) nm
            (recovered-Agrees now (new_status now node)) s)

    -- With a threshold that is positive, after any history of successes, failures and health checks
    -- on a new node manager, a node that is known is taken for healthy exactly while its count of
    -- failures is below the threshold.
    pub history-Agrees :
        (now : Time) (nodes : List String) (events : List Event) (node : String)
        (status : NodeStatus)
        → status_of node (run events (new_node_manager now nodes threshold)) ≡ some status
        → (status.is_healthy ≡ true) ↔ (status.failure_count < threshold)
    unfolding new_node_manager
    history-Agrees now nodes events node status e =
        let sound = run-IsSound events (new_node_manager now nodes threshold) (
          add_statuses-IsSound now nodes _
            record { threshold_kept = refl; agrees = λ n t f. absurd (nothing n t f) }) in
        let a = sound.agrees node status e in (λ h. ground (arith, a, h), λ h. ground (arith, a, h))
