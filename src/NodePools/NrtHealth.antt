-- ===== src/NodePools/NrtHealth.antt =====
-- What reconcileNrtHealthCondition leaves on a node (nrt_health_handler.go).
use kai_resource_management.Prelude.{
  Bool-cases, ne_of_false, false_of_ne, In, In-of_contains, contains_of_In, Err, ok, is_not_found,
  String, ◌≡◌, refl, subst, ◌≢◌, ◌↔◌, ◌⊎◌, inl, inr, Bool, true, false, Option, none, some, arith,
}
use kai_resource_management.Objects.{reply, fail}
use kai_resource_management.NodePools.{Node, Pool, NodeResourceTopology, Cluster, Turn}
use kai_resource_management.NodePools.Merging.{Answer-cases}
use kai_resource_management.NodePools.Nrt.{
  nrt_healthy_condition_type, nrt_health_reason_missing, nrt_missing_item_no_object,
  nrt_prereq_message, is_numa_enabled, find_node_condition, topology_manager_policy,
  evaluate_nrt_health, get_node_resource_topology, apply_nrt_health, reconcile_nrt_health_condition,
}
use kai_resource_management.NodePools.NrtShown.{MergesConditions, Shows, ensure-Shows, remove-Shows}

module _ (cluster : Cluster) where
  -- The node pool does not ask for NUMA awareness, or the node has a NodeResourceTopology with a zone
  -- of a NUMA node and a policy that is enforced.
  abbrev pub IsHealthy : (nrt_enabled : Bool) → Pool → Turn → Type 0
  IsHealthy nrt_enabled pool t =
      (is_numa_enabled pool ≡ false)
      ⊎ ((nrt_enabled ≡ true)
          × ((nrt : NodeResourceTopology) × (cluster.get_nrt t.sent t.node.name ≡ reply nrt)
              × In "Node" nrt.zone_types
              × ((policy : String) × (topology_manager_policy cluster nrt ≡ some policy)
                  × (policy ≢ "none"))))

  evaluated_iff :
      (nrt : NodeResourceTopology)
      → ((evaluate_nrt_health cluster (some nrt)).0 ≡ true) ↔ (
          In "Node" nrt.zone_types
          × ((policy : String) × (topology_manager_policy cluster nrt ≡ some policy)
              × (policy ≢ "none")))
  unfolding evaluate_nrt_health
  evaluated_iff nrt = of_policy (topology_manager_policy cluster nrt) refl
    where
      of_policy :
          (policy : Option String)
          → topology_manager_policy cluster nrt ≡ policy
          → ((evaluate_nrt_health cluster (some nrt)).0 ≡ true) ↔ (
              In "Node" nrt.zone_types
              × ((policy : String) × (topology_manager_policy cluster nrt ≡ some policy)
                  × (policy ≢ "none")))
      of_policy none same =
          ((λ h. absurd (ground arith)), λ (zone, (policy, e, enforced)). absurd (ground arith))
      of_policy (some policy) same = (
        (λ h. (
          In-of_contains nrt.zone_types "Node" (ground arith),
          (policy, same, ne_of_false (ground arith)),
        )),
        λ (zone, (p, e, enforced)).
            let found = contains_of_In zone in
            let ne = false_of_ne enforced in let e' : p ≡ policy = ground arith in ground arith,
      )

  Shows-iff :
      (verdict : Bool × (String × String)) (node : Node)
      → Shows verdict node
      → (find_node_condition nrt_healthy_condition_type node.conditions ≡ none) ↔ (verdict.0 ≡ true)
  Shows-iff (true, why) node shown = ((λ _. refl), λ _. shown)
  Shows-iff (false, (reason, message)) node (condition, found, _, _, _) =
      ((λ h. absurd (cc)), λ h. absurd (cc))

  apply-Shows :
      (verdict : Bool × (String × String)) (t : Turn)
      → MergesConditions cluster
      → (apply_nrt_health cluster verdict t).0 ≡ ok tt
      → Shows verdict (apply_nrt_health cluster verdict t).1.node
  apply-Shows (true, why) t merges h = remove-Shows cluster t merges h
  apply-Shows (false, (reason, message)) t merges h = ensure-Shows cluster reason message t h

  -- A run that comes down to applying a verdict, which says whether the node is healthy.
  applied_iff :
      (nrt_enabled : Bool) (pool : Pool) (t : Turn) (verdict : Bool × (String × String))
      → MergesConditions cluster
      → (reconcile_nrt_health_condition cluster nrt_enabled pool t).0 ≡ ok tt
      → reconcile_nrt_health_condition cluster nrt_enabled pool t
        ≡ apply_nrt_health cluster verdict t
      → (verdict.0 ≡ true) ↔ IsHealthy nrt_enabled pool t
      → (find_node_condition nrt_healthy_condition_type
            (reconcile_nrt_health_condition cluster nrt_enabled pool t).1.node.conditions
          ≡ none)
        ↔ IsHealthy nrt_enabled pool t
  applied_iff nrt_enabled pool t verdict merges h same iff =
      let shown = apply-Shows verdict t merges (rw same at h) in
      let shows = Shows-iff verdict (apply_nrt_health cluster verdict t).1.node shown in
      rw (same) ((λ e. iff.0 (shows.0 e)), λ k. shows.1 (iff.1 k))

  read_iff :
      (nrt_enabled : Bool) (pool : Pool) (t : Turn) (nrt : NodeResourceTopology)
      → is_numa_enabled pool ≡ true
      → nrt_enabled ≡ true
      → cluster.get_nrt t.sent t.node.name ≡ reply nrt
      → ((evaluate_nrt_health cluster (some nrt)).0 ≡ true) ↔ IsHealthy nrt_enabled pool t
  read_iff nrt_enabled pool t nrt on installed read = (healthy, evaluated)
    where
      healthy : (evaluate_nrt_health cluster (some nrt)).0 ≡ true → IsHealthy nrt_enabled pool t
      healthy h = let k = (evaluated_iff nrt).0 h in inr (installed, (nrt, read, k.0, k.1))

      evaluated : IsHealthy nrt_enabled pool t → (evaluate_nrt_health cluster (some nrt)).0 ≡ true
      evaluated (inl off) = absurd (cc)
      evaluated (inr (_, (other, read', zone, policy))) =
          let same : other ≡ nrt = ground arith in
          (evaluated_iff nrt).1 (
            subst
              (λ x.
                In "Node" x.zone_types
                × ((p : String) × (topology_manager_policy cluster x ≡ some p) × (p ≢ "none")))
              same (zone, policy))

  -- Without an answer that holds a NodeResourceTopology no node is healthy.
  unread_iff :
      (nrt_enabled : Bool) (pool : Pool) (t : Turn)
      → is_numa_enabled pool ≡ true
      → (nrt_enabled ≡ false) ⊎ ((e : Err) × (cluster.get_nrt t.sent t.node.name ≡ fail e))
      → (false ≡ true) ↔ IsHealthy nrt_enabled pool t
  unread_iff nrt_enabled pool t on unread = ((λ k. absurd (cc)), never unread)
    where
      never :
          (nrt_enabled ≡ false) ⊎ ((e : Err) × (cluster.get_nrt t.sent t.node.name ≡ fail e))
          → IsHealthy nrt_enabled pool t
          → false ≡ true
      never _ (inl off) = absurd (cc)
      never (inl off) (inr (installed, _)) = absurd (cc)
      never (inr (e, failed)) (inr (_, (nrt, read, _, _))) = absurd (ground arith)

  -- Where a reconcile of a node's NRT health succeeds, the node is left without the condition exactly
  -- when it is healthy.
  pub condition_iff :
      (nrt_enabled : Bool) (pool : Pool) (t : Turn)
      → MergesConditions cluster
      → (reconcile_nrt_health_condition cluster nrt_enabled pool t).0 ≡ ok tt
      → (find_node_condition nrt_healthy_condition_type
            (reconcile_nrt_health_condition cluster nrt_enabled pool t).1.node.conditions
          ≡ none)
        ↔ IsHealthy nrt_enabled pool t
  unfolding reconcile_nrt_health_condition get_node_resource_topology evaluate_nrt_health
  condition_iff nrt_enabled pool t merges h = elim (Bool-cases (is_numa_enabled pool)) [
    | inr off ↦
        applied_iff nrt_enabled pool t (true, ("", "")) merges h (rw (off) refl)
          ((λ _. inl off), λ _. refl)
    | inl on ↦ elim (Bool-cases nrt_enabled) [
      | inr off ↦
          applied_iff nrt_enabled pool t missing merges h (rw (on, off) refl)
            (unread_iff nrt_enabled pool t on (inl off))
      | inl installed ↦ elim (Answer-cases (cluster.get_nrt t.sent t.node.name)) [
        | inl (nrt, read) ↦
            applied_iff nrt_enabled pool t (evaluate_nrt_health cluster (some nrt)) merges h
              (rw (on, installed, read) refl) (read_iff nrt_enabled pool t nrt on installed read)
        | inr (e, failed) ↦ elim (Bool-cases (is_not_found e)) [
          | inl absent ↦
              applied_iff nrt_enabled pool t missing merges h
                (rw (on, installed, failed, absent) refl)
                (unread_iff nrt_enabled pool t on (inr (e, failed)))
          | inr other ↦ absurd (let k = rw (on, installed, failed, other) at h in cc)
        ]
      ]
    ]
  ]
    where
      missing : Bool × (String × String)
      missing = (false, (nrt_health_reason_missing, nrt_prereq_message nrt_missing_item_no_object))
