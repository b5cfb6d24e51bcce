-- ===== src/NodePools/Grouped.antt =====
-- How a pod comes into its pod group's entry (filterPodsWithIncorrectNodepoolLabel of
-- node_status_handler.go).
use kai_resource_management.Prelude.{
  ◌==◌, Bool-cases, eq_of_true, Option-cases, All, In, here, there, lookup, String, ◌≡◌, refl, sym,
  ap, ◌∙◌, subst, ◌⊎◌, inl, inr, Option, some, List, [], ◌∷◌, ◌++◌,
}
use kai_resource_management.NodePools.{NodePoolsConfig, RunningPod}
use kai_resource_management.NodePools.Pods.{PodsOfGroup, add_to_group, add_annotated, pods_by_group}

module _ (cfg : NodePoolsConfig) where
  abbrev pub pod_group_of : RunningPod → Option String
  pod_group_of pod = lookup cfg.pod_group_annotation_for_pod pod.annotations

  module _ (group namespace : String) where
    -- The first pod of the group's entry is in the namespace.
    abbrev pub FirstIn : List (PodsOfGroup cfg) → Type 0
    FirstIn groups = All (λ entry. entry.0 ≡ group → entry.1.0.namespace ≡ namespace) groups

    -- The pod is in the group's entry.
    abbrev pub Holds : RunningPod → List (PodsOfGroup cfg) → Type 0
    Holds pod [] = ⊥
    Holds pod ((name, (first, others)) ∷ groups) =
        ((name ≡ group) × (first.namespace ≡ namespace) × In pod (first ∷ others))
        ⊎ Holds pod groups

    add-FirstIn :
        (name : String) (pod : RunningPod) (groups : List (PodsOfGroup cfg))
        → (name ≡ group → pod.namespace ≡ namespace)
        → FirstIn groups
        → FirstIn (add_to_group cfg name pod groups)
    unfolding add_to_group
    add-FirstIn name pod [] near h = (near, tt)
    add-FirstIn name pod ((other, (first, others)) ∷ groups) near h =
        elim (Bool-cases (other == name)) [
          | inl e ↦ rw (e) h
          | inr e ↦ rw (e) (h.0, add-FirstIn name pod groups near h.1)
        ]

    In-snoc : (pod : RunningPod) (pods : List RunningPod) → In pod (pods ++ pod ∷ [])
    In-snoc pod [] = here refl
    In-snoc pod (p ∷ pods) = there (In-snoc pod pods)

    In-append :
        (pod : RunningPod) (pods more : List RunningPod) → In pod pods → In pod (pods ++ more)
    In-append pod [] more m = elim m [ ]
    In-append pod (p ∷ pods) more (here e) = here e
    In-append pod (p ∷ pods) more (there m) = there (In-append pod pods more m)

    add-own :
        (pod : RunningPod) (groups : List (PodsOfGroup cfg))
        → pod.namespace ≡ namespace
        → FirstIn groups
        → Holds pod (add_to_group cfg group pod groups)
    unfolding add_to_group
    add-own pod [] near h = inl (refl, near, here refl)
    add-own pod ((other, (first, others)) ∷ groups) near h = elim (Bool-cases (other == group)) [
      | inl e ↦ rw (e) (inl (eq_of_true e, h.0 (eq_of_true e), there (In-snoc pod others)))
      | inr e ↦ rw (e) (inr (add-own pod groups near h.1))
    ]

    add-Holds :
        (pod : RunningPod) (name : String) (new : RunningPod) (groups : List (PodsOfGroup cfg))
        → Holds pod groups
        → Holds pod (add_to_group cfg name new groups)
    unfolding add_to_group
    add-Holds pod name new [] h = absurd h
    add-Holds pod name new ((other, (first, others)) ∷ groups) h =
        elim (Bool-cases (other == name)) [
          | inl e ↦ rw (e) (grown h)
          | inr e ↦ rw (e) (later (add-Holds pod name new groups) h)
        ]
      where
        grown :
            Holds pod ((other, (first, others)) ∷ groups)
            → Holds pod ((other, (first, others ++ new ∷ [])) ∷ groups)
        grown (inl (e, near, m)) = inl (e, near, In-append pod (first ∷ others) (new ∷ []) m)
        grown (inr k) = inr k

        later :
            (Holds pod groups → Holds pod (add_to_group cfg name new groups))
            → Holds pod ((other, (first, others)) ∷ groups)
            → Holds pod ((other, (first, others)) ∷ add_to_group cfg name new groups)
        later on (inl k) = inl k
        later on (inr k) = inr (on k)

    annotated-FirstIn :
        (pod : RunningPod) (groups : List (PodsOfGroup cfg))
        → (pod_group_of pod ≡ some group → pod.namespace ≡ namespace)
        → FirstIn groups
        → FirstIn (add_annotated cfg pod groups (pod_group_of pod))
    annotated-FirstIn pod groups near h = elim (Option-cases (pod_group_of pod)) [
      | inl e ↦ rw (e) h
      | inr (name, e) ↦
          rw (e) (add-FirstIn name pod groups (λ same. near (e ∙ ap (λ n. some n) same)) h)
    ]

    annotated-Holds :
        (pod new : RunningPod) (groups : List (PodsOfGroup cfg))
        → Holds pod groups
        → Holds pod (add_annotated cfg new groups (pod_group_of new))
    annotated-Holds pod new groups h = elim (Option-cases (pod_group_of new)) [
      | inl e ↦ rw (e) h
      | inr (name, e) ↦ rw (e) (add-Holds pod name new groups h)
    ]

    later-Holds :
        (pod : RunningPod) (groups : List (PodsOfGroup cfg)) (pods : List RunningPod)
        → Holds pod groups
        → Holds pod (pods_by_group cfg groups pods)
    unfolding pods_by_group
    later-Holds pod groups [] h = h
    later-Holds pod groups (new ∷ pods) h =
        later-Holds pod (add_annotated cfg new groups (pod_group_of new)) pods
          (annotated-Holds pod new groups h)

    pub grouped-Holds :
        (pod : RunningPod) (groups : List (PodsOfGroup cfg)) (pods : List RunningPod)
        → In pod pods
        → pod_group_of pod ≡ some group
        → All (λ other. pod_group_of other ≡ some group → other.namespace ≡ namespace) pods
        → FirstIn groups
        → Holds pod (pods_by_group cfg groups pods)
    unfolding pods_by_group
    grouped-Holds pod groups [] m own near h = elim m [ ]
    grouped-Holds pod groups (new ∷ pods) (there m) own near h =
        grouped-Holds pod (add_annotated cfg new groups (pod_group_of new)) pods m own near.1
          (annotated-FirstIn new groups near.0 h)
    grouped-Holds pod groups (new ∷ pods) (here e) own near h = later-Holds pod _ pods (
        subst (λ p. Holds pod (add_annotated cfg new groups p)) (sym (ap pod_group_of e ∙ own))
          (subst (λ p. Holds p (add_to_group cfg group new groups)) e
            (add-own new groups (near.0 (ap pod_group_of e ∙ own)) h)))
