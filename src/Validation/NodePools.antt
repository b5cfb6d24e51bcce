-- ===== src/Validation/NodePools.antt =====
-- When the queues of a project or a department are accepted (validateQueueNodePoolsExist).
use kai_resource_management.Prelude.{
  Bool-cases, All, any, contains, In, here, there, In-of_contains, Distinct, contains_of_In,
  not-In_of_contains, Err, String, eq_iff, ◌≡◌, refl, sym, ◌≢◌, ◌↔◌, inl, inr, true, false, some,
  List, [], ◌∷◌, ◌++◌, map, arith,
}
use kai_resource_management.Objects.{NodePool, QueueConfig, Project, Answer, reply, fail}
use kai_resource_management.Validation.{
  Problem, Validator, node_pool_names, check_queues, check_listed, validate_queue_node_pools_exist,
  validate_parent, validate_project, of_project, retryable, is_internal, to_admission_response,
  handle,
}

abbrev pub pool_of : QueueConfig → String
pool_of q = q.nodepool

abbrev Fresh : List String → List QueueConfig → Type 0
Fresh seen queues = All (λ q. ¬ In (pool_of q) seen) queues

-- Every queue names a node pool that is listed.
abbrev pub AllListed : List String → List QueueConfig → Type 0
AllListed existing queues = All (λ q. (pool_of q ≢ "") × In (pool_of q) existing) queues

Fresh-tail :
    (a : String) (seen : List String) (queues : List QueueConfig)
    → Fresh (a ∷ seen) queues
    → Fresh seen queues
Fresh-tail a seen [] h = tt
Fresh-tail a seen (q ∷ qs) h = ((λ m. h.0 (there m)), Fresh-tail a seen qs h.1)

Fresh-head :
    (a : String) (seen : List String) (queues : List QueueConfig)
    → Fresh (a ∷ seen) queues
    → ¬ In a (map pool_of queues)
Fresh-head a seen [] h m = elim m [ ]
Fresh-head a seen (q ∷ qs) h (here e) = h.0 (here (sym e))
Fresh-head a seen (q ∷ qs) h (there m) = Fresh-head a seen qs h.1 m

Fresh-cons :
    (a : String) (seen : List String) (queues : List QueueConfig)
    → ¬ In a (map pool_of queues)
    → Fresh seen queues
    → Fresh (a ∷ seen) queues
Fresh-cons a seen [] n h = tt
Fresh-cons a seen (q ∷ qs) n h = (either, Fresh-cons a seen qs (λ m. n (there m)) h.1)
  where
    either : ¬ In (pool_of q) (a ∷ seen)
    either (here e) = n (here (sym e))
    either (there m) = h.0 m

check_queues_sound :
    (existing seen : List String) (queues : List QueueConfig)
    → check_queues existing seen queues ≡ []
    → AllListed existing queues × Distinct (map pool_of queues) × Fresh seen queues
unfolding check_queues
check_queues_sound existing seen [] h = (tt, tt, tt)
check_queues_sound existing seen (q ∷ qs) h =
    let named : q.nodepool ≢ "" = ground (arith, eq_iff q.nodepool "") in
    let fresh : contains seen q.nodepool ≡ false = ground arith in
    let listed : contains existing q.nodepool ≡ true = ground arith in
    let rest : check_queues existing (q.nodepool ∷ seen) qs ≡ [] = ground arith in
    let (all_listed, distinct, others) = check_queues_sound existing (q.nodepool ∷ seen) qs rest in
    (
      ((named, In-of_contains existing q.nodepool listed), all_listed),
      (Fresh-head q.nodepool seen qs others, distinct),
      (not-In_of_contains seen fresh, Fresh-tail q.nodepool seen qs others),
    )

check_queues_complete :
    (existing seen : List String) (queues : List QueueConfig)
    → AllListed existing queues
    → Distinct (map pool_of queues)
    → Fresh seen queues
    → check_queues existing seen queues ≡ []
unfolding check_queues
check_queues_complete existing seen [] l d f = refl
check_queues_complete existing seen (q ∷ qs) l d f =
    let rest =
      check_queues_complete existing (q.nodepool ∷ seen) qs l.1 d.1
        (Fresh-cons q.nodepool seen qs d.0 f.1) in
    let listed = contains_of_In l.0.1 in
    let named = l.0.0 in
    elim (Bool-cases (contains seen q.nodepool)) [
      | inl e ↦ absurd (f.0 (In-of_contains seen q.nodepool e))
      | inr e ↦ ground (arith, eq_iff q.nodepool "")
    ]

nothing-Fresh : (queues : List QueueConfig) → Fresh [] queues
nothing-Fresh [] = tt
nothing-Fresh (q ∷ qs) = ((λ m. elim m [ ]), nothing-Fresh qs)

-- A list with at least one queue is accepted exactly when the node pools can be listed, every queue
-- names one of them, and no two queues name the same.
pub accepted_queues_iff :
    (v : Validator) (queues : List QueueConfig)
    → queues ≢ []
    → (validate_queue_node_pools_exist v queues ≡ []) ↔ (
        (pools : List NodePool) × (v.list_node_pools ≡ reply pools)
        × AllListed (node_pool_names pools) queues
        × Distinct (map pool_of queues))
unfolding validate_queue_node_pools_exist
accepted_queues_iff v [] h = absurd (h refl)
accepted_queues_iff v (q ∷ qs) h = (sound v.list_node_pools refl, complete)
  where
    sound :
        (answer : Answer (List NodePool))
        → v.list_node_pools ≡ answer
        → check_listed (q ∷ qs) v.list_node_pools ≡ []
        → (pools : List NodePool) × (v.list_node_pools ≡ reply pools)
          × AllListed (node_pool_names pools) (q ∷ qs)
          × Distinct (map pool_of (q ∷ qs))
    sound (reply pools) e k =
        let checked : check_queues (node_pool_names pools) [] (q ∷ qs) ≡ [] = rw e at k in
        let (listed, distinct, _) =
          check_queues_sound (node_pool_names pools) [] (q ∷ qs) checked in
        (pools, e, listed, distinct)
    sound (fail x) e k = absurd (ground arith)

    complete :
        ((pools : List NodePool) × (v.list_node_pools ≡ reply pools)
          × AllListed (node_pool_names pools) (q ∷ qs)
          × Distinct (map pool_of (q ∷ qs)))
        → check_listed (q ∷ qs) v.list_node_pools ≡ []
    complete (pools, e, listed, distinct) = rw e (
        check_queues_complete (node_pool_names pools) [] (q ∷ qs) listed distinct
          (nothing-Fresh (q ∷ qs)))

any-append : (ps qs : List Problem) → any is_internal qs ≡ true → any is_internal (ps ++ qs) ≡ true
any-append [] qs h = h
any-append (p ∷ ps) qs h = ground (arith, any-append ps qs h)

any-append_left :
    (ps qs : List Problem) → any is_internal ps ≡ true → any is_internal (ps ++ qs) ≡ true
any-append_left [] qs h = absurd (cc)
any-append_left (p ∷ ps) qs h = ground (arith, any-append_left ps qs)

-- A project with queues is never denied nor allowed while the node pools cannot be listed: the
-- response is the one that has the caller try again, whatever else is wrong with the project.
pub outage_retried :
    (v : Validator) (project : Project) (e : Err)
    → project.queues ≢ []
    → v.list_node_pools ≡ fail e
    → (problems : List Problem) × (handle v (of_project (some project)) ≡ retryable problems)
unfolding handle validate_project validate_queue_node_pools_exist to_admission_response
outage_retried v project e some_queue out = of_queues project.queues refl
  where
    internal_last :
        any is_internal (validate_project v project) ≡ true
        → (problems : List Problem) × (to_admission_response (validate_project v project)
            ≡ retryable problems)
    internal_last h = of_problems (validate_project v project) h
      where
        of_problems :
            (ps : List Problem)
            → any is_internal ps ≡ true
            → (problems : List Problem) × (to_admission_response ps ≡ retryable problems)
        of_problems [] h = absurd (cc)
        of_problems (p ∷ ps) h = (p ∷ ps, rw h)

    of_queues :
        (queues : List QueueConfig)
        → project.queues ≡ queues
        → (problems : List Problem) × (handle v (of_project (some project)) ≡ retryable problems)
    of_queues [] same = absurd (some_queue same)
    of_queues (q ∷ qs) same = internal_last (
        any-append (validate_parent v project.parent) _
          (any-append_left (validate_queue_node_pools_exist v project.queues) _ (rw (same, out))))
