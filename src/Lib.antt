-- ===== src/Lib.antt =====
-- Kai resource management: the controllers that put Kubernetes workloads on node pools and keep the
-- scheduler's queues for projects and departments.
--
-- Parts modelled, and how they interact:
-- - Objects: the API objects (pod groups, pods, node pools, queues, projects, departments) with the
--   fields that the controllers use. The API modules that declare them are imported by the
--   repository. What a call of the API server answers is an `Answer`, a parameter of the model.
-- - Converter (pkg/common/node-pool-utils): the list of node pools that a pod group asks for, from
--   the pod's annotation, its node affinity, the object's label or the project.
--   `get_requested_node_pools` is GetRequestedNodePools.
-- - Assignment (pkg/pod-group-assigner/controllers): the reconcile of a pod group. `Params` chooses the
--   node pool (assignment_params), `Queues` finds the queue and the topology (utils),
--   `PodGroups` reads and writes the pod group, and `Assigner` composes them as PodGroupAssigner.Run
--   does. `Actions` is its state: the memo of requested node pools and the requests sent.
-- - Queues (pkg/project-controller/handlers): the queues of projects and departments. `Specs` builds and
--   compares queues, `Steps` looks them up, names, creates, updates and deletes them
--   (queue_utils.go), and `Handlers` composes the steps as QueueResourceHandler and
--   DepartmentHandler do. Their state is the list of changes sent; each answer of the API server may
--   depend on it. An error that a handler gathers is a value of the list that it ends with.
-- - Validation (pkg/project-controller/hierarchy and webhooks/validation): the department tree and the
--   webhook that accepts or denies projects, departments and queues; `handle` is Validator.Handle.
--   `Heights`, `Levels`, `Chains` and `Fits` say what the counts of levels mean.
-- - Effects, Keeping: a Go call that sends requests, as a function of the requests sent so far, and the rules
--   for what a sequence of such calls keeps, whatever fails on the way.
-- - NodePools (pkg/nodepool-controller/nodepool_controller, utils and unmanaged-shards): the reconcile of a
--   node pool. `Pods` reads which pods run on a node (node_status_handler), `Drain` labels, marks and
--   moves a node (node_handler, node_label_handler), `Nrt` sets the NRT condition
--   (nrt_health_handler), `Annotations` the annotations, `Shards` the unmanaged partitions,
--   `Reconcile` composes them over the nodes that it lists, `Status`, `StatusEqual`, `Texts` and
--   `Calculation` build and compare the status of a node pool (nodepool_status_handler, utils), with the
--   comparison of lists by a map in `Keyed`, and `Finalize` has the finalizer, the deletion, and Reconcile of the controller. `Events` tells which events
--   reconcile which node pools (nodepool_event_filter). `Cluster` is what they read, and
--   `Patch` what they send. The other files below NodePools prove what these keep.
-- - Admission (pkg/nodepool-controller/webhook, and the lookup of a shard in
--   operands/kai-scheduler/resources/scheduling_shard.go): what the webhooks of node pools and scheduling
--   shards accept. `Consistent` has the steps that the API server takes on what they accept, `Holders` the
--   register of partitions that stands for its shards, and `Resolved` the lookup of a shard in it.
-- - ProjectDeletion (pkg/project-controller/handlers/deletion, and utils.go): what blocks the deletion of a
--   project, the conditions of its status, and its namespace's owners.
-- - LimitRanges (pkg/project-controller/handlers/limit_range_resource_handler.go): the limit range of a
--   project's namespace. Its state is the list of writes.
--
-- Conventions: a Go call that may fail is a `Result`, with an error value or a panic, which stands
-- for an index out of range. Maps with text keys are association lists in which an insertion takes the
-- older entry's place. A state that outlives an error is passed on by `Effects`. The one loop that
-- counts to the length of a list (find_from) recurses on the rounds left, as many as the list has node pools less one.
-- The walk up the parent queues (close_from) has as many rounds as there are queues and two more, since no
-- queue is visited twice; a walk without rounds left counts as a panic. The walks on the department tree
-- (ancestors, height) take the limit of the source, 7 levels, as their rounds.
-- A node in hand is the state of its turn (`Turn`), with the patches sent, the latest first; what the API
-- server answers may depend on them. A Go map that is ranged over (the pod groups of a node, the nodes
-- of a node pool) is visited in the order of its association list. The server's answer to a patch of a
-- node pool is not read back. What SetNodePoolCondition of the API module does, the scheduler operand,
-- strings.ToLower and the format of numbers are parameters, as is the time.
--
-- Not modelled: logging, metrics, process start-up, the wiring of controller-runtime,
-- the mutex around the memo and the timer that clears it, the operator's operands, the helm hooks, the
-- building of a scheduling shard, the role bindings, namespaces and status of a project, the pod
-- mutators, and the parts of the node pool and project controllers that no file here names.
pub mod Prelude
pub mod Objects
pub mod Converter
pub mod Assignment
pub mod Queues
pub mod Validation
pub mod Admission
pub mod Effects
pub mod LimitRanges
pub mod NodePools
pub mod ProjectDeletion
