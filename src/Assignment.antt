-- ===== src/Assignment.antt =====
-- The pod-group assigner: which node pool a pod group is sent to
-- (pkg/pod-group-assigner/controllers).
pub mod Common
pub mod Params
pub mod PodGroups
pub mod Queues
pub mod Actions
pub mod Assigner
mod Tests
