-- ===== src/Assignment/Actions.antt =====
-- A reconcile of the assigner changes two things: the memo of requested node pools, and the API
-- server, by the requests that it sends. Both are a state that outlives an error.
use kai_resource_management.Prelude.{lookup, insert, ok, String, Option, List, ◌∷◌}
use kai_resource_management.Objects.{Answer, lift, SchedulingCondition, PodGroup}
use kai_resource_management.Effects.{Effect}

pub data Request : Type 0 where
  patch_status_request : PodGroup → List SchedulingCondition → Request
  patch_request : (original patched : PodGroup) → Request

-- The memo is the map podGroupsNodePoolList, by UID; the requests are the latest first.
pub record State : Type 0 where
  pub node_pool_lists : List (String × List String)
  pub requests : List Request

abbrev pub Action {ℓ} : Type ℓ → Type ℓ
Action A = Effect State A

abbrev pub send : Request → Answer PodGroup → Action PodGroup
send request answer s = (lift answer, record s { requests = request ∷ s.requests })

abbrev pub memo : String → Action (Option (List String))
memo uid s = (ok (lookup uid s.node_pool_lists), s)

abbrev pub remember : String → List String → Action (Unit {0})
remember uid names s = (ok tt, record s { node_pool_lists = insert uid names s.node_pool_lists })
