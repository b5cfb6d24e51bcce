-- ===== src/ProjectDeletion/Conditions.antt =====
-- The conditions of a project or a department (handlers/utils.go, where both have the same code), and
-- what updating them again leaves.
use kai_resource_management.Prelude.{
  nat_eq, ◌==◌, if◌then◌else◌, ℕ, String, Bool, true, false, not, ◌&&◌, ◌||◌, List, [], ◌∷◌,
}

pub record StatusCondition : Type 0 where
  pub condition_type : String
  pub status : String
  pub reason : String
  pub message : String
  pub last_probe_time : ℕ
  pub last_transition_time : ℕ

module _ (now : ℕ) where
  -- The transition time stays where the status does.
  abbrev pub with_transition : StatusCondition → StatusCondition → StatusCondition
  with_transition condition old = record condition {
    last_transition_time = if condition.status == old.status then old.last_transition_time else now;
  }

  abbrev pub is_equal_to : StatusCondition → StatusCondition → Bool
  is_equal_to condition old =
      condition.status == old.status
      && condition.reason == old.reason
      && condition.message == old.message
      && nat_eq condition.last_probe_time old.last_probe_time
      && nat_eq condition.last_transition_time old.last_transition_time

  -- `UpdateProjectCondition`: the conditions, and whether one has changed.
  unfoldable pub update_condition :
      StatusCondition → List StatusCondition → List StatusCondition × Bool
  update_condition condition [] = (record condition { last_transition_time = now } ∷ [], true)
  update_condition condition (old ∷ others) =
      let rest = update_condition condition others in
      let new = with_transition condition old in
      if old.condition_type == condition.condition_type
      then (new ∷ others, not (is_equal_to new old))
      else (old ∷ rest.0, rest.1)

  unfoldable pub update_conditions :
      List StatusCondition → List StatusCondition → List StatusCondition × Bool
  update_conditions [] conditions = (conditions, false)
  update_conditions (condition ∷ updates) conditions =
      let (first, changed) = update_condition condition conditions in
      let rest = update_conditions updates first in (rest.0, changed || rest.1)
