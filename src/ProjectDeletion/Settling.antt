-- ===== src/ProjectDeletion/Settling.antt =====
-- Updating conditions a second time changes nothing (UpdateProjectConditions of handlers/utils.go).
use kai_resource_management.Prelude.{
  nat_eq, ◌==◌, if◌then◌else◌, Bool-cases, eq_of_true, false_of_ne, All, In, here, there, Distinct,
  ℕ, String, eq_refl, ◌≡◌, refl, sym, ap, ◌∙◌, ◌≢◌, inl, inr, true, false, not, List, [], ◌∷◌, map,
  arith,
}
use kai_resource_management.ProjectDeletion.Conditions.{
  StatusCondition, with_transition, is_equal_to, update_condition, update_conditions,
}

-- An update at a later time would leave the conditions as they are.
abbrev IsSettled : ℕ → List StatusCondition → StatusCondition → Type 0
IsSettled later conditions condition =
    update_condition later condition conditions ≡ (conditions, false)

-- The condition with another transition time.
abbrev timed : StatusCondition → ℕ → StatusCondition
timed condition time = record condition { last_transition_time = time }

timed-IsSettled :
    (later : ℕ) (condition : StatusCondition) (time : ℕ) (others : List StatusCondition)
    → IsSettled later (timed condition time ∷ others) condition
unfolding update_condition
timed-IsSettled later condition time others =
    rw
      (
        eq_refl condition.condition_type,
        eq_refl condition.status,
        eq_refl condition.reason,
        eq_refl condition.message,
      )
      (let probe : nat_eq condition.last_probe_time condition.last_probe_time ≡ true =
          ground arith in
        let same : nat_eq time time ≡ true = ground arith in rw (probe, same) refl)

updated-IsSettled :
    (now later : ℕ) (condition : StatusCondition) (conditions : List StatusCondition)
    → IsSettled later (update_condition now condition conditions).0 condition
unfolding update_condition
updated-IsSettled now later condition [] = timed-IsSettled later condition now []
updated-IsSettled now later condition (old ∷ others) =
    elim (Bool-cases (old.condition_type == condition.condition_type)) [
      | inl e ↦ rw (e) (
          timed-IsSettled later condition
            (if condition.status == old.status then old.last_transition_time else now) others)
      | inr e ↦
          let rest = updated-IsSettled now later condition others in
          rw (e, e) (ap (λ r. (old ∷ r.0, r.1)) rest)
    ]

tail_of :
    {A B : Type 0} (a : A) (r : List A × B) (xs : List A) (b : B)
    → ◌≡◌ {A = List A × B} (a ∷ r.0, r.1) (a ∷ xs, b)
    → ◌≡◌ {A = List A × B} r (xs, b)
tail_of a (ys, c) xs b h = ground arith

head_of :
    {A B : Type 0} (a a' : A) (xs : List A) (b b' : B)
    → ◌≡◌ {A = List A × B} (a ∷ xs, b) (a' ∷ xs, b')
    → (a ≡ a') × (b ≡ b')
head_of a a' xs b b' h = (ground arith, ground arith)

other-IsSettled :
    (now later : ℕ) (condition other : StatusCondition) (conditions : List StatusCondition)
    → condition.condition_type ≢ other.condition_type
    → IsSettled later conditions condition
    → IsSettled later (update_condition now other conditions).0 condition
unfolding update_condition
other-IsSettled now later condition other [] differs h = absurd (cc)
other-IsSettled now later condition other (old ∷ others) differs h =
    elim (Bool-cases (old.condition_type == other.condition_type)) [
      | inl e ↦
          let apart : (old.condition_type == condition.condition_type) ≡ false =
            false_of_ne (λ k. differs (sym k ∙ eq_of_true e)) in
          let apart' : (other.condition_type == condition.condition_type) ≡ false =
            false_of_ne (λ k. differs (sym k)) in
          let rest =
            tail_of old (update_condition later condition others) others false (rw apart at h) in
          rw (e, apart') (ap (λ r. (with_transition now other old ∷ r.0, r.1)) rest)
      | inr e ↦ elim (Bool-cases (old.condition_type == condition.condition_type)) [
        | inl k ↦
            let kept =
              head_of (with_transition later condition old) old others
                (not (is_equal_to later (with_transition later condition old) old)) false
                (rw k at h) in
            rw (e, k, kept.1, kept.0) refl
        | inr k ↦
            let rest =
              tail_of old (update_condition later condition others) others false (rw k at h) in
            rw (e, k)
              (ap (λ r. (old ∷ r.0, r.1))
                (other-IsSettled now later condition other others differs rest))
      ]
    ]

abbrev kind_of : StatusCondition → String
kind_of condition = condition.condition_type

kept-IsSettled :
    (now later : ℕ) (condition : StatusCondition) (updates conditions : List StatusCondition)
    → ¬ In condition.condition_type (map kind_of updates)
    → IsSettled later conditions condition
    → IsSettled later (update_conditions now updates conditions).0 condition
unfolding update_conditions
kept-IsSettled now later condition [] conditions fresh h = h
kept-IsSettled now later condition (update ∷ updates) conditions fresh h =
    kept-IsSettled now later condition updates (update_condition now update conditions).0
      (λ m. fresh (there m))
      (other-IsSettled now later condition update conditions (λ e. fresh (here (sym e))) h)

settle_each :
    (now later : ℕ) (updates conditions : List StatusCondition)
    → Distinct (map kind_of updates)
    → All (IsSettled later (update_conditions now updates conditions).0) updates
unfolding update_conditions
settle_each now later [] conditions distinct = tt
settle_each now later (update ∷ updates) conditions distinct = (
  kept-IsSettled now later update updates (update_condition now update conditions).0 distinct.0
      (updated-IsSettled now later update conditions),
  settle_each now later updates (update_condition now update conditions).0 distinct.1,
)

settled_stays :
    (later : ℕ) (updates conditions : List StatusCondition)
    → All (IsSettled later conditions) updates
    → update_conditions later updates conditions ≡ (conditions, false)
unfolding update_conditions
settled_stays later [] conditions h = refl
settled_stays later (update ∷ updates) conditions h =
    rw (h.0, settled_stays later updates conditions h.1) refl

-- Conditions of distinct types that have been updated are left as they are by the same update at any
-- later time, which reports no change.
pub update_conditions_again :
    (now later : ℕ) (updates conditions : List StatusCondition)
    → Distinct (map kind_of updates)
    → update_conditions later updates (update_conditions now updates conditions).0
      ≡ ((update_conditions now updates conditions).0, false)
update_conditions_again now later updates conditions distinct =
    settled_stays later updates (update_conditions now updates conditions).0
      (settle_each now later updates conditions distinct)
