-- ===== src/Api/Equality.antt =====
-- reflect.DeepEqual on two values of ActionStatus, and what the deep copy of one equals.
use k8s_ops_platform.Prelude.{
  ℕ, Option, none, some, List, [], ◌∷◌, Bool, true, false, ◌&&◌, ◌==◌, ◌≡◌, refl, arith, eq_iff,
  eqb, ap,
}
use k8s_ops_platform.Prelude.Int.{eqb_ℤ, eqb_ℤ_eq, eqb_ℤ_refl}
use k8s_ops_platform.Api.{Condition, ActionStatus, copy_time, copy_conditions, deep_copy_value}
use text.Mathlib.TextPositions.{eq_refl}

eqb_refl : (n : ℕ) → eqb n n ≡ true
eqb_refl n = ground arith

time_eq : Option ℕ → Option ℕ → Bool
time_eq none none = true
time_eq (some a) (some b) = eqb a b
time_eq _ _ = false

condition_eq : Condition → Condition → Bool
condition_eq a b =
    a.type == b.type
    && a.status == b.status
    && eqb_ℤ a.observed_generation b.observed_generation
    && eqb a.last_transition_time b.last_transition_time
    && a.reason == b.reason
    && a.message == b.message

conditions_eq : List Condition → List Condition → Bool
conditions_eq [] [] = true
conditions_eq (a ∷ xs) (b ∷ ys) = condition_eq a b && conditions_eq xs ys
conditions_eq _ _ = false

unfoldable pub status_eq : ActionStatus → ActionStatus → Bool
unfolding time_eq condition_eq conditions_eq
status_eq a b =
    a.phase == b.phase
    && a.message == b.message
    && time_eq a.started_at b.started_at
    && time_eq a.completed_at b.completed_at
    && eqb_ℤ a.observed_generation b.observed_generation
    && eqb_ℤ a.retry_count b.retry_count
    && conditions_eq a.conditions b.conditions
    && a.execution_state == b.execution_state
    && a.target_uid == b.target_uid
    && a.workload_kind == b.workload_kind
    && a.workload_name == b.workload_name

copy_time_lem : (t : Option ℕ) → copy_time t ≡ t
unfolding copy_time
copy_time_lem none = refl
copy_time_lem (some t) = refl

copy_conditions_lem : (cs : List Condition) → copy_conditions cs ≡ cs
unfolding copy_conditions
copy_conditions_lem [] = refl
copy_conditions_lem (c ∷ cs) = ap (◌∷◌ c) (copy_conditions_lem cs)

pub deep_copy_value_lem : (s : ActionStatus) → deep_copy_value s ≡ s
unfolding deep_copy_value
deep_copy_value_lem s =
    rw (copy_time_lem s.started_at, copy_time_lem s.completed_at, copy_conditions_lem s.conditions)

time_eq_refl : (t : Option ℕ) → time_eq t t ≡ true
unfolding time_eq
time_eq_refl t = ground arith

eq_of_time_eq : (s t : Option ℕ) → time_eq s t ≡ true → s ≡ t
unfolding time_eq
eq_of_time_eq s t h = ground arith

condition_eq_refl : (c : Condition) → condition_eq c c ≡ true
unfolding condition_eq
condition_eq_refl c = simp (eq_refl, eqb_ℤ_refl, eqb_refl)

eq_of_condition_eq : (a b : Condition) → condition_eq a b ≡ true → a ≡ b
unfolding condition_eq
eq_of_condition_eq a b h = ground (
  arith,
  eq_iff a.type b.type,
  eq_iff a.status b.status,
  eq_iff a.reason b.reason,
  eq_iff a.message b.message,
  eqb_ℤ_eq a.observed_generation b.observed_generation,
)

conditions_eq_refl : (cs : List Condition) → conditions_eq cs cs ≡ true
unfolding conditions_eq
conditions_eq_refl [] = refl
conditions_eq_refl (c ∷ cs) = rw (condition_eq_refl c, conditions_eq_refl cs)

eq_of_conditions_eq : (xs ys : List Condition) → conditions_eq xs ys ≡ true → xs ≡ ys
unfolding conditions_eq
eq_of_conditions_eq [] [] h = refl
eq_of_conditions_eq [] (y ∷ ys) h = cc
eq_of_conditions_eq (x ∷ xs) [] h = cc
eq_of_conditions_eq (x ∷ xs) (y ∷ ys) h =
    ground (arith, eq_of_condition_eq x y, eq_of_conditions_eq xs ys)

ruleset reflexive = (eq_refl, eqb_ℤ_refl, time_eq_refl, conditions_eq_refl)

pub status_eq_refl : (s : ActionStatus) → status_eq s s ≡ true
unfolding status_eq
status_eq_refl s = simp reflexive

pub status_eq-copy : (s : ActionStatus) → status_eq (deep_copy_value s) s ≡ true
status_eq-copy s = rw (deep_copy_value_lem s) (status_eq_refl s)

pub eq_of_status_eq : (a b : ActionStatus) → status_eq a b ≡ true → a ≡ b
unfolding status_eq
eq_of_status_eq a b h = ground (
  arith,
  eq_iff a.phase b.phase,
  eq_iff a.message b.message,
  eq_iff a.execution_state b.execution_state,
  eq_iff a.target_uid b.target_uid,
  eq_iff a.workload_kind b.workload_kind,
  eq_iff a.workload_name b.workload_name,
  eqb_ℤ_eq a.observed_generation b.observed_generation,
  eqb_ℤ_eq a.retry_count b.retry_count,
  eq_of_time_eq a.started_at b.started_at,
  eq_of_time_eq a.completed_at b.completed_at,
  eq_of_conditions_eq a.conditions b.conditions,
)
