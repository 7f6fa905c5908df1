-- ===== src/Billing/Laws.antt =====
-- Which plan is the default.
use mathlib.Core.List.{Memᴰ}
use deep_foundry.Base.{
  Bool, true, false, ◌&&◌, Option, none, some, List, ◌≡◌, inl, inr, arith, find, All, Option-cases,
}
use deep_foundry.Base.Sorting.{
  sort_by, sort_by-IsOrdered, find-least, find_sound, find-none, All-sort_by, All-of_sort_by,
  All-Memᴰ,
}
use deep_foundry.Billing.{Plan, plan_le, default_plan}

plan_le_total : (p q : Plan) → plan_le p q ≡ false → plan_le q p ≡ true
plan_le_total p q h = ground arith

plan_le_trans : (p q r : Plan) → plan_le p q ≡ true → plan_le q r ≡ true → plan_le p r ≡ true
plan_le_trans p q r h k = ground arith

plan_le_refl : (p : Plan) → plan_le p p ≡ true
plan_le_refl p = ground arith

-- The first plan in the table's order among those that pass a test.
pub record IsFirst (plans : List Plan) (test : Plan → Bool) (plan : Plan) : Type 0 where
  pub listed : Memᴰ plan plans
  pub passes : test plan ≡ true
  pub first : All (λ other. test other ≡ true → plan_le plan other ≡ true) plans

-- How a workspace gets its default plan.
pub data IsDefault (plans : List Plan) : Option Plan → Type 0 where
  marked :
      (plan : Plan)
      → IsFirst plans (λ p. p.is_default && p.active) plan
      → IsDefault plans (some plan)
  cheapest :
      (plan : Plan)
      → All (λ p. (p.is_default && p.active) ≡ false) plans
      → IsFirst plans (λ p. p.active) plan
      → IsDefault plans (some plan)
  no_plan : All (λ p. p.active ≡ false) plans → IsDefault plans none

find-IsFirst :
    (plans : List Plan) (test : Plan → Bool) (plan : Plan)
    → find test (sort_by plan_le plans) ≡ some plan
    → IsFirst plans test plan
find-IsFirst plans test plan e =
    let (passes, listed) =
      find_sound test (λ p. Memᴰ p plans) (sort_by plan_le plans) plan e
        (All-sort_by plan_le _ plans (All-Memᴰ plans)) in
    record {
      listed = listed;
      passes = passes;
      first = All-of_sort_by plan_le _ plans (
          find-least plan_le test plan_le_refl _ plan
            (sort_by-IsOrdered plan_le plan_le_total plan_le_trans plans) e);
    }

find_nothing :
    (plans : List Plan) (test : Plan → Bool)
    → find test (sort_by plan_le plans) ≡ none
    → All (λ p. test p ≡ false) plans
find_nothing plans test e = All-of_sort_by plan_le _ plans (find-none test _ e)

-- The default plan is the first active plan that is marked as the default, by its place and then by
-- its price; without one it is the first active plan, and there is none only if no plan is active.
pub default_plan-IsDefault : (plans : List Plan) → IsDefault plans (default_plan plans)
unfolding default_plan
default_plan-IsDefault plans =
    elim (Option-cases (find (λ (p : Plan). p.is_default && p.active) (sort_by plan_le plans))) [
      | inr (plan, e) ↦ rw e (marked plan (find-IsFirst plans _ plan e))
      | inl e ↦ rw e (elim (Option-cases (find (λ (p : Plan). p.active) (sort_by plan_le plans))) [
        | inr (plan, f) ↦
            rw f (cheapest plan (find_nothing plans _ e) (find-IsFirst plans _ plan f))
        | inl f ↦ rw f (no_plan (find_nothing plans _ f))
      ])
    ]
