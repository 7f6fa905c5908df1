-- ===== src/Policy/Laws.antt =====
-- Which rule and which standing approval decide.
use mathlib.Core.List.{Memᴰ}
use deep_foundry.Base.{
  ℕ, String, str_eq, eq_iff, true, false, Option, none, some, List, [], ◌∷◌, ◌≡◌, inl, inr, refl,
  arith, find, keep, Option-cases, Bool-cases, All,
}
use deep_foundry.Base.Int.{ℤ}
use deep_foundry.Base.Dict.{Dict}
use deep_foundry.Base.Text.{split_on}
use deep_foundry.Base.Sorting.{
  sort_by, sort_by-IsOrdered, All-sort_by, All-of_sort_by, find_sound, find-none, find-least,
  All-map, All-Memᴰ, All-keep, All-of_keep, All-at,
}
use deep_foundry.Json.{Json}
use deep_foundry.Policy.{
  Rule, Effect, allow, rule_le, selects, conditions_hold, resolve_org_action_policy, ApprovalPolicy,
  Amount, matched, applies, value_at, Verdict, accept, skip, break, compare_amount, decimal_of,
  policy_verdict, first_policy, resolve_approval_policy, value_verdict, limit_verdict,
}

rule_le_total : (a b : Rule) → rule_le a b ≡ false → rule_le b a ≡ true
rule_le_total a b h = ground arith

rule_le_trans : (a b c : Rule) → rule_le a b ≡ true → rule_le b c ≡ true → rule_le a c ≡ true
rule_le_trans a b c h k = ground arith

rule_le_refl : (a : Rule) → rule_le a a ≡ true
rule_le_refl a = ground arith

-- How the rules of a workspace settle an action, independently of the query's order: by the rule
-- that comes first among those that match, or, if none matches, by allowing it.
pub data Settles (rules : List Rule) (workspace : ℕ) (resource_type action : String)
    (context : Dict Json) (effect : Effect) : Type 0 where
  by_rule :
      (rule : Rule)
      → Memᴰ rule rules
      → selects workspace resource_type action rule ≡ true
      → conditions_hold context rule ≡ true
      → All
          (λ other.
            selects workspace resource_type action other ≡ true
            → conditions_hold context other ≡ true
            → rule_le rule other ≡ true)
          rules
      → effect ≡ rule.effect
      → Settles rules workspace resource_type action context effect
  by_default :
      All
        (λ other.
          selects workspace resource_type action other ≡ true
          → conditions_hold context other ≡ false)
        rules
      → effect ≡ allow
      → Settles rules workspace resource_type action context effect

module _ (rules : List Rule) (workspace : ℕ) (resource_type action : String)
    (context : Dict Json) where
  abbrev selected : List Rule
  selected = keep (selects workspace resource_type action) rules

  by_found :
      (rule : Rule)
      → find (conditions_hold context) (sort_by rule_le selected) ≡ some rule
      → Settles rules workspace resource_type action context rule.effect
  by_found rule e =
      let (holds, (listed, picked)) =
        find_sound (conditions_hold context)
          (λ r. Memᴰ r rules × (selects workspace resource_type action r ≡ true)) _ rule e
          (All-sort_by rule_le _ selected (
            All-keep (selects workspace resource_type action) _ rules
              (All-map _ _ rules (λ r m q. (m, q)) (All-Memᴰ rules)))) in
      by_rule rule listed picked holds
        (All-of_keep (selects workspace resource_type action) _ rules (
          All-of_sort_by rule_le _ selected (
            find-least rule_le (conditions_hold context) rule_le_refl _ rule
              (sort_by-IsOrdered rule_le rule_le_total rule_le_trans selected) e)))
        refl

  -- The effect of an action is that of the matching rule that is first by priority and then by
  -- time of creation, and `allow` if no enabled rule of the workspace matches.
  pub resolve_org_action_policy-Settles :
      Settles rules workspace resource_type action context
        (resolve_org_action_policy rules workspace resource_type action context)
  unfolding resolve_org_action_policy
  resolve_org_action_policy-Settles =
      elim (Option-cases (find (conditions_hold context) (sort_by rule_le selected))) [
        | inl e ↦ rw e (
            by_default
              (All-of_keep (selects workspace resource_type action) _ rules
                (All-of_sort_by rule_le _ selected (find-none (conditions_hold context) _ e)))
              refl)
        | inr (rule, e) ↦ rw e (by_found rule e)
      ]

data IsVerdict (v : Verdict) : Type 0 where
  accepts : v ≡ accept → IsVerdict v
  skips : v ≡ skip → IsVerdict v
  breaks : v ≡ break → IsVerdict v

Verdict-cases : (v : Verdict) → IsVerdict v
Verdict-cases accept = accepts refl
Verdict-cases skip = skips refl
Verdict-cases break = breaks refl

module _ (decimal_of_text : String → Option Amount) where
  -- What a policy must say to let a call with these arguments through.
  pub data Consents (arguments : Json) (policy : ApprovalPolicy) : Type 0 where
    blanket : policy.argument_path ≡ "" → Consents arguments policy
    within :
        (limit : ℤ) (value : Json) (amount : Amount)
        → policy.max_amount ≡ some limit
        → value_at arguments (split_on b'.' policy.argument_path) ≡ some value
        → decimal_of decimal_of_text value ≡ some amount
        → compare_amount amount limit ≡ accept
        → Consents arguments policy

  value_verdict-accept :
      (value : Json) (limit : ℤ)
      → value_verdict decimal_of_text (some value) limit ≡ accept
      → (amount : Amount) × (decimal_of decimal_of_text value ≡ some amount)
        × (compare_amount amount limit ≡ accept)
  value_verdict-accept (Json.number m p) limit h = (Amount.finite m p, refl, h)
  value_verdict-accept (Json.text s) limit h = elim (Option-cases (decimal_of_text s)) [
    | inl e ↦ cc (rw e at h)
    | inr (a, e) ↦ (a, e, rw e at h)
  ]
  value_verdict-accept _ limit h = cc

  policy_verdict-accept :
      (arguments : Json) (policy : ApprovalPolicy)
      → policy_verdict decimal_of_text arguments policy ≡ accept
      → Consents arguments policy
  unfolding policy_verdict
  policy_verdict-accept arguments policy h = elim (Bool-cases (str_eq policy.argument_path "")) [
    | inl e ↦ blanket ((eq_iff _ _).0 e)
    | inr e ↦
        limited policy.max_amount refl (value_at arguments (split_on b'.' policy.argument_path))
          refl (rw e at h)
  ]
    where
      limited :
          (limit : Option ℤ)
          → policy.max_amount ≡ limit
          → (value : Option Json) → value_at arguments (split_on b'.' policy.argument_path) ≡ value
          → limit_verdict decimal_of_text limit value ≡ accept
          → Consents arguments policy
      limited none e value f a = cc
      limited (some limit) e none f a = cc
      limited (some limit) e (some value) f a =
          let (amount, parsed, fits) = value_verdict-accept value limit a in
          within limit value amount e f parsed fits

  first_policy_sound :
      (arguments : Json) (policies : List ApprovalPolicy) (i : ℕ)
      → first_policy decimal_of_text arguments policies ≡ matched i
      → (policy : ApprovalPolicy) × Memᴰ policy policies
        × (policy.id ≡ i)
        × Consents arguments policy
  unfolding first_policy
  first_policy_sound arguments [] i h = cc
  first_policy_sound arguments (p ∷ ps) i h =
      elim (Verdict-cases (policy_verdict decimal_of_text arguments p)) [
        | accepts e ↦
            (p, Memᴰ.head refl, cc (rw (e, first_policy) at h), policy_verdict-accept arguments p e)
        | skips e ↦
            let (q, listed, same, consents) =
              first_policy_sound arguments ps i (rw (e, first_policy) at h) in
            (q, Memᴰ.tail listed, same, consents)
        | breaks e ↦ cc (rw (e, first_policy) at h)
      ]

  -- A standing approval that is found belongs to the workspace, the tool and the coworker of the
  -- call or to any coworker, is enabled, and either has no condition or finds at its path a number
  -- that is at most its limit: a missing, Boolean or unreadable argument matches no limit.
  pub resolve_approval_policy_sound :
      (policies : List ApprovalPolicy) (workspace coworker tool : ℕ) (arguments : Json) (i : ℕ)
      → resolve_approval_policy decimal_of_text policies workspace coworker tool arguments
        ≡ matched i
      → (policy : ApprovalPolicy) × Memᴰ policy policies
        × (policy.id ≡ i)
        × (applies workspace coworker tool policy ≡ true)
        × Consents arguments policy
  unfolding resolve_approval_policy
  resolve_approval_policy_sound policies workspace coworker tool arguments i h =
      let (policy, kept, same, consents) =
        first_policy_sound arguments (keep (applies workspace coworker tool) policies) i h in
      let (listed, applied) = All-at _ kept (
        All-keep (applies workspace coworker tool)
          (λ q. Memᴰ q policies × (applies workspace coworker tool q ≡ true)) policies
          (All-map _ _ policies (λ q m t. (m, t)) (All-Memᴰ policies))) in
      (policy, listed, same, applied, consents)
