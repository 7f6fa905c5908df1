-- ===== src/Policy.antt =====
-- The organization's rules on actions and the members' standing approvals:
-- `resolve_org_action_policy` and `resolve_approval_policy` of services/app/core/interface.py.
pub mod Laws
mod Tests
use deep_foundry.Base.{
  ℕ, String, str_eq, Bool, true, false, ◌&&◌, ◌||◌, Option, none, some, List, [], ◌∷◌, ◌==◌, leb,
  all, find, keep, if◌then◌else◌,
}
use deep_foundry.Base.Int.{ℤ, ltb_ℤ, pos_part, neg_part}
use deep_foundry.Base.Dict.{Dict, lookup}
use deep_foundry.Base.Sorting.{sort_by}
use deep_foundry.Base.Text.{split_on}
use deep_foundry.Json.{
  Json, null, boolean, number, text, array, object, get, json_eq, or_null, le_number,
}

-- `OrganizationPolicyRule.Effect`
pub data Effect : Type 0 where
  allow deny require_approval : Effect

-- A row of `OrganizationPolicyRule`.
pub record Rule : Type 0 where
  pub workspace_id : ℕ
  pub resource_type : String
  pub action : String
  pub conditions : Dict Json
  pub effect : Effect
  pub priority : ℤ
  pub enabled : Bool
  pub created_at : ℕ

-- The order of the query: by priority, and by the time of creation within one priority.
abbrev pub rule_le : Rule → Rule → Bool
rule_le r s =
    if ltb_ℤ r.priority s.priority
    then true
    else (if ltb_ℤ s.priority r.priority then false else leb r.created_at s.created_at)

-- The rows that the query selects.
abbrev pub selects : ℕ → String → String → Rule → Bool
selects workspace resource_type action rule =
    (rule.workspace_id == workspace)
    && (rule.enabled
        && ((str_eq rule.resource_type resource_type || str_eq rule.resource_type "*")
            && (str_eq rule.action action || str_eq rule.action "*")))

-- `all(context.get(key) == value for key, value in rule.conditions.items())`
unfoldable pub conditions_hold : Dict Json → Rule → Bool
conditions_hold context rule =
    all (λ (e : String × Json). json_eq (or_null (lookup e.0 context)) e.1) rule.conditions

abbrev pub effect_of : Option Rule → Effect
effect_of none = allow
effect_of (some rule) = rule.effect

unfoldable pub resolve_org_action_policy : List Rule → ℕ → String → String → Dict Json → Effect
resolve_org_action_policy rules workspace resource_type action context = effect_of (
    find (conditions_hold context)
      (sort_by rule_le (keep (selects workspace resource_type action) rules)))

-- A row of `ApprovalPolicy`; `max_amount` is a number of cents.
pub record ApprovalPolicy : Type 0 where
  pub id : ℕ
  pub workspace_id : ℕ
  pub coworker_id : Option ℕ
  pub tool_id : ℕ
  pub argument_path : String
  pub max_amount : Option ℤ
  pub enabled : Bool

-- A `Decimal`.
pub data Amount : Type 0 where
  finite : ℤ → ℕ → Amount
  infinite : Bool → Amount
  nan : Amount

-- `amount <= max_amount`, which raises for a NaN.
pub data Answer : Type 0 where
  matched : ℕ → Answer
  no_match : Answer
  raised : Answer

abbrev pub null_coworker : Option ℕ → ℕ → Bool
null_coworker none coworker = true
null_coworker (some c) coworker = c == coworker

abbrev pub applies : ℕ → ℕ → ℕ → ApprovalPolicy → Bool
applies workspace coworker tool policy =
    (policy.workspace_id == workspace)
    && ((policy.tool_id == tool) && (policy.enabled && null_coworker policy.coworker_id coworker))

-- The loop over the parts of the path; a missing part, or a part of what is no dict, gives `None`.
unfoldable pub value_at : Json → List String → Option Json
value_at value [] = some value
value_at value (part ∷ parts) = elim (get part value) [
  | none ↦ none
  | some inner ↦ value_at inner parts
]

-- How one policy answers: it matches, it does not, or the comparison raises.
pub data Verdict : Type 0 where
  accept skip break : Verdict

-- `amount <= policy.max_amount`; the bool of an infinity says that it is negative
abbrev pub compare_amount : Amount → ℤ → Verdict
compare_amount (finite m p) limit = if le_number m p limit 2 then accept else skip
compare_amount (infinite negative) limit = if negative then accept else skip
compare_amount nan limit = break

abbrev pub amount_verdict : Option Amount → ℤ → Verdict
amount_verdict none limit = skip
amount_verdict (some amount) limit = compare_amount amount limit

-- `decimal_of_text` stands for `Decimal(s)` on a text, which is `none` where it raises
-- `InvalidOperation`.
module _ (decimal_of_text : String → Option Amount) where
  -- `Decimal(str(value))`: the text of a list or a dict is no number.
  abbrev pub decimal_of : Json → Option Amount
  decimal_of (number m p) = some (finite m p)
  decimal_of (text s) = decimal_of_text s
  decimal_of _ = none

  -- `value is None or isinstance(value, bool)` is skipped.
  abbrev pub value_verdict : Option Json → ℤ → Verdict
  value_verdict none limit = skip
  value_verdict (some null) limit = skip
  value_verdict (some (boolean _)) limit = skip
  value_verdict (some v) limit = amount_verdict (decimal_of v) limit

  abbrev pub limit_verdict : Option ℤ → Option Json → Verdict
  limit_verdict none value = skip
  limit_verdict (some limit) value = value_verdict value limit

  unfoldable pub policy_verdict : Json → ApprovalPolicy → Verdict
  policy_verdict arguments policy =
      if str_eq policy.argument_path ""
      then accept
      else limit_verdict policy.max_amount (value_at arguments (split_on b'.' policy.argument_path))

  -- The loop over the policies of the query.
  unfoldable pub first_policy : Json → List ApprovalPolicy → Answer
  first_policy arguments [] = no_match
  first_policy arguments (policy ∷ policies) = elim (policy_verdict arguments policy) [
    | accept ↦ matched policy.id
    | skip ↦ first_policy arguments policies
    | break ↦ raised
  ]

  unfoldable pub resolve_approval_policy : List ApprovalPolicy → ℕ → ℕ → ℕ → Json → Answer
  resolve_approval_policy policies workspace coworker tool arguments =
      first_policy arguments (keep (applies workspace coworker tool) policies)
