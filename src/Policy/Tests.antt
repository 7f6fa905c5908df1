-- ===== src/Policy/Tests.antt =====
-- A small set of rules and standing approvals, and the theorems on it.
use deep_foundry.Base.{String, true, Option, none, some, List, [], ◌∷◌, ◌≡◌, refl}
use deep_foundry.Base.Int.{pos, negsuc}
use deep_foundry.Base.Dict.{Dict}
use deep_foundry.Base.Text.{split_on}
use deep_foundry.Json.{Json, field, end, json_eq}
use deep_foundry.Policy.{
  Rule, Effect, resolve_org_action_policy, ApprovalPolicy, Amount, matched, applies,
  resolve_approval_policy, conditions_hold, first_policy, policy_verdict, value_at,
}
use deep_foundry.Policy.Laws.{
  Settles, resolve_org_action_policy-Settles, Consents, resolve_approval_policy_sound,
}
use mathlib.Core.List.{Memᴰ}

abbrev allow_all : Rule
allow_all = record {
  workspace_id = 1;
  resource_type = "tool";
  action = "*";
  conditions = [];
  effect = Effect.allow;
  priority = pos 10;
  enabled = true;
  created_at = 0;
}

abbrev deny_dangerous : Rule
deny_dangerous = record {
  workspace_id = 1;
  resource_type = "*";
  action = "execute";
  conditions = ("risk", Json.text "dangerous") ∷ [];
  effect = Effect.deny;
  priority = negsuc 0;
  enabled = true;
  created_at = 5;
}

abbrev rules : List Rule
rules = allow_all ∷ deny_dangerous ∷ []

abbrev context : Dict Json
context = ("risk", Json.text "dangerous") ∷ []

lower_priority_first : resolve_org_action_policy rules 1 "tool" "execute" context ≡ Effect.deny
unfolding resolve_org_action_policy conditions_hold json_eq
lower_priority_first = refl

-- Standing approvals: up to 25.00 at `payment.amount`.
abbrev small_payments : ApprovalPolicy
small_payments = record {
  id = 3;
  workspace_id = 1;
  coworker_id = none;
  tool_id = 9;
  argument_path = "payment.amount";
  max_amount = some (pos 2500);
  enabled = true;
}

abbrev policies : List ApprovalPolicy
policies = small_payments ∷ []

abbrev no_text : String → Option Amount
no_text s = none

abbrev payment : Json
payment =
    Json.object (field "payment" (Json.object (field "amount" (Json.number (pos 20) 0) end)) end)

small_payment : resolve_approval_policy no_text policies 1 4 9 payment ≡ matched 3
unfolding resolve_approval_policy first_policy policy_verdict value_at split_on
small_payment = refl

resolve_approval_policy_sound_example :
    (policy : ApprovalPolicy) × Memᴰ policy policies
    × (policy.id ≡ 3)
    × (applies 1 4 9 policy ≡ true)
    × Consents no_text payment policy
resolve_approval_policy_sound_example =
    resolve_approval_policy_sound no_text policies 1 4 9 payment 3 small_payment

resolve_org_action_policy-Settles_example :
    Settles rules 1 "tool" "execute" context
      (resolve_org_action_policy rules 1 "tool" "execute" context)
resolve_org_action_policy-Settles_example =
    resolve_org_action_policy-Settles rules 1 "tool" "execute" context
