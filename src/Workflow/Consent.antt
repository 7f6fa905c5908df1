-- ===== src/Workflow/Consent.antt =====
-- Which tools `advance_workflow_run` calls, and with whose consent.
use deep_foundry.Base.{ℕ, some, List, ◌≡◌, ◌≢◌, ◌⊎◌, inl, inr, refl, All}
use deep_foundry.Base.Sorting.{All-Memᴰ, All-map}
use mathlib.Core.List.{Memᴰ}
use mathlib.Core.Path.{subst}
use deep_foundry.Json.{Json}
use deep_foundry.Permissions.{auto, approval, resolve_tool_permission}
use deep_foundry.Policy.{Effect, allow, deny, require_approval}
use deep_foundry.Workflow.State.{Step, Run, Approval, ApprovalStatus, Call, approval_for_step}
use deep_foundry.Workflow.Engine.{Env, Tool, CoworkerConfig, Turn, checkpoint_turn}
use deep_foundry.Workflow.ToolStep.{decision, org_decision, raise_decision}
use deep_foundry.Workflow.Effects.{
  Does, passes, jumps, finishes, executes, executes_failing, executes_raising, Permitted,
}
use deep_foundry.Workflow.Induction.{Leaves, advance_rule}
use deep_foundry.Workflow.Advance.{advance_workflow_run}

-- The newest approval request of the step is approved.
abbrev pub IsApproved : List Approval → ℕ → Type 0
IsApproved approvals step =
    (request : Approval) × (approval_for_step approvals step ≡ some request)
    × (request.status ≡ ApprovalStatus.approved)

-- What a call of a tool rests on.
pub record Vouched (env : Env) (approvals : List Approval) (call : Call) : Type 0 where
  pub coworker : Json
  pub tool_name : Json
  pub tool : Tool
  pub config : CoworkerConfig
  pub attached : env.attachment coworker tool_name ≡ some tool
  pub configured : env.config coworker ≡ some config
  pub named : call.name ≡ tool.name
  pub not_denied : org_decision env tool ≢ deny
  pub consent : (decision env tool config ≡ auto) ⊎ IsApproved approvals call.step
  pub dangerous : tool.risk_classification ≡ "dangerous" → IsApproved approvals call.step

dangerous_lem :
    (tool : Tool) (config : CoworkerConfig)
    → tool.risk_classification ≡ "dangerous"
    → resolve_tool_permission tool.risk_classification config.permission_profile
        (some config.org_policy_floor)
      ≡ approval
unfolding resolve_tool_permission
dangerous_lem tool config e = rw e refl

dangerous-decision :
    (env : Env) (tool : Tool) (config : CoworkerConfig)
    → tool.risk_classification ≡ "dangerous"
    → decision env tool config ≢ auto
unfolding decision
dangerous-decision env tool config e h = refuted (org_decision env tool) h
  where
    refuted :
        (effect : Effect)
        → raise_decision effect (
            resolve_tool_permission tool.risk_classification config.permission_profile
              (some config.org_policy_floor))
          ≡ auto
        → ⊥
    refuted allow a = cc (dangerous_lem tool config e, a)
    refuted deny a = cc (dangerous_lem tool config e, a)
    refuted require_approval a = cc a

Vouched-new :
    (env : Env) (run : Run) (step : Step) (tool : Tool) (arguments : Json)
    → Permitted env run step tool
    → Vouched env run.approvals
        (record { step = run.current_step_index; name = tool.name; arguments = arguments })
Vouched-new env run step tool arguments permitted = record {
  coworker = permitted.coworker;
  tool_name = permitted.tool_name;
  tool = tool;
  config = permitted.config;
  attached = permitted.attached;
  configured = permitted.configured;
  named = refl;
  not_denied = permitted.not_denied;
  consent = elim permitted.consent [ inl (_, e) ↦ inl e | inr approved ↦ inr approved ];
  dangerous = λ e. elim permitted.consent [
    | inl (_, d) ↦ absurd (dangerous-decision env tool permitted.config e d)
    | inr approved ↦ approved
  ];
}

-- A call of the run is an earlier one or rests on consent.
abbrev pub Justified : Env → List Approval → List Call → Call → Type 0
Justified env approvals earlier call = Memᴰ call earlier ⊎ Vouched env approvals call

module _ (env : Env) (approvals : List Approval) (earlier : List Call) where
  abbrev AllJustified : Run → Type 0
  AllJustified run = All (Justified env approvals earlier) run.calls

  abbrev Keeps : Run → Type 0
  Keeps run = (run.approvals ≡ approvals) × AllJustified run

  add_call :
      (run : Run) (step : Step) (tool : Tool) (arguments : Json)
      → Permitted env run step tool
      → Keeps run
      → Justified env approvals earlier
          (record { step = run.current_step_index; name = tool.name; arguments = arguments })
  add_call run step tool arguments permitted (same, justified) = inr (
      subst
        (λ rows.
          Vouched env rows
            (record { step = run.current_step_index; name = tool.name; arguments = arguments }))
        same (Vouched-new env run step tool arguments permitted))

  Does-Justified :
      (run : Run) (t : Turn) → Does env run t → Keeps run → Leaves Keeps (λ r _. AllJustified r) t
  unfolding checkpoint_turn
  Does-Justified run t (passes s found closed) h = h
  Does-Justified run t (jumps s done j found opened closed) h = h
  Does-Justified run t (finishes s task found opened) h = h
  Does-Justified run t (executes s tool result found opened permitted) h =
      (h.0, (add_call run s tool _ permitted h, h.1))
  Does-Justified run t (executes_failing s failed tool found opened still active permitted) h =
      (add_call run s tool _ permitted h, h.1)
  Does-Justified run t (executes_raising s tool found opened permitted) h =
      (add_call run s tool _ permitted h, h.1)
  Does-Justified run t _ h = h.1

-- Every tool call that `advance_workflow_run` makes is of a tool attached to a coworker, no rule of
-- the organization denies it, and it is decided `auto` or the newest approval request of its step is
-- approved; for a dangerous tool that request is approved in any case.
pub advance_workflow_run-Justified :
    (env : Env) (run : Run)
    → All (Justified env run.approvals run.calls) (advance_workflow_run env run).0.calls
unfolding advance_workflow_run
advance_workflow_run-Justified env run =
    advance_rule env (Keeps env run.approvals run.calls)
      (λ r _. AllJustified env run.approvals run.calls r)
      (λ r t does. Does-Justified env run.approvals run.calls r t does) (λ r h. h.1) _ run
      (refl, All-map _ _ run.calls (λ c m. inl m) (All-Memᴰ run.calls))
