-- ===== src/Workflow/ResumeTests.antt =====
-- A run that waits for an approval of a tool call, and the theorem on it.
use deep_foundry.Base.{ℕ, true, false, none, some, [], ◌∷◌, ◌≡◌, ◌≢◌, refl}
use deep_foundry.Json.{text, object, field, end}
use deep_foundry.Permissions.{Role, Coworker, AccessError, get_coworker_for_member, membership_of}
use deep_foundry.Policy.{allow, deny, resolve_org_action_policy}
use deep_foundry.Workflow.State.{
  Run, RunStatus, Step, StepType, StepStatus, StepResult, Approval, ApprovalStatus,
}
use deep_foundry.Workflow.Engine.{Env, Tool, CoworkerConfig}
use deep_foundry.Workflow.ToolStep.{execute, org_decision}
use deep_foundry.Workflow.Advance.{turn, returned, advance_workflow_run}
use deep_foundry.Workflow.Decisions.{decide_approval_request}
use deep_foundry.Workflow.Verdicts.{
  Reader, answered, no_access, decided_before, answer_approval_request, resume_step,
}
use deep_foundry.Workflow.Resumed.{Waits, answer_approval_request_lem}

abbrev mailer : Tool
mailer = record { id = 5; name = "send_mail"; risk_classification = "dangerous" }

abbrev config : CoworkerConfig
config = record { permission_profile = []; org_policy_floor = [] }

abbrev env : Env
env = record {
  now = 100;
  workspace_id = 1;
  attachment = λ coworker tool. some mailer;
  config = λ coworker. some config;
  rules = [];
  execute_workflow_tool = λ name arguments. none;
  show = λ value. "";
  cast_index = λ value. none;
  refuses_task = λ task. false;
}

abbrev step : Step
step = record {
  step_type = StepType.tool_call;
  status = StepStatus.needs_approval;
  definition = object (field "coworker_id" (text "c") (field "tool_name" (text "send_mail") end));
  result = StepResult.empty;
  started_at = some 5;
  completed_at = none;
}

abbrev request : ApprovalStatus → Approval
request status = record {
  id = 8;
  step = 0;
  coworker_id = text "c";
  tool_id = 5;
  name = "send_mail";
  arguments = object end;
  status = status;
}

abbrev run_with : ApprovalStatus → Run
run_with status = record {
  status = RunStatus.needs_approval;
  current_step_index = 0;
  context = object end;
  completed_at = none;
  steps = step ∷ [];
  tasks = [];
  approvals = request status ∷ [];
  notices = [];
  calls = [];
  queued = [];
  next_id = 9;
}

abbrev run : Run
run = run_with ApprovalStatus.pending

abbrev helper : Coworker
helper = record { id = 3; workspace_id = 1 }

abbrev reader_as : ℕ → Reader
reader_as user = record {
  members = record { workspace_id = 1; user_id = 7; role = Role.member } ∷ [];
  coworkers = helper ∷ [];
  user = user;
  id_of = λ v. 3;
}

waits : Waits (reader_as 7) run 8 step (request ApprovalStatus.pending)
unfolding get_coworker_for_member membership_of
waits = record {
  request = refl;
  newest = refl;
  pending = refl;
  current = refl;
  coworker = helper;
  access = refl;
}

stranger :
    answer_approval_request (reader_as 4) run 8 true 60 ≡ no_access AccessError.permission_denied
unfolding answer_approval_request get_coworker_for_member membership_of
stranger = refl

too_late :
    answer_approval_request (reader_as 7) (run_with ApprovalStatus.denied) 8 true 60
    ≡ decided_before ApprovalStatus.denied
unfolding answer_approval_request get_coworker_for_member membership_of decide_approval_request
too_late = refl

allowed_here : org_decision env mailer ≡ allow
unfolding org_decision resolve_org_action_policy
allowed_here = refl

not_denied : org_decision env mailer ≢ deny
not_denied e = cc allowed_here

answer_approval_request_lem_example :
    ((next : Run) × (answer_approval_request (reader_as 7) run 8 true 60 ≡ answered next true)
      × (turn env next ≡ execute env next (resume_step step true 60) mailer))
    × ((next : Run) × (answer_approval_request (reader_as 7) run 8 false 60 ≡ answered next false)
        × (next.status ≡ RunStatus.failed)
        × (next.calls ≡ run.calls)
        × (advance_workflow_run env next ≡ (next, returned false)))
answer_approval_request_lem_example =
    answer_approval_request_lem (reader_as 7) run 8 step (request ApprovalStatus.pending) 60 env
      (text "c") (text "send_mail") mailer config waits refl refl refl refl refl not_denied
