-- ===== src/Proposals.antt =====
-- Capability proposals: `create_capability_proposal` and `review_capability_proposal` of
-- services/app/core/v4_services.py.
pub mod Requests
pub mod Changes
pub mod Vouching
pub mod Once
mod Tests
use deep_foundry.Base.{
  ℕ, String, str_eq, Bool, true, false, ◌&&◌, Option, none, some, List, [], ◌∷◌, ◌++◌, any, find,
  ◌==◌, get_elem?, set, length, if◌then◌else◌,
}
use deep_foundry.Permissions.{Membership, membership_of, is_owner_or_admin}

-- `CapabilityProposal.TargetType` and `CapabilityProposal.Status`
pub data TargetType : Type 0 where
  tool skill : TargetType

pub data ProposalStatus : Type 0 where
  pending approved denied : ProposalStatus

-- What the code reads of a coworker, a tool, and a skill with the workspaces that installed it.
pub record Proposer : Type 0 where
  pub id : ℕ
  pub workspace_id : ℕ

pub record ToolEntry : Type 0 where
  pub id : ℕ
  pub name : String

pub record SkillEntry : Type 0 where
  pub id : ℕ
  pub name : String
  pub installed_in : List ℕ

-- `CapabilityProposal`; the id is its place in the table.
pub record Proposal : Type 0 where
  pub workspace_id : ℕ
  pub coworker_id : ℕ
  pub proposed_by_type : String
  pub target_type : TargetType
  pub target_id : ℕ
  pub target_name : String
  pub rationale : String
  pub status : ProposalStatus
  pub reviewed_by : Option ℕ
  pub reviewed_at : Option ℕ

-- `CoworkerToolAttachment` and `CoworkerSkillAttachment`, told apart by the type of their target.
pub record Attachment : Type 0 where
  pub coworker_id : ℕ
  pub target_type : TargetType
  pub target_id : ℕ
  pub enabled : Bool

pub record ProposalStore : Type 0 where
  pub members : List Membership
  pub tools : List ToolEntry
  pub skills : List SkillEntry
  pub proposals : List Proposal
  pub attachments : List Attachment
  pub audits : List (String × String)

pub data ProposalError : Type 0 where
  no_rationale bad_proposer tool_not_found skill_not_installed bad_target already_open :
      ProposalError
  not_admin already_reviewed tool_gone not_found : ProposalError

pub data Proposed {ℓ} (A : Type ℓ) : Type ℓ where
  ok : A → Proposed A
  error : ProposalError → Proposed A

abbrev pub same_type : TargetType → TargetType → Bool
same_type tool tool = true
same_type skill skill = true
same_type _ _ = false

abbrev pub is_pending : ProposalStatus → Bool
is_pending pending = true
is_pending _ = false

unfoldable pub tool_by_id : List ToolEntry → ℕ → Option ToolEntry
tool_by_id tools id = find (λ (t : ToolEntry). t.id == id) tools

unfoldable pub skill_by_id : List SkillEntry → ℕ → ℕ → Option SkillEntry
skill_by_id skills workspace id =
    find (λ (s : SkillEntry). (s.id == id) && any (λ w. w == workspace) s.installed_in) skills

-- An open proposal of the coworker for the target.
abbrev pub is_open_for : ℕ → TargetType → ℕ → Proposal → Bool
is_open_for coworker type target proposal =
    (proposal.coworker_id == coworker)
    && (same_type proposal.target_type type
        && ((proposal.target_id == target) && is_pending proposal.status))

-- `CapabilityProposal.ProposedByType.values`
abbrev pub is_proposer_type : String → Bool
is_proposer_type s = if str_eq s "coworker" then true else str_eq s "user"

abbrev pub actor_of : String → String
actor_of proposed_by = if str_eq proposed_by "coworker" then "coworker" else "user"

abbrev pub propose :
    ProposalStore → Proposer → TargetType → ℕ → String → String → String → Proposed ProposalStore
propose store coworker type target name rationale proposed_by =
    if any (is_open_for coworker.id type target) store.proposals
    then error already_open
    else ok (record store {
      proposals =
          store.proposals
          ++ (record {
            workspace_id = coworker.workspace_id;
            coworker_id = coworker.id;
            proposed_by_type = proposed_by;
            target_type = type;
            target_id = target;
            target_name = name;
            rationale = rationale;
            status = pending;
            reviewed_by = none;
            reviewed_at = none;
          }
              ∷ []);
      audits = (actor_of proposed_by, "capability.proposed") ∷ store.audits;
    })

abbrev pub propose_tool :
    ProposalStore → Proposer → String → String → Option ToolEntry → Proposed ProposalStore
propose_tool store coworker rationale proposed_by none = error tool_not_found
propose_tool store coworker rationale proposed_by (some t) =
    propose store coworker tool t.id t.name rationale proposed_by

abbrev pub propose_skill :
    ProposalStore → Proposer → String → String → Option SkillEntry → Proposed ProposalStore
propose_skill store coworker rationale proposed_by none = error skill_not_installed
propose_skill store coworker rationale proposed_by (some s) =
    propose store coworker skill s.id s.name rationale proposed_by

-- `create_capability_proposal`; `strip` is Python's.
unfoldable pub create_capability_proposal :
    (String → String)
    → ProposalStore
    → Proposer
    → String
    → ℕ
    → String
    → String
    → Proposed ProposalStore
create_capability_proposal strip store coworker target_type target_id rationale proposed_by =
    let by_tool =
      propose_tool store coworker (strip rationale) proposed_by
        (tool_by_id store.tools target_id) in
    let by_skill =
      propose_skill store coworker (strip rationale) proposed_by
        (skill_by_id store.skills coworker.workspace_id target_id) in
    if str_eq (strip rationale) ""
    then error no_rationale
    else if is_proposer_type proposed_by
    then (if str_eq target_type "tool"
        then by_tool
        else if str_eq target_type "skill"
        then by_skill
        else error bad_target)
    else error bad_proposer

-- `update_or_create(coworker=..., tool=..., defaults={"enabled": True})`
unfoldable pub attach : ℕ → TargetType → ℕ → List Attachment → List Attachment
attach coworker type target [] =
    record { coworker_id = coworker; target_type = type; target_id = target; enabled = true } ∷ []
attach coworker type target (a ∷ attachments) =
    let rest = attach coworker type target attachments in
    if (a.coworker_id == coworker) && (same_type a.target_type type && (a.target_id == target))
    then record a { enabled = true } ∷ attachments
    else a ∷ rest

-- `_require_admin`
abbrev pub is_reviewer : Option Membership → Bool
is_reviewer none = false
is_reviewer (some row) = is_owner_or_admin row.role

abbrev pub verdict_status : Bool → ProposalStatus
verdict_status true = approved
verdict_status false = denied

abbrev pub verdict_action : Bool → String
verdict_action true = "capability.approved"
verdict_action false = "capability.denied"

-- The saved proposal, whatever is attached.
abbrev pub save_review :
    ℕ → ProposalStore → ℕ → Proposal → ℕ → Bool → List Attachment → ProposalStore
save_review now store id proposal user approve attachments = record store {
  proposals = set store.proposals id (record proposal {
    status = verdict_status approve;
    reviewed_by = some user;
    reviewed_at = some now;
  });
  attachments = attachments;
  audits = ("user", verdict_action approve) ∷ store.audits;
}

abbrev pub is_some {ℓ} : {A : Type ℓ} → Option A → Bool
is_some none = false
is_some (some _) = true

-- Whether the target can be attached now, and the refusal if not.
unfoldable pub has_target : ProposalStore → Proposal → TargetType → Bool
has_target store proposal tool = is_some (tool_by_id store.tools proposal.target_id)
has_target store proposal skill =
    is_some (skill_by_id store.skills proposal.workspace_id proposal.target_id)

abbrev pub target_error : TargetType → ProposalError
target_error tool = tool_gone
target_error skill = skill_not_installed

abbrev pub attach_and_save : ℕ → ProposalStore → ℕ → Proposal → ℕ → Proposed ProposalStore
attach_and_save now store id proposal user =
    if has_target store proposal proposal.target_type
    then ok (
        save_review now store id proposal user true
          (attach proposal.coworker_id proposal.target_type proposal.target_id store.attachments))
    else error (target_error proposal.target_type)

abbrev pub review_pending : ℕ → ProposalStore → ℕ → Proposal → ℕ → Bool → Proposed ProposalStore
review_pending now store id proposal user true = attach_and_save now store id proposal user
review_pending now store id proposal user false =
    ok (save_review now store id proposal user false store.attachments)

abbrev pub review_found :
    ℕ → ProposalStore → ℕ → ℕ → Bool → Option Proposal → Proposed ProposalStore
review_found now store id user approve none = error not_found
review_found now store id user approve (some proposal) =
    if is_reviewer (membership_of store.members proposal.workspace_id user)
    then (if is_pending proposal.status
        then review_pending now store id proposal user approve
        else error already_reviewed)
    else error not_admin

-- `review_capability_proposal`, which reads the row again under a lock.
unfoldable pub review_capability_proposal :
    ℕ → ProposalStore → ℕ → ℕ → Bool → Proposed ProposalStore
review_capability_proposal now store id user approve =
    review_found now store id user approve (get_elem? store.proposals id)
