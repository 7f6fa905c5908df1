-- ===== src/Proposals/Tests.antt =====
-- A coworker asks for a tool, its owner approves, and the theorem on the store after that.
use deep_foundry.Base.{none, some, String, [], ◌∷◌, ◌≡◌, refl, true}
use deep_foundry.Permissions.{Role, membership_of}
use deep_foundry.Proposals.{
  TargetType, ProposalStatus, Proposer, Proposal, ProposalStore, Proposed, tool_by_id, has_target,
  attach, create_capability_proposal, review_capability_proposal,
}
use deep_foundry.Proposals.Requests.{started, stepped, Request}
use deep_foundry.Proposals.Vouching.{IsVouched}
use deep_foundry.Proposals.Once.{IsOpenOnce, Reachable-IsVouched}

abbrev same : String → String
same s = s

abbrev start : ProposalStore
start = record {
  members = record { workspace_id = 1; user_id = 7; role = Role.owner } ∷ [];
  tools = record { id = 5; name = "send_mail" } ∷ [];
  skills = [];
  proposals = [];
  attachments = [];
  audits = [];
}

abbrev ada : Proposer
ada = record { id = 2; workspace_id = 1 }

abbrev asked : Proposal
asked = record {
  workspace_id = 1;
  coworker_id = 2;
  proposed_by_type = "coworker";
  target_type = TargetType.tool;
  target_id = 5;
  target_name = "send_mail";
  rationale = "To answer customers.";
  status = ProposalStatus.pending;
  reviewed_by = none;
  reviewed_at = none;
}

abbrev proposed : ProposalStore
proposed = record start {
  proposals = asked ∷ [];
  audits = ("coworker", "capability.proposed") ∷ [];
}

abbrev reviewed : ProposalStore
reviewed = record proposed {
  proposals =
      record asked {
        status = ProposalStatus.approved;
        reviewed_by = some 7;
        reviewed_at = some 100;
      }
      ∷ [];
  attachments =
      record { coworker_id = 2; target_type = TargetType.tool; target_id = 5; enabled = true } ∷ [];
  audits = ("user", "capability.approved") ∷ ("coworker", "capability.proposed") ∷ [];
}

proposes_it :
    create_capability_proposal same start ada "tool" 5 "To answer customers." "coworker"
    ≡ Proposed.ok proposed
unfolding create_capability_proposal tool_by_id
proposes_it = refl

reviews_it : review_capability_proposal 100 proposed 0 7 true ≡ Proposed.ok reviewed
unfolding review_capability_proposal membership_of has_target tool_by_id attach
reviews_it = refl

Reachable-IsVouched_example : IsVouched reviewed × IsOpenOnce reviewed.proposals
Reachable-IsVouched_example = Reachable-IsVouched same start reviewed refl refl (
    stepped
      (stepped started
        (Request.proposes ada "tool" 5 "To answer customers." "coworker" proposes_it))
      (Request.reviews 100 0 7 true reviews_it))
