-- ===== src/Proposals/Requests.antt =====
-- The life of proposals and attachments, step by step (services/app/core/v4_services.py).
use deep_foundry.Base.{ℕ, String, Bool, ◌≡◌}
use deep_foundry.Proposals.{
  Proposer, ProposalStore, ok, create_capability_proposal, review_capability_proposal,
}

-- A request that succeeds: a proposal is made, or one is reviewed.
pub data Request (strip : String → String) (before after : ProposalStore) : Type 0 where
  proposes :
      (coworker : Proposer) (target_type : String) (target_id : ℕ) (rationale proposed_by : String)
      → create_capability_proposal strip before coworker target_type target_id rationale proposed_by
        ≡ ok after
      → Request strip before after
  reviews :
      (now id user : ℕ) (approve : Bool)
      → review_capability_proposal now before id user approve ≡ ok after
      → Request strip before after

pub data Reachable (strip : String → String) (start : ProposalStore) : ProposalStore → Type 0 where
  started : Reachable strip start start
  stepped :
      {before after : ProposalStore}
      → Reachable strip start before
      → Request strip before after
      → Reachable strip start after
