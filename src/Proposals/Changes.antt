-- ===== src/Proposals/Changes.antt =====
-- What a request on proposals that succeeds does to the store (services/app/core/v4_services.py).
use deep_foundry.Base.{
  ℕ, String, str_eq, Bool, true, false, Option, none, some, List, [], ◌∷◌, ◌++◌, any, get_elem?,
  ◌≡◌, refl, Bool-cases, inl, inr, if◌then◌else◌,
}
use mathlib.Core.Path.{subst}
use deep_foundry.Permissions.{membership_of}
use deep_foundry.Proposals.{
  TargetType, ProposalStatus, pending, approved, Proposer, ToolEntry, SkillEntry, Proposal,
  ProposalStore, Proposed, ok, error, bad_target, is_pending, tool_by_id, skill_by_id, is_open_for,
  is_proposer_type, propose, propose_tool, propose_skill, create_capability_proposal, attach,
  is_reviewer, save_review, has_target, review_pending, review_found, review_capability_proposal,
}
use deep_foundry.Proposals.Requests.{Request, proposes, reviews}

-- What a step that succeeds does to the store.
pub data Changes (before : ProposalStore) : ProposalStore → Type 0 where
  adds :
      (p : Proposal) (audits : List (String × String))
      → p.status ≡ pending
      → any (is_open_for p.coworker_id p.target_type p.target_id) before.proposals ≡ false
      → Changes before (record before { proposals = before.proposals ++ (p ∷ []); audits = audits })
  denies :
      (now id user : ℕ) (p : Proposal)
      → get_elem? before.proposals id ≡ some p
      → p.status ≡ pending
      → Changes before (save_review now before id p user false before.attachments)
  approves :
      (now id user : ℕ) (p : Proposal)
      → get_elem? before.proposals id ≡ some p
      → p.status ≡ pending
      → is_reviewer (membership_of before.members p.workspace_id user) ≡ true
      → Changes before (
          save_review now before id p user true
            (attach p.coworker_id p.target_type p.target_id before.attachments))

ok_inj : {A : Type 0} (x y : A) → ok x ≡ ok y → x ≡ y
ok_inj x y h = cc h

pending_is : (s : ProposalStatus) → is_pending s ≡ true → s ≡ pending
pending_is pending h = refl
pending_is approved h = cc
pending_is ProposalStatus.denied h = cc

module _ (before after : ProposalStore) where
  propose-Changes :
      (coworker : Proposer) (type : TargetType) (target : ℕ) (name rationale proposed_by : String)
      → propose before coworker type target name rationale proposed_by ≡ ok after
      → Changes before after
  propose-Changes coworker type target name rationale proposed_by h =
      elim (Bool-cases (any (is_open_for coworker.id type target) before.proposals)) [
        | inl e ↦ cc (rw e at h)
        | inr e ↦
            subst (λ s. Changes before s) (ok_inj _ after (rw e at h)) (Changes.adds _ _ refl e)
      ]

  propose_tool-Changes :
      (coworker : Proposer) (rationale proposed_by : String) (found : Option ToolEntry)
      → propose_tool before coworker rationale proposed_by found ≡ ok after
      → Changes before after
  propose_tool-Changes coworker rationale proposed_by none h = cc
  propose_tool-Changes coworker rationale proposed_by (some t) h =
      propose-Changes coworker _ t.id t.name rationale proposed_by h

  propose_skill-Changes :
      (coworker : Proposer) (rationale proposed_by : String) (found : Option SkillEntry)
      → propose_skill before coworker rationale proposed_by found ≡ ok after
      → Changes before after
  propose_skill-Changes coworker rationale proposed_by none h = cc
  propose_skill-Changes coworker rationale proposed_by (some s) h =
      propose-Changes coworker _ s.id s.name rationale proposed_by h

  create_capability_proposal-Changes :
      (strip : String → String) (coworker : Proposer) (target_type : String) (target_id : ℕ)
      (rationale proposed_by : String)
      → create_capability_proposal strip before coworker target_type target_id rationale proposed_by
        ≡ ok after
      → Changes before after
  unfolding create_capability_proposal
  create_capability_proposal-Changes strip coworker target_type target_id rationale proposed_by h =
      elim (Bool-cases (str_eq (strip rationale) "")) [
        | inl e ↦ cc (rw e at h)
        | inr e ↦ elim (Bool-cases (is_proposer_type proposed_by)) [
          | inr f ↦ cc (rw (e, f) at h)
          | inl f ↦ by_type (rw (e, f) at h)
        ]
      ]
    where
      by_tool : Proposed ProposalStore
      by_tool =
          propose_tool before coworker (strip rationale) proposed_by
            (tool_by_id before.tools target_id)

      by_skill : Proposed ProposalStore
      by_skill =
          propose_skill before coworker (strip rationale) proposed_by
            (skill_by_id before.skills coworker.workspace_id target_id)

      by_type :
          (if str_eq target_type "tool"
              then by_tool
              else if str_eq target_type "skill"
              then by_skill
              else error bad_target)
            ≡ ok after
          → Changes before after
      by_type h = elim (Bool-cases (str_eq target_type "tool")) [
        | inl e ↦ propose_tool-Changes coworker _ proposed_by _ (rw e at h)
        | inr e ↦ elim (Bool-cases (str_eq target_type "skill")) [
          | inl f ↦ propose_skill-Changes coworker _ proposed_by _ (rw (e, f) at h)
          | inr f ↦ cc (rw (e, f) at h)
        ]
      ]

  review_capability_proposal-Changes :
      (now id user : ℕ) (approve : Bool)
      → review_capability_proposal now before id user approve ≡ ok after
      → Changes before after
  unfolding review_capability_proposal
  review_capability_proposal-Changes now id user approve h =
      found (get_elem? before.proposals id) refl h
    where
      attached :
          (p : Proposal)
          → get_elem? before.proposals id ≡ some p
          → p.status ≡ pending
          → is_reviewer (membership_of before.members p.workspace_id user) ≡ true
          → (approve : Bool) → review_pending now before id p user approve ≡ ok after
          → Changes before after
      attached p e open_ admin false q =
          subst (λ s. Changes before s) (ok_inj _ after q) (Changes.denies now id user p e open_)
      attached p e open_ admin true q = elim (Bool-cases (has_target before p p.target_type)) [
        | inl f ↦
            subst (λ s. Changes before s) (ok_inj _ after (rw f at q))
              (Changes.approves now id user p e open_ admin)
        | inr f ↦ cc (rw f at q)
      ]

      found :
          (p : Option Proposal)
          → get_elem? before.proposals id ≡ p
          → review_found now before id user approve p ≡ ok after
          → Changes before after
      found none e q = cc q
      found (some p) e q =
          elim (Bool-cases (is_reviewer (membership_of before.members p.workspace_id user))) [
            | inr f ↦ cc (rw f at q)
            | inl f ↦ elim (Bool-cases (is_pending p.status)) [
              | inr g ↦ cc (rw (f, g) at q)
              | inl g ↦ attached p e (pending_is p.status g) f approve (rw (f, g) at q)
            ]
          ]

pub Request-Changes :
    (strip : String → String) (before after : ProposalStore)
    → Request strip before after
    → Changes before after
Request-Changes strip before after (proposes coworker type target rationale proposed_by h) =
    create_capability_proposal-Changes before after strip coworker type target rationale proposed_by
      h
Request-Changes strip before after (reviews now id user approve h) =
    review_capability_proposal-Changes before after now id user approve h
