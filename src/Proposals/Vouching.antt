-- ===== src/Proposals/Vouching.antt =====
-- What stands behind the attachments of a store of proposals (services/app/core/v4_services.py).
use deep_foundry.Base.{
  ℕ, String, Bool, true, false, some, List, [], ◌∷◌, ◌++◌, get_elem?, All, ◌≡◌, ◌≢◌, refl, sym, ap,
  ◌∙◌, Bool-cases, inl, inr, ◌==◌, ◌&&◌, get_elem?-append_left, get_elem?-set_ne,
  get_elem?-set_self, get_elem?-lt,
}
use deep_foundry.Base.Sorting.{All-map}
use deep_foundry.Permissions.{membership_of}
use deep_foundry.Proposals.{
  TargetType, pending, approved, Proposal, Attachment, ProposalStore, same_type, attach,
  is_reviewer, save_review,
}
use deep_foundry.Proposals.Changes.{Changes, adds, denies, approves}

-- An approved proposal stands behind an attachment: it is for the same coworker and target, and a
-- member who is owner or admin of its workspace reviewed it.
pub record Vouches (store : ProposalStore) (attachment : Attachment) : Type 0 where
  pub id : ℕ
  pub proposal : Proposal
  pub stored : get_elem? store.proposals id ≡ some proposal
  pub is_approved : proposal.status ≡ approved
  pub coworker : proposal.coworker_id ≡ attachment.coworker_id
  pub type : proposal.target_type ≡ attachment.target_type
  pub target : proposal.target_id ≡ attachment.target_id
  pub user : ℕ
  pub reviewed : proposal.reviewed_by ≡ some user
  pub reviewer : is_reviewer (membership_of store.members proposal.workspace_id user) ≡ true

approved-ne-pending : approved ≢ pending
approved-ne-pending h = cc h

some_inj : {A : Type 0} {x y : A} → some x ≡ some y → x ≡ y
some_inj h = cc h

module _ (before : ProposalStore) (a : Attachment) (v : Vouches before a) where
  Vouches-added :
      (p : Proposal) (audits : List (String × String))
      → Vouches (record before { proposals = before.proposals ++ (p ∷ []); audits = audits }) a
  Vouches-added p audits = record {
    id = v.id;
    proposal = v.proposal;
    stored = get_elem?-append_left before.proposals (p ∷ []) v.id v.proposal v.stored;
    is_approved = v.is_approved;
    coworker = v.coworker;
    type = v.type;
    target = v.target;
    user = v.user;
    reviewed = v.reviewed;
    reviewer = v.reviewer;
  }

  -- A review replaces a pending proposal, which vouches for nothing.
  Vouches-saved :
      (now id user : ℕ) (p : Proposal) (approve : Bool) (attachments : List Attachment)
      → get_elem? before.proposals id ≡ some p
      → p.status ≡ pending
      → Vouches (save_review now before id p user approve attachments) a
  Vouches-saved now id user p approve attachments e open_ = record {
    id = v.id;
    proposal = v.proposal;
    stored = get_elem?-set_ne before.proposals id v.id _ apart ∙ v.stored;
    is_approved = v.is_approved;
    coworker = v.coworker;
    type = v.type;
    target = v.target;
    user = v.user;
    reviewed = v.reviewed;
    reviewer = v.reviewer;
  }
    where
      apart : id ≢ v.id
      apart same = approved-ne-pending (
          sym v.is_approved
          ∙ (ap (λ (q : Proposal). q.status)
                (some_inj (sym v.stored ∙ (ap (get_elem? before.proposals) (sym same) ∙ e)))
              ∙ open_))

enable-Vouches :
    (store : ProposalStore) (a : Attachment)
    → Vouches store a
    → Vouches store (record a { enabled = true })
enable-Vouches store a v = record {
  id = v.id;
  proposal = v.proposal;
  stored = v.stored;
  is_approved = v.is_approved;
  coworker = v.coworker;
  type = v.type;
  target = v.target;
  user = v.user;
  reviewed = v.reviewed;
  reviewer = v.reviewer;
}

attach-Vouches :
    (store : ProposalStore) (coworker : ℕ) (type : TargetType) (target : ℕ)
    (attachments : List Attachment)
    → Vouches store
        (record { coworker_id = coworker; target_type = type; target_id = target; enabled = true })
    → All (Vouches store) attachments
    → All (Vouches store) (attach coworker type target attachments)
unfolding attach
attach-Vouches store coworker type target [] v h = (v, tt)
attach-Vouches store coworker type target (a ∷ attachments) v (h, hs) =
    elim (Bool-cases
      ((a.coworker_id == coworker) && (same_type a.target_type type && (a.target_id == target)))) [
        | inl e ↦ rw e (enable-Vouches store a h, hs)
        | inr e ↦ rw e (h, attach-Vouches store coworker type target attachments v hs)
      ]

approved-Vouches :
    (now : ℕ) (before : ProposalStore) (id user : ℕ) (p : Proposal) (attachments : List Attachment)
    → get_elem? before.proposals id ≡ some p
    → is_reviewer (membership_of before.members p.workspace_id user) ≡ true
    → Vouches (save_review now before id p user true attachments) (record {
      coworker_id = p.coworker_id;
      target_type = p.target_type;
      target_id = p.target_id;
      enabled = true;
    })
approved-Vouches now before id user p attachments e admin = record {
  id = id;
  proposal = record p { status = approved; reviewed_by = some user; reviewed_at = some now };
  stored = get_elem?-set_self before.proposals id _ (get_elem?-lt before.proposals id p e);
  is_approved = refl;
  coworker = refl;
  type = refl;
  target = refl;
  user = user;
  reviewed = refl;
  reviewer = admin;
}

abbrev pub IsVouched : ProposalStore → Type 0
IsVouched store = All (Vouches store) store.attachments

pub Changes-IsVouched :
    (before after : ProposalStore) → Changes before after → IsVouched before → IsVouched after
Changes-IsVouched before after (adds p audits open_ alone) h =
    All-map (Vouches before) _ before.attachments (λ a v. Vouches-added before a v p audits) h
Changes-IsVouched before after (denies now id user p e open_) h =
    All-map (Vouches before) _ before.attachments
      (λ a v. Vouches-saved before a v now id user p false _ e open_) h
Changes-IsVouched before after (approves now id user p e open_ admin) h =
    attach-Vouches _ p.coworker_id p.target_type p.target_id before.attachments
      (approved-Vouches now before id user p _ e admin)
      (All-map (Vouches before) _ before.attachments
        (λ a v. Vouches-saved before a v now id user p true _ e open_) h)
