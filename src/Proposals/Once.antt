-- ===== src/Proposals/Once.antt =====
-- What every reachable store of proposals satisfies (services/app/core/v4_services.py).
use deep_foundry.Base.{
  ℕ, String, true, false, some, List, [], ◌∷◌, ◌++◌, any, get_elem?, set, ◌≡◌, refl, sym, ap, ◌∙◌,
  inl, inr, arith, get_elem?-append_cases, get_elem?-set_cases, any-at,
}
use mathlib.Core.Path.{subst}
use deep_foundry.Proposals.{
  TargetType, tool, skill, Proposal, ProposalStore, same_type, is_pending, is_open_for,
}
use deep_foundry.Proposals.Changes.{Changes, Request-Changes, adds, denies, approves}
use deep_foundry.Proposals.Vouching.{IsVouched, Changes-IsVouched}
use deep_foundry.Proposals.Requests.{Reachable, started, stepped}

-- Two open proposals for the same target of a coworker are one.
abbrev pub IsOpenOnce : List Proposal → Type 0
IsOpenOnce proposals =
    (i j : ℕ) (p q : Proposal)
    → get_elem? proposals i ≡ some p
    → get_elem? proposals j ≡ some q
    → is_pending p.status ≡ true
    → is_open_for p.coworker_id p.target_type p.target_id q ≡ true
    → i ≡ j

same_type_sym : (a b : TargetType) → same_type a b ≡ same_type b a
same_type_sym tool tool = refl
same_type_sym tool skill = refl
same_type_sym skill tool = refl
same_type_sym skill skill = refl

is_open_for_sym :
    (p q : Proposal)
    → is_pending p.status ≡ true
    → is_open_for p.coworker_id p.target_type p.target_id q ≡ true
    → is_open_for q.coworker_id q.target_type q.target_id p ≡ true
is_open_for_sym p q open_ h = ground (arith, same_type_sym p.target_type q.target_type)

open-pending :
    (p q : Proposal)
    → is_open_for p.coworker_id p.target_type p.target_id q ≡ true
    → is_pending q.status ≡ true
open-pending p q h = ground arith

append-IsOpenOnce :
    (proposals : List Proposal) (new : Proposal)
    → any (is_open_for new.coworker_id new.target_type new.target_id) proposals ≡ false
    → IsOpenOnce proposals
    → IsOpenOnce (proposals ++ (new ∷ []))
append-IsOpenOnce proposals new alone h i j p q ei ej open_ same =
    elim (get_elem?-append_cases proposals new i p ei) [
      | inl old ↦ elim (get_elem?-append_cases proposals new j q ej) [
        | inl old' ↦ h i j p q old old' open_ same
        | inr (_, e) ↦
            let none_open = any-at _ proposals i p alone old in
            let again = is_open_for_sym p q open_ same in
            cc (
              sym none_open
              ∙ subst (λ r. is_open_for r.coworker_id r.target_type r.target_id p ≡ true) (sym e)
                  again)
      ]
      | inr (ends, e) ↦ elim (get_elem?-append_cases proposals new j q ej) [
        | inl old' ↦
            let none_open = any-at _ proposals j q alone old' in
            cc (
              sym none_open
              ∙ subst (λ r. is_open_for r.coworker_id r.target_type r.target_id q ≡ true) (sym e)
                  same)
        | inr (ends', _) ↦ ends ∙ sym ends'
      ]
    ]

set-IsOpenOnce :
    (proposals : List Proposal) (id : ℕ) (new : Proposal)
    → is_pending new.status ≡ false
    → IsOpenOnce proposals
    → IsOpenOnce (set proposals id new)
set-IsOpenOnce proposals id new closed h i j p q ei ej open_ same =
    elim (get_elem?-set_cases proposals id i new p ei) [
      | inr (_, e) ↦ cc (sym closed ∙ (ap (λ (r : Proposal). is_pending r.status) e ∙ open_))
      | inl (_, old) ↦ elim (get_elem?-set_cases proposals id j new q ej) [
        | inr (_, e) ↦
            cc (sym closed ∙ (ap (λ (r : Proposal). is_pending r.status) e ∙ open-pending p q same))
        | inl (_, old') ↦ h i j p q old old' open_ same
      ]
    ]

Changes-IsOpenOnce :
    (before after : ProposalStore)
    → Changes before after
    → IsOpenOnce before.proposals
    → IsOpenOnce after.proposals
Changes-IsOpenOnce before after (adds p audits open_ alone) h =
    append-IsOpenOnce before.proposals p alone h
Changes-IsOpenOnce before after (denies now id user p e open_) h =
    set-IsOpenOnce before.proposals id _ refl h
Changes-IsOpenOnce before after (approves now id user p e open_ admin) h =
    set-IsOpenOnce before.proposals id _ refl h

-- From a store without proposals and attachments, whatever requests follow: behind every attachment of
-- a tool or skill stands an approved proposal for that coworker and target, which an owner or admin
-- of its workspace reviewed, and no two open proposals are for the same target of a coworker.
pub Reachable-IsVouched :
    (strip : String → String) (start store : ProposalStore)
    → start.proposals ≡ []
    → start.attachments ≡ []
    → Reachable strip start store
    → IsVouched store × IsOpenOnce store.proposals
Reachable-IsVouched strip start store none_made none_attached started =
    (rw none_attached tt, λ i j p q ei ej open_ same. cc (rw none_made at ei))
Reachable-IsVouched strip start store none_made none_attached (stepped reached step) =
    let (vouched, once) = Reachable-IsVouched strip start _ none_made none_attached reached in
    let change = Request-Changes strip _ store step in
    (Changes-IsVouched _ store change vouched, Changes-IsOpenOnce _ store change once)
