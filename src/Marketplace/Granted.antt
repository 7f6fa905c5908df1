-- ===== src/Marketplace/Granted.antt =====
-- What the attachment of a skill makes of the coworker's tools (services/app/core/v2_services.py).
use deep_foundry.Base.{
  ℕ, String, Bool, true, false, ◌&&◌, Option, none, some, List, [], ◌∷◌, ◌++◌, any, keep, ◌==◌, ◌≡◌,
  ◌≢◌, refl, sym, ap, ◌∙◌, inl, inr, arith, Bool-cases,
}
use mathlib.Core.Path.{subst}
use mathlib.Core.List.{Memᴰ, append-nil}
use deep_foundry.Proposals.{ToolEntry, Attachment, TargetType, attach, same_type}
use deep_foundry.Marketplace.Installs.{is_install}
use deep_foundry.Marketplace.Skills.{
  is_tool_of, grant_tool, grant_tools, attach_with, attach_installed_skill, declared_tool_rows,
}

-- The attachments of a tool to a coworker, enabled or not.
abbrev is_tool : TargetType → Bool
is_tool TargetType.tool = true
is_tool TargetType.skill = false

abbrev stands_for : ℕ → ℕ → Attachment → Bool
stands_for coworker tool a =
    (a.coworker_id == coworker) && (is_tool a.target_type && (a.target_id == tool))

abbrev pub rows_for : ℕ → ℕ → List Attachment → List Attachment
rows_for coworker tool attachments = keep (stands_for coworker tool) attachments

abbrev pub fresh : ℕ → ℕ → Attachment
fresh coworker tool = record {
  coworker_id = coworker;
  target_type = TargetType.tool;
  target_id = tool;
  enabled = true;
}

-- What the attachment of a skill makes of the rows of a tool for a coworker: they stay as they are, or
-- there were none, the skill's coworker is meant and the tool is granted, and there is one row now.
pub data RowsAfter (coworker : ℕ) (granted : List ToolEntry) (c t : ℕ)
    (before after : List Attachment) : Type 0 where
  kept : after ≡ before → RowsAfter coworker granted c t before after
  grants :
      (tool : ToolEntry)
      → before ≡ []
      → c ≡ coworker
      → Memᴰ tool granted
      → tool.id ≡ t
      → after ≡ fresh c t ∷ []
      → RowsAfter coworker granted c t before after

keep-append :
    (p : Attachment → Bool) (xs ys : List Attachment) → keep p (xs ++ ys) ≡ keep p xs ++ keep p ys
keep-append p [] ys = refl
keep-append p (x ∷ xs) ys = elim (Bool-cases (p x)) [
  | inl e ↦ rw e (ap (λ zs. x ∷ zs) (keep-append p xs ys))
  | inr e ↦ rw e (keep-append p xs ys)
]

is_tool_of-stands_for :
    (coworker tool : ℕ) (a : Attachment) → is_tool_of coworker tool a ≡ stands_for coworker tool a
is_tool_of-stands_for coworker tool a =
    ap (λ b. (a.coworker_id == coworker) && (b && (a.target_id == tool))) (by_type a.target_type)
  where
    by_type : (type : TargetType) → same_type type TargetType.tool ≡ is_tool type
    by_type TargetType.tool = refl
    by_type TargetType.skill = refl

no_rows :
    (coworker tool : ℕ) (attachments : List Attachment)
    → any (is_tool_of coworker tool) attachments ≡ false
    → rows_for coworker tool attachments ≡ []
no_rows coworker tool [] h = refl
no_rows coworker tool (a ∷ attachments) h =
    let same = is_tool_of-stands_for coworker tool a in
    let other : stands_for coworker tool a ≡ false = ground (arith, h, same) in
    rw other (no_rows coworker tool attachments (ground (arith, h)))

some_row :
    (coworker tool : ℕ) (attachments : List Attachment)
    → any (is_tool_of coworker tool) attachments ≡ true
    → rows_for coworker tool attachments ≢ []
some_row coworker tool [] h = cc h
some_row coworker tool (a ∷ attachments) h = elim (Bool-cases (stands_for coworker tool a)) [
  | inl e ↦ rw e (λ k. cc k)
  | inr e ↦
      let same = is_tool_of-stands_for coworker tool a in
      rw e (some_row coworker tool attachments (ground (arith, h, same, e)))
]

stands_for-fresh : (coworker tool : ℕ) → stands_for coworker tool (fresh coworker tool) ≡ true
stands_for-fresh coworker tool = ground arith

grant_tool-RowsAfter :
    (coworker : ℕ) (tool : ToolEntry) (granted : List ToolEntry) (attachments : List Attachment)
    (c t : ℕ)
    → Memᴰ tool granted
    → RowsAfter coworker granted c t
        (rows_for c t attachments)
        (rows_for c t (grant_tool coworker tool attachments))
grant_tool-RowsAfter coworker tool granted attachments c t listed =
    elim (Bool-cases (any (is_tool_of coworker tool.id) attachments)) [
      | inl e ↦ rw e (kept refl)
      | inr e ↦
          rw (e, keep-append (stands_for c t) attachments (fresh coworker tool.id ∷ []))
            (elim (Bool-cases (stands_for c t (fresh coworker tool.id))) [
              | inr f ↦ rw f (kept (append-nil (rows_for c t attachments)))
              | inl f ↦
                  let one : coworker ≡ c = ground (arith, f) in
                  let two : tool.id ≡ t = ground (arith, f) in
                  let none_before : rows_for c t attachments ≡ [] =
                    subst (λ x. rows_for c x attachments ≡ []) two
                      (subst (λ x. rows_for x tool.id attachments ≡ []) one
                        (no_rows coworker tool.id attachments e)) in
                  rw (f, none_before) (grants tool refl (sym one) listed two (rw (one, two) refl))
            ])
    ]

RowsAfter-then :
    (coworker : ℕ) (granted : List ToolEntry) (c t : ℕ) (before middle after : List Attachment)
    → RowsAfter coworker granted c t before middle
    → RowsAfter coworker granted c t middle after
    → RowsAfter coworker granted c t before after
RowsAfter-then coworker granted c t before middle after (kept e) k =
    subst (λ rows. RowsAfter coworker granted c t rows after) e k
RowsAfter-then coworker granted c t before middle after (grants tool unheld own listed id e)
      (kept f) =
    grants tool unheld own listed id (f ∙ e)
RowsAfter-then coworker granted c t before middle after (grants _ _ _ _ _ e) (grants _ f _ _ _ _) =
    cc (e, f)

-- Rows that there are, there are afterwards.
RowsAfter-some :
    (coworker : ℕ) (granted : List ToolEntry) (c t : ℕ) (before after : List Attachment)
    → RowsAfter coworker granted c t before after
    → before ≢ []
    → after ≢ []
RowsAfter-some coworker granted c t before after (kept e) h = λ k. h (sym e ∙ k)
RowsAfter-some coworker granted c t before after (grants _ unheld _ _ _ _) h = absurd (h unheld)

module _ (coworker : ℕ) (granted : List ToolEntry) where
  grant_tools-RowsAfter :
      (tools : List ToolEntry) (attachments : List Attachment) (c t : ℕ)
      → ((tool : ToolEntry) → Memᴰ tool tools → Memᴰ tool granted)
      → RowsAfter coworker granted c t
          (rows_for c t attachments)
          (rows_for c t (grant_tools coworker tools attachments))
  unfolding grant_tools
  grant_tools-RowsAfter [] attachments c t among = kept refl
  grant_tools-RowsAfter (tool ∷ tools) attachments c t among =
      RowsAfter-then coworker granted c t _ _ _
        (grant_tool-RowsAfter coworker tool granted attachments c t (among tool (Memᴰ.head refl)))
        (grant_tools-RowsAfter tools (grant_tool coworker tool attachments) c t
          (λ other m. among other (Memᴰ.tail m)))

  grant_tool-some :
      (tool : ToolEntry) (attachments : List Attachment)
      → rows_for coworker tool.id (grant_tool coworker tool attachments) ≢ []
  grant_tool-some tool attachments =
      elim (Bool-cases (any (is_tool_of coworker tool.id) attachments)) [
        | inl e ↦ rw e (some_row coworker tool.id attachments e)
        | inr e ↦
            rw
              (
                e,
                keep-append (stands_for coworker tool.id) attachments (fresh coworker tool.id ∷ []),
                no_rows coworker tool.id attachments e,
                stands_for-fresh coworker tool.id,
              )
              (λ k. cc k)
      ]

  grant_tools-some :
      (tools : List ToolEntry) (attachments : List Attachment) (tool : ToolEntry)
      → ((other : ToolEntry) → Memᴰ other tools → Memᴰ other granted)
      → Memᴰ tool tools
      → rows_for coworker tool.id (grant_tools coworker tools attachments) ≢ []
  unfolding grant_tools
  grant_tools-some [] attachments tool among m = elim m [ ]
  grant_tools-some (first ∷ tools) attachments tool among (Memᴰ.head e) =
      RowsAfter-some coworker granted coworker tool.id _ _
        (grant_tools-RowsAfter tools (grant_tool coworker first attachments) coworker tool.id
          (λ other k. among other (Memᴰ.tail k)))
        (rw e (grant_tool-some first attachments))
  grant_tools-some (first ∷ tools) attachments tool among (Memᴰ.tail m) =
      grant_tools-some tools (grant_tool coworker first attachments) tool
        (λ other k. among other (Memᴰ.tail k)) m

-- The attachment of a skill leaves the rows of tools as they are.
attach-rows_for :
    (coworker skill c t : ℕ) (attachments : List Attachment)
    → rows_for c t (attach coworker TargetType.skill skill attachments) ≡ rows_for c t attachments
unfolding attach
attach-rows_for coworker skill c t [] = elim (Bool-cases (coworker == c)) [
  | inl e ↦ rw e refl
  | inr e ↦ rw e refl
]
attach-rows_for coworker skill c t (b ∷ attachments) =
    elim (Bool-cases (
      (b.coworker_id == coworker)
      && (same_type b.target_type TargetType.skill && (b.target_id == skill)))) [
        | inr e ↦ rw e (elim (Bool-cases (stands_for c t b)) [
          | inl f ↦ rw f (ap (λ zs. b ∷ zs) (attach-rows_for coworker skill c t attachments))
          | inr f ↦ rw f (attach-rows_for coworker skill c t attachments)
        ])
        | inl e ↦
            let skill_row = no_tool b.target_type (ground (arith, e)) in
            let other : stands_for c t b ≡ false = ground (arith, skill_row) in rw (e, other) refl
      ]
  where
    no_tool : (type : TargetType) → same_type type TargetType.skill ≡ true → is_tool type ≡ false
    no_tool TargetType.skill h = refl
    no_tool TargetType.tool h = cc h

-- If a skill is attached, then the rows of every tool for every coworker, enabled or not, stay as they
-- were, so a tool that was taken from a coworker is not given back; or there were none, and the
-- coworker is granted the tool, which the skill declares, by one enabled row. Each tool that the skill
-- declares has a row for the coworker then.
pub attach_installed_skill-RowsAfter :
    (tools : List ToolEntry) (installs : List (ℕ × ℕ)) (workspace version coworker skill : ℕ)
    (declared : List String) (attachments after : List Attachment)
    → attach_installed_skill tools installs workspace version coworker skill declared attachments
      ≡ some after
    → (granted : List ToolEntry) × (declared_tool_rows tools declared ≡ some granted)
      × ((c t : ℕ) → RowsAfter coworker granted c t (rows_for c t attachments) (rows_for c t after))
      × ((tool : ToolEntry) → Memᴰ tool granted → rows_for coworker tool.id after ≢ [])
unfolding attach_installed_skill
attach_installed_skill-RowsAfter tools installs workspace version coworker skill declared
      attachments after h =
    elim (Bool-cases (any (is_install workspace version) installs)) [
      | inr e ↦ cc (rw e at h)
      | inl e ↦ by_rows (declared_tool_rows tools declared) refl (rw e at h)
    ]
  where
    by_rows :
        (rows : Option (List ToolEntry))
        → declared_tool_rows tools declared ≡ rows
        → attach_with coworker skill attachments rows ≡ some after
        → (granted : List ToolEntry) × (declared_tool_rows tools declared ≡ some granted)
          × ((c t : ℕ)
              → RowsAfter coworker granted c t (rows_for c t attachments) (rows_for c t after))
          × ((tool : ToolEntry) → Memᴰ tool granted → rows_for coworker tool.id after ≢ [])
    by_rows none e k = cc k
    by_rows (some granted) e k =
        let attached = attach coworker TargetType.skill skill attachments in
        let same : grant_tools coworker granted attached ≡ after = cc k in
        (
          granted,
          e,
          (λ c t.
              subst
                (λ rows.
                  RowsAfter coworker granted c t (rows_for c t attachments) (rows_for c t rows))
                same
                (subst
                  (λ before.
                    RowsAfter coworker granted c t before
                      (rows_for c t (grant_tools coworker granted attached)))
                  (attach-rows_for coworker skill c t attachments)
                  (grant_tools-RowsAfter coworker granted granted attached c t (λ tool m. m)))),
          λ tool m.
              subst (λ rows. rows_for coworker tool.id rows ≢ []) same
                (grant_tools-some coworker granted granted attached tool (λ other n. n) m),
        )
