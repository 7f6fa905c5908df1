-- ===== src/Conflicts.antt =====
-- Memories that disagree: `detect_memory_conflicts`, `report_memory_conflict` and
-- `resolve_memory_conflict` of services/app/core/v4_services.py.

pub mod Pairs
pub mod Detection
pub mod Genuine
mod Tests
use Prim.Native.String.{count}
use deep_foundry.Base.{
  ℕ, String, str_eq, Bool, true, false, ◌&&◌, ◌||◌, not, Option, none, some, List, [], ◌∷◌, ◌++◌,
  any, find, keep, map, ◌==◌, leb, get_elem?, set, if◌then◌else◌,
}
use deep_foundry.Base.Dict.{Dict, lookup, insert, get_or_default}
use deep_foundry.Base.Sorting.{sort_by}
use deep_foundry.Base.Text.{split_on, contains_text, append_text}
use deep_foundry.Permissions.{Membership, membership_of}
use deep_foundry.Proposals.{is_reviewer}

-- `MemoryEntry.Scope`
pub data MemoryScope : Type 0 where
  user coworker project organization temporary : MemoryScope

-- `MemoryEntry`; the ids stand in the order of their texts.
pub record Memory : Type 0 where
  pub id : ℕ
  pub workspace_id : ℕ
  pub scope : MemoryScope
  pub scope_id : ℕ
  pub content : String
  pub is_long_term : Bool
  pub created_at : ℕ

abbrev pub is_coworker_scope : MemoryScope → Bool
is_coworker_scope coworker = true
is_coworker_scope _ = false

abbrev pub created_before : Memory → Memory → Bool
created_before m n = leb m.created_at n.created_at

-- The long-term memories of the workspace's coworkers, in the order of their creation.
unfoldable pub coworker_memories : ℕ → List Memory → List Memory
coworker_memories workspace rows = sort_by created_before (
    keep
      (λ (m : Memory).
        (m.workspace_id == workspace) && (is_coworker_scope m.scope && m.is_long_term))
      rows)

pub data ConflictStatus : Type 0 where
  opened resolved : ConflictStatus

-- `MemoryConflict`
pub record Conflict : Type 0 where
  pub left_id : ℕ
  pub right_id : ℕ
  pub subject : String
  pub left_content : String
  pub right_content : String
  pub status : ConflictStatus
  pub strategy : String
  pub resolved_content : String
  pub resolved_by : Option ℕ
  pub resolved_at : Option ℕ

-- Python's `str.strip`, `splitlines()[0]` of a text with a line, `re.sub(r"\s+", " ", ...)`,
-- `str.lower`, and the first 255 characters.
pub record Texts : Type 0 where
  pub strip : String → String
  pub first_line : String → String
  pub squeeze : String → String
  pub lower : String → String
  pub clip : String → String

abbrev pub head_text : List String → String
head_text [] = ""
head_text (s ∷ _) = s

abbrev pub subject_of_line : Texts → String → Option String
subject_of_line texts line =
    let subject = texts.lower (texts.strip (texts.squeeze (head_text (split_on 58 line)))) in
    if contains_text ":" line && (leb 2 (count subject) && leb (count subject) 255)
    then some subject
    else none

-- `_memory_subject`: the text before the colon of the first line.
unfoldable pub memory_subject : Texts → String → Option String
memory_subject texts content =
    if str_eq (texts.strip content) ""
    then none
    else subject_of_line texts (texts.first_line (texts.strip content))

-- `grouped[subject].append(memory)`
abbrev pub Groups : Type 0
Groups = Dict (List Memory)

abbrev pub add_memory : Memory → Option String → Groups → Groups
add_memory memory none groups = groups
add_memory memory (some subject) groups =
    insert subject (get_or_default [] (lookup subject groups) ++ (memory ∷ [])) groups

unfoldable pub group_memories : Texts → List Memory → Groups → Groups
group_memories texts [] groups = groups
group_memories texts (memory ∷ memories) groups =
    group_memories texts memories (add_memory memory (memory_subject texts memory.content) groups)

-- The pairs of the two inner loops, and those of all groups.
abbrev pub pairs_with : String → Memory → List Memory → List (String × Memory × Memory)
pairs_with subject left [] = []
pairs_with subject left (right ∷ memories) =
    (subject, left, right) ∷ pairs_with subject left memories

unfoldable pub pairs_in : String → List Memory → List (String × Memory × Memory)
pairs_in subject [] = []
pairs_in subject (left ∷ memories) = pairs_with subject left memories ++ pairs_in subject memories

unfoldable pub pairs_of : Groups → List (String × Memory × Memory)
pairs_of [] = []
pairs_of ((subject, memories) ∷ groups) = pairs_in subject memories ++ pairs_of groups

-- The pairs that the loop passes over.
unfoldable pub disagree : Texts → Memory → Memory → Bool
disagree texts left right = not (
    (left.scope_id == right.scope_id)
    || str_eq (texts.strip left.content) (texts.strip right.content))

abbrev pub lower_of : Memory → Memory → Memory
lower_of left right = if leb left.id right.id then left else right

abbrev pub upper_of : Memory → Memory → Memory
upper_of left right = if leb left.id right.id then right else left

abbrev pub is_pair : ℕ → ℕ → Conflict → Bool
is_pair left right conflict = (conflict.left_id == left) && (conflict.right_id == right)

-- The columns that `get_or_create` sets on a new row, by the subject and the two memories in order.
abbrev pub new_conflict : String → Memory → Memory → Conflict
new_conflict subject left right = record {
  left_id = left.id;
  right_id = right.id;
  subject = subject;
  left_content = left.content;
  right_content = right.content;
  status = opened;
  strategy = "";
  resolved_content = "";
  resolved_by = none;
  resolved_at = none;
}

-- `get_or_create`: the rows, and the one that is created.
unfoldable pub get_or_create_conflict :
    String → Memory → Memory → List Conflict → List Conflict × List Conflict
get_or_create_conflict subject left right conflicts =
    if any (is_pair left.id right.id) conflicts
    then (conflicts, [])
    else (conflicts ++ (new_conflict subject left right ∷ []), new_conflict subject left right ∷ [])

abbrev pub record_pair :
    Texts → String × Memory × Memory → List Conflict → List Conflict × List Conflict
record_pair texts (subject, left, right) conflicts =
    if disagree texts left right
    then get_or_create_conflict subject (lower_of left right) (upper_of left right) conflicts
    else (conflicts, [])

unfoldable pub record_pairs :
    Texts → List (String × Memory × Memory) → List Conflict → List Conflict × List Conflict
record_pairs texts [] conflicts = (conflicts, [])
record_pairs texts (pair ∷ pairs) conflicts =
    let first = record_pair texts pair conflicts in
    let rest = record_pairs texts pairs first.0 in (rest.0, first.1 ++ rest.1)

-- `detect_memory_conflicts`: the conflicts of the workspace after it, and those that it created.
unfoldable pub detect_memory_conflicts :
    Texts → ℕ → List Memory → List Conflict → List Conflict × List Conflict
detect_memory_conflicts texts workspace rows conflicts =
    record_pairs texts (pairs_of (group_memories texts (coworker_memories workspace rows) []))
      conflicts

pub data ConflictError : Type 0 where
  same_memory not_in_workspace not_admin already_resolved no_merge bad_strategy : ConflictError

pub data Settled {ℓ} (A : Type ℓ) : Type ℓ where
  ok : A → Settled A
  error : ConflictError → Settled A

abbrev pub memory_by_id : List Memory → ℕ → Option Memory
memory_by_id memories id = find (λ (m : Memory). m.id == id) memories

abbrev pub reported_subject : Texts → String → String
reported_subject texts subject =
    if str_eq (texts.clip (texts.strip subject)) ""
    then "Reported conflict"
    else texts.clip (texts.strip subject)

abbrev pub report_found :
    Texts → String → List Conflict → Option Memory → Option Memory → Settled (List Conflict)
report_found texts subject conflicts (some left) (some right) =
    ok
      (get_or_create_conflict (reported_subject texts subject) (lower_of left right)
        (upper_of left right) conflicts).0
report_found texts subject conflicts _ _ = error not_in_workspace

-- `report_memory_conflict`; the memories are all those of the workspace.
unfoldable pub report_memory_conflict :
    Texts → List Memory → ℕ → ℕ → String → List Conflict → Settled (List Conflict)
report_memory_conflict texts memories left right subject conflicts =
    let found =
      report_found texts subject conflicts (memory_by_id memories left)
        (memory_by_id memories right) in
    if left == right then error same_memory else found

-- What the strategy gives, `none` where the code refuses it.
abbrev pub resolution : Texts → Conflict → String → String → Settled String
resolution texts conflict strategy merged =
    if str_eq strategy "keep_left"
    then ok conflict.left_content
    else if str_eq strategy "keep_right"
    then ok conflict.right_content
    else if str_eq strategy "merge"
    then (if str_eq (texts.strip merged) "" then error no_merge else ok (texts.strip merged))
    else error bad_strategy

-- `{row.scope_id for row in source_rows}`
abbrev pub scopes_of : List Memory → ℕ → ℕ → List ℕ
scopes_of [] left right = []
scopes_of (m ∷ memories) left right =
    let rest = scopes_of memories left right in
    if (m.id == left) || (m.id == right)
    then (if any (λ s. s == m.scope_id) rest then rest else m.scope_id ∷ rest)
    else rest

-- A memory that is written, by its scope and content.
abbrev pub written_memories : List ℕ → String → List (ℕ × String)
written_memories scopes content = map (λ s. (s, content)) scopes

abbrev pub resolved_conflict : ℕ → Conflict → ℕ → String → String → Conflict
resolved_conflict now conflict reviewer strategy content = record conflict {
  status = resolved;
  strategy = strategy;
  resolved_content = content;
  resolved_by = some reviewer;
  resolved_at = some now;
}

abbrev pub settle_resolution :
    ℕ
    → List Memory
    → Conflict
    → ℕ
    → String
    → Settled String
    → Settled (Conflict × List (ℕ × String))
settle_resolution now memories conflict reviewer strategy (error e) = error e
settle_resolution now memories conflict reviewer strategy (ok content) = ok (
  resolved_conflict now conflict reviewer strategy content,
  written_memories (scopes_of memories conflict.left_id conflict.right_id)
      (append_text "Resolved " (append_text conflict.subject (append_text ": " content))),
)

-- `resolve_memory_conflict`: the row, and the memories that are written.
unfoldable pub resolve_memory_conflict :
    Texts
    → ℕ
    → List Membership
    → ℕ
    → List Memory
    → Conflict
    → ℕ
    → String
    → String
    → Settled (Conflict × List (ℕ × String))
resolve_memory_conflict texts now members workspace memories conflict reviewer strategy merged =
    let settled =
      settle_resolution now memories conflict reviewer strategy
        (resolution texts conflict strategy merged) in
    if is_reviewer (membership_of members workspace reviewer)
    then elim conflict.status [ resolved ↦ error already_resolved | opened ↦ settled ]
    else error not_admin
