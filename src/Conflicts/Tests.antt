-- ===== src/Conflicts/Tests.antt =====
-- Two coworkers that remember different colors, and the theorems on them.
use mathlib.Core.List.{Memᴰ}
use deep_foundry.Base.{ℕ, String, true, none, some, List, [], ◌∷◌, All, ◌≡◌, refl}
use deep_foundry.Base.Text.{contains_text, split_on}
use deep_foundry.Permissions.{Role, Membership, membership_of}
use deep_foundry.Conflicts.{
  MemoryScope, Memory, Texts, Conflict, ConflictStatus, Settled, memory_subject, disagree,
  detect_memory_conflicts, resolve_memory_conflict, coworker_memories, group_memories, pairs_of,
  pairs_in, record_pairs, get_or_create_conflict,
}
use deep_foundry.Conflicts.Pairs.{IsDetected}
use deep_foundry.Conflicts.Detection.{Disagree, IsConflictOf, detect_memory_conflicts-IsRecorded}
use deep_foundry.Conflicts.Genuine.{IsGenuine, detect_memory_conflicts-IsGenuine}

abbrev texts : Texts
texts = record {
  strip = λ s. s;
  first_line = λ s. s;
  squeeze = λ s. s;
  lower = λ s. s;
  clip = λ s. s;
}

abbrev memory : ℕ → ℕ → String → Memory
memory id coworker content = record {
  id = id;
  workspace_id = 1;
  scope = MemoryScope.coworker;
  scope_id = coworker;
  content = content;
  is_long_term = true;
  created_at = id;
}

abbrev memories : List Memory
memories = memory 9 1 "color: red" ∷ memory 4 2 "color: blue" ∷ []

abbrev no_conflicts : List Conflict
no_conflicts = []

detect_memory_conflicts-IsRecorded_example :
    let after = (detect_memory_conflicts texts 1 memories no_conflicts).0 in
    ((m n : Memory)
      → Disagree texts 1 memories m n
      → (c : Conflict) × Memᴰ c after × IsConflictOf m n c)
    × (detect_memory_conflicts texts 1 memories after ≡ (after, []))
detect_memory_conflicts-IsRecorded_example =
    detect_memory_conflicts-IsRecorded texts 1 memories no_conflicts

detect_memory_conflicts-IsGenuine_example :
    All
      (IsGenuine texts (IsDetected 1 memories))
      (detect_memory_conflicts texts 1 memories no_conflicts).1
detect_memory_conflicts-IsGenuine_example =
    detect_memory_conflicts-IsGenuine texts 1 memories no_conflicts

abbrev conflict : Conflict
conflict = record {
  left_id = 4;
  right_id = 9;
  subject = "color";
  left_content = "color: blue";
  right_content = "color: red";
  status = ConflictStatus.opened;
  strategy = "";
  resolved_content = "";
  resolved_by = none;
  resolved_at = none;
}

abbrev members : List Membership
members = record { workspace_id = 1; user_id = 7; role = Role.owner } ∷ []

-- An owner keeps the left memory, and both coworkers are told.
resolves_it :
    resolve_memory_conflict texts 100 members 1 memories conflict 7 "keep_left" ""
    ≡ Settled.ok (
      record conflict {
        status = ConflictStatus.resolved;
        strategy = "keep_left";
        resolved_content = "color: blue";
        resolved_by = some 7;
        resolved_at = some 100;
      },
      (1, "Resolved color: color: blue") ∷ (2, "Resolved color: color: blue") ∷ [],
    )
unfolding resolve_memory_conflict membership_of
resolves_it = refl

-- The two disagree, and their conflict has the lower id first.
detects_it : (detect_memory_conflicts texts 1 memories no_conflicts).0 ≡ conflict ∷ []
unfolding detect_memory_conflicts coworker_memories group_memories memory_subject pairs_of pairs_in
    record_pairs disagree get_or_create_conflict contains_text split_on
detects_it = refl
