-- ===== src/Consensus/Tests.antt =====
-- A team of three votes on two options, and the theorems on its session.
use mathlib.Core.List.{Memᴰ}
use native.Mathlib.Omega.{arith}
use deep_foundry.Base.{
  ℕ, String, Bool, true, none, some, List, [], ◌∷◌, ◌≡◌, ◌≢◌, ◌↔◌, refl, eq_iff,
}
use deep_foundry.Base.Int.{pos}
use deep_foundry.Json.{Json, object, field, end, text, number}
use deep_foundry.Workflow.State.{TaskStatus}
use deep_foundry.Consensus.{
  start_consensus_session, started, Python, majority, SessionStatus, Session, VoteTask, Vote,
  parse_vote, Parsed,
}
use deep_foundry.Consensus.Tally.{finalize_consensus}
use deep_foundry.Consensus.Parsing.{
  IsShare, parse_vote_sound, IsStarted, start_consensus_session-IsStarted,
}
use deep_foundry.Consensus.Laws.{Wins, finalize_consensus-Wins, finalize_consensus-deadlocked_iff}

abbrev session : Session
session = record {
  id = 1;
  question = "Which database?";
  options = "postgres" ∷ "sqlite" ∷ [];
  method = majority;
  status = SessionStatus.collecting;
  result_option = "";
  completed_at = none;
}

abbrev task : ℕ → VoteTask
task coworker = record {
  session = some 1;
  coworker = coworker;
  status = TaskStatus.completed;
  result = "";
}

abbrev tasks : List VoteTask
tasks = task 1 ∷ task 2 ∷ task 3 ∷ []

abbrev vote_for : ℕ → String → Vote
vote_for coworker option = record {
  coworker = coworker;
  option = option;
  confidence = 900;
  rationale = "";
}

abbrev votes : List Vote
votes = vote_for 1 "postgres" ∷ vote_for 2 "sqlite" ∷ vote_for 3 "postgres" ∷ []

abbrev postgres : String
postgres = "postgres"

named : postgres ≢ ""
named = λ e. ground (arith, eq_iff "postgres" "")

finalize_consensus-Wins_example :
    let after = finalize_consensus 50 3 tasks votes session in
    ((after.status ≡ SessionStatus.decided) × (after.result_option ≡ postgres))
    ↔ Wins majority 3 votes postgres
finalize_consensus-Wins_example =
    finalize_consensus-Wins 50 3 tasks votes session postgres named (omega arith)

finalize_consensus-deadlocked_iff_example :
    let after = finalize_consensus 50 3 tasks votes session in
    ((after.status ≡ SessionStatus.deadlocked) × (after.result_option ≡ ""))
    ↔ ((w : String) → ¬ Wins majority 3 votes w)
finalize_consensus-deadlocked_iff_example =
    finalize_consensus-deadlocked_iff 50 3 tasks votes session (omega arith) refl

-- A Python whose texts are as they stand, and whose JSON parser knows one payload.
abbrev payload : Json
payload = object (field "option" (text "sqlite") (field "confidence" (number (pos 7) 1) end))

abbrev python : Python
python = record {
  strip = λ s. s;
  casefold = λ s. s;
  unfence = λ s. s;
  loads = λ s. some payload;
  show = λ v. "";
  decimal = λ s. none;
  clip = λ s. s;
  column = λ m p. 700;
}

sqlite_vote : parse_vote python "{}" session.options ≡ Parsed.vote "sqlite" (pos 7, 1) "{}"
unfolding parse_vote
sqlite_vote = refl

parse_vote_sound_example : Memᴰ "sqlite" session.options × IsShare (pos 7, 1)
parse_vote_sound_example =
    parse_vote_sound python "{}" session.options "sqlite" (pos 7, 1) "{}" sqlite_vote

abbrev identity : Python
identity = record {
  strip = λ s. s;
  casefold = λ s. s;
  unfence = λ s. s;
  loads = λ s. none;
  show = λ v. elim v [ text s ↦ s | _ ↦ "" ];
  decimal = λ s. none;
  clip = λ s. s;
  column = λ m p. 0;
}

abbrev asked : List Json
asked = text "postgres" ∷ text "" ∷ text "sqlite" ∷ text "postgres" ∷ []

abbrev new_task : ℕ → VoteTask
new_task coworker = record {
  session = some 1;
  coworker = coworker;
  status = TaskStatus.pending;
  result = "";
}

abbrev new_tasks : List VoteTask
new_tasks = new_task 4 ∷ new_task 5 ∷ []

starts :
    start_consensus_session identity true 1 (4 ∷ 5 ∷ []) "Which database?" asked "majority"
    ≡ started session new_tasks
unfolding start_consensus_session
starts = refl

start_consensus_session-IsStarted_example :
    (Bool.true ≡ true) × IsStarted 1 (4 ∷ 5 ∷ []) session new_tasks
start_consensus_session-IsStarted_example =
    start_consensus_session-IsStarted identity true 1 (4 ∷ 5 ∷ []) "Which database?" asked
      "majority" session new_tasks starts
