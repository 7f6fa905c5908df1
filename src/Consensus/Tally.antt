-- ===== src/Consensus/Tally.antt =====
-- `finalize_consensus` and `record_consensus_vote_from_task` of services/app/core/v4_services.py.
use deep_foundry.Base.{
  ℕ, ◌+◌, ◌*◌, String, str_eq, Bool, true, false, ◌&&◌, none, some, List, [], ◌∷◌, map, ◌==◌, ltb,
  max, length, keep, count_if, if◌then◌else◌,
}
use deep_foundry.Base.Dict.{Dict, lookup, insert, get_or_default}
use deep_foundry.Workflow.State.{TaskStatus}
use deep_foundry.Consensus.{
  Method, unanimous, confidence_weighted, SessionStatus, Session, VoteTask, Vote, Python, Parsed,
  parse_vote, distinct,
}

-- What a vote adds to its option's score, in thousandths.
abbrev pub weight : Method → Vote → ℕ
weight confidence_weighted vote = vote.confidence
weight _ vote = 1000

-- The loop over the votes: `scores[vote.option] += ...`.
unfoldable pub tally : Method → Dict ℕ → List Vote → Dict ℕ
tally method scores [] = scores
tally method scores (vote ∷ votes) =
    tally method
      (insert vote.option (get_or_default 0 (lookup vote.option scores) + weight method vote)
        scores)
      votes

-- `max(scores.values())`
abbrev pub highest : Dict ℕ → ℕ
highest [] = 0
highest ((o, s) ∷ scores) = max s (highest scores)

-- `winners[0] if len(winners) == 1 else ""`
abbrev pub only : Dict ℕ → String
only ((o, s) ∷ []) = o
only _ = ""

unfoldable pub winner_of : Dict ℕ → String
winner_of scores = only (keep (λ (e : String × ℕ). e.1 == highest scores) scores)

abbrev pub unanimous_winner : ℕ → List Vote → String
unanimous_winner expected [] = ""
unanimous_winner expected (vote ∷ votes) =
    if (length (vote ∷ votes) == expected)
      && (length (distinct (map (λ v. v.option) (vote ∷ votes))) == 1)
    then vote.option
    else ""

-- `len(votes) > expected / 2`; without a vote there are no scores.
abbrev pub scored_winner : Method → ℕ → List Vote → String
scored_winner method expected votes =
    if ltb expected (2 * length votes) then winner_of (tally method [] votes) else ""

unfoldable pub winner : Method → ℕ → List Vote → String
winner unanimous expected votes = unanimous_winner expected votes
winner method expected votes = scored_winner method expected votes

-- `exclude(status__in=[PENDING, IN_PROGRESS, NEEDS_APPROVAL])`
abbrev pub is_finished : TaskStatus → Bool
is_finished TaskStatus.pending = false
is_finished TaskStatus.in_progress = false
is_finished TaskStatus.needs_approval = false
is_finished _ = true

abbrev pub of_session : ℕ → VoteTask → Bool
of_session id task = elim task.session [ none ↦ false | some s ↦ s == id ]

abbrev pub finished_tasks : Session → List VoteTask → ℕ
finished_tasks session tasks =
    count_if (λ (t : VoteTask). of_session session.id t && is_finished t.status) tasks

abbrev pub close_session : ℕ → Session → String → Session
close_session now session won = record session {
  status = if str_eq won "" then SessionStatus.deadlocked else SessionStatus.decided;
  result_option = won;
  completed_at = some now;
}

-- `expected` counts the members of the team's current version.
unfoldable pub finalize_consensus : ℕ → ℕ → List VoteTask → List Vote → Session → Session
finalize_consensus now expected tasks votes session =
    if ltb (finished_tasks session tasks) expected
    then session
    else close_session now session (winner session.method expected votes)

-- `update_or_create`: one vote for each coworker.
abbrev pub update_or_create : Vote → List Vote → List Vote
update_or_create vote [] = vote ∷ []
update_or_create vote (v ∷ votes) =
    let rest = update_or_create vote votes in
    if v.coworker == vote.coworker then vote ∷ votes else v ∷ rest

-- What the database holds of a session, and how recording a vote may end.
pub record Board : Type 0 where
  pub session : Session
  pub tasks : List VoteTask
  pub votes : List Vote

pub data Recorded : Type 0 where
  recorded : Vote → Board → Recorded
  nothing : Board → Recorded
  exception : Recorded

abbrev pub finalized : ℕ → ℕ → Board → Board
finalized now expected board = record board {
  session = finalize_consensus now expected board.tasks board.votes board.session;
}

abbrev pub record_parsed : Python → ℕ → ℕ → Board → VoteTask → Parsed → Recorded
record_parsed py now expected board task Parsed.raised = exception
record_parsed py now expected board task Parsed.no_vote = nothing (finalized now expected board)
record_parsed py now expected board task (Parsed.vote option confidence rationale) =
    let vote : Vote = record {
      coworker = task.coworker;
      option = option;
      confidence = py.column confidence.0 confidence.1;
      rationale = rationale;
    } in
    recorded vote
      (finalized now expected (record board { votes = update_or_create vote board.votes }))

-- `execution_state.get("consensus_session_id")` names the board's session, or there is none.
unfoldable pub record_consensus_vote_from_task :
    Python → ℕ → ℕ → Board → VoteTask → TaskStatus → Recorded
record_consensus_vote_from_task py now expected board task TaskStatus.completed =
    elim task.session [
      | none ↦ nothing board
      | some _ ↦
          record_parsed py now expected board task (parse_vote py task.result board.session.options)
    ]
record_consensus_vote_from_task py now expected board task _ = nothing board
