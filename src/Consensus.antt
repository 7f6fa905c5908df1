-- ===== src/Consensus.antt =====
-- Decisions of a coworker team by vote: `start_consensus_session`, `_parse_vote`,
-- `record_consensus_vote_from_task` and `finalize_consensus` of services/app/core/v4_services.py.
-- A vote's confidence is a column of three decimal places and counts in thousandths.
pub mod Tally
pub mod Scores
pub mod Parsing
pub mod Laws
mod Tests
use deep_foundry.Base.{
  ℕ, ◌+◌, ◌*◌, String, str_eq, Bool, true, false, ◌&&◌, ◌||◌, not, Option, none, some, List, [],
  ◌∷◌, ◌++◌, map, ◌==◌, ltb, leb, max, length, any, find, keep, count_if, if◌then◌else◌,
}
use deep_foundry.Base.Int.{ℤ, pos}
use deep_foundry.Base.Dict.{Dict, lookup, insert, get_or_default}
use deep_foundry.Base.Text.{contains_text}
use deep_foundry.Json.{Json, object, end, text, get, le_number}
use deep_foundry.Policy.{Amount, finite, infinite, nan, decimal_of}
use deep_foundry.Workflow.State.{TaskStatus}

-- `ConsensusSession.Method`
pub data Method : Type 0 where
  majority unanimous confidence_weighted : Method

-- `ConsensusSession.Status`
pub data SessionStatus : Type 0 where
  collecting decided deadlocked : SessionStatus

pub record Session : Type 0 where
  pub id : ℕ
  pub question : String
  pub options : List String
  pub method : Method
  pub status : SessionStatus
  pub result_option : String
  pub completed_at : Option ℕ

-- A task that asks a coworker for its vote.
pub record VoteTask : Type 0 where
  pub session : Option ℕ
  pub coworker : ℕ
  pub status : TaskStatus
  pub result : String

pub record Vote : Type 0 where
  pub coworker : ℕ
  pub option : String
  pub confidence : ℕ
  pub rationale : String

-- `dict.fromkeys` on texts: the first of equal ones stays.
abbrev pub distinct_from : List String → List String → List String
distinct_from seen [] = []
distinct_from seen (x ∷ xs) =
    let rest = distinct_from seen xs in
    let more = distinct_from (x ∷ seen) xs in if any (str_eq x) seen then rest else x ∷ more

abbrev pub distinct : List String → List String
distinct xs = distinct_from [] xs

-- What the code takes from Python: `str.strip`, `str.casefold`, the removal of a code fence,
-- `json.loads` (`none`: it raises `JSONDecodeError`), `str` of a value that is no text, `Decimal` of
-- a text (`none`: `InvalidOperation`), the first 4000 characters, and the rounding of the column.
pub record Python : Type 0 where
  pub strip : String → String
  pub casefold : String → String
  pub unfence : String → String
  pub loads : String → Option Json
  pub show : Json → String
  pub decimal : String → Option Amount
  pub clip : String → String
  pub column : ℤ → ℕ → ℕ

pub data StartError : Type 0 where
  not_a_member no_question bad_options bad_method too_few_members : StartError

pub data Started : Type 0 where
  started : Session → List VoteTask → Started
  refused : StartError → Started

-- `method not in ConsensusSession.Method.values`
abbrev pub method_of : String → Option Method
method_of s =
    if str_eq s "majority"
    then some majority
    else if str_eq s "unanimous"
    then some unanimous
    else if str_eq s "confidence_weighted"
    then some confidence_weighted
    else none

-- The options that are not blank, each once.
abbrev pub clean_options : Python → List Json → List String
clean_options py options =
    distinct (keep (λ s. not (str_eq s "")) (map (λ o. py.strip (py.show o)) options))

abbrev pub vote_task : ℕ → ℕ → VoteTask
vote_task session coworker = record {
  session = some session;
  coworker = coworker;
  status = TaskStatus.pending;
  result = "";
}

abbrev pub with_method : ℕ → String → List String → List ℕ → Option Method → Started
with_method id question options members none = refused bad_method
with_method id question options members (some method) =
    if ltb (length members) 2
    then refused too_few_members
    else started
        (record {
          id = id;
          question = question;
          options = options;
          method = method;
          status = collecting;
          result_option = "";
          completed_at = none;
        })
        (map (vote_task id) members)

-- `members` are the coworkers of the team's current version, and `id` is the new session's.
unfoldable pub start_consensus_session :
    Python → Bool → ℕ → List ℕ → String → List Json → String → Started
start_consensus_session py is_member id members question options method =
    let clean = clean_options py options in
    if not is_member
    then refused not_a_member
    else if str_eq (py.strip question) ""
    then refused no_question
    else if ltb (length clean) 2 || ltb 10 (length clean)
    then refused bad_options
    else with_method id (py.strip question) clean members (method_of method)

-- What `_parse_vote` makes of a result: a vote, none, or an exception.
pub data Parsed : Type 0 where
  vote : String → ℤ × ℕ → String → Parsed
  no_vote : Parsed
  raised : Parsed

-- `max(Decimal("0"), c)`, then `min(Decimal("1"), c)`; both raise for a NaN.
abbrev pub clamp : Amount → Option (ℤ × ℕ)
clamp (finite m p) =
    if le_number m p (pos 0) 0
    then some (pos 0, 0)
    else some (if le_number (pos 1) 0 m p then (pos 1, 0) else (m, p))
clamp (infinite negative) = some (if negative then (pos 0, 0) else (pos 1, 0))
clamp nan = none

-- `str(value)`
abbrev pub text_of : Python → Json → String
text_of py (text s) = s
text_of py v = py.show v

-- `Decimal(str(payload.get("confidence", "1")))`, which is 1 if that is no number.
abbrev pub confidence_of : Python → Json → Option (ℤ × ℕ)
confidence_of py payload = clamp (
    get_or_default (finite (pos 1) 0)
      (decimal_of py.decimal (get_or_default (text "1") (get "confidence" payload))))

-- The only option that the text mentions.
abbrev pub single : List String → Option String
single (x ∷ []) = some x
single _ = none

abbrev pub mentioned : Python → List String → String → Option String
mentioned py options raw =
    single (keep (λ item. contains_text (py.casefold item) (py.casefold raw)) options)

abbrev pub or_else : Option String → Option String → Option String
or_else none other = other
or_else (some x) other = some x

abbrev pub option_of : Python → List String → Json → String → Option String
option_of py options payload raw =
    let candidate = py.strip (text_of py (get_or_default (text "") (get "option" payload))) in
    or_else (find (λ item. str_eq (py.casefold item) (py.casefold candidate)) options)
      (mentioned py options raw)

abbrev pub with_confidence : String → String → Option (ℤ × ℕ) → Parsed
with_confidence option rationale none = raised
with_confidence option rationale (some confidence) = vote option confidence rationale

abbrev pub with_option : Python → Json → String → Option String → Parsed
with_option py payload raw none = no_vote
with_option py payload raw (some option) =
    with_confidence option
      (py.clip (text_of py (get_or_default (text raw) (get "rationale" payload))))
      (confidence_of py payload)

-- `payload.get` raises on what is no dict.
abbrev pub parse_payload : Python → List String → String → Json → Parsed
parse_payload py options raw (object fields) =
    with_option py (object fields) raw (option_of py options (object fields) raw)
parse_payload py options raw _ = raised

unfoldable pub parse_vote : Python → String → List String → Parsed
parse_vote py result options =
    let raw = py.strip result in
    parse_payload py options raw (get_or_default (object end) (py.loads (py.unfence raw)))
