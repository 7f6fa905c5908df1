-- ===== src/ModelRouter/Streams.antt =====
-- The stream of the DeepSeek adapter, where a tool call comes in fragments: `_generate_stream` and
-- `_finalize_tool_calls` of services/app/ai/model_router/adapters/deepseek_cloud.py.
use deep_foundry.Base.{
  ℕ, String, str_eq, Bool, true, false, ◌&&◌, not, Option, none, some, List, [], ◌∷◌, map, ◌==◌,
  leb, if◌then◌else◌,
}
use deep_foundry.Base.Dict.{get_or_default}
use deep_foundry.Base.Sorting.{sort_by}
use deep_foundry.Base.Text.{append_text}
use deep_foundry.Json.{Json, object, end}
use deep_foundry.TaskEngine.{ToolCall}
use deep_foundry.ModelRouter.{Usage, StreamChunk, given}
use deep_foundry.ModelRouter.Cloud.{JsonText, WireUsage, usage_from}

-- A fragment of a tool call; an absent index counts as 0.
pub record Fragment : Type 0 where
  pub index : ℕ
  pub id : Option String
  pub name : Option String
  pub arguments : Option String

-- An event with a choice; one with none is passed over before.
pub record Delta : Type 0 where
  pub fragments : List Fragment
  pub content : Option String
  pub finish_reason : Option String
  pub usage : Option WireUsage

pub data Event : Type 0 where
  no_choices : Event
  first_choice : Delta → Event

pub record Slot : Type 0 where
  pub id : String
  pub name : String
  pub arguments : String

-- `accumulated`: a dict by index, in the order of insertion.
abbrev pub Slots : Type 0
Slots = List (ℕ × Slot)

abbrev pub empty_slot : Slot
empty_slot = record { id = ""; name = ""; arguments = "" }

-- What a fragment does to its slot.
unfoldable pub take_fragment : Fragment → Slot → Slot
take_fragment fragment slot = record {
  id = get_or_default slot.id (given fragment.id);
  name = get_or_default slot.name (given fragment.name);
  arguments = append_text slot.arguments (get_or_default "" (given fragment.arguments));
}

-- `accumulated.setdefault(index, ...)`, and the change of the slot in its place.
abbrev pub accumulate : Fragment → Slots → Slots
accumulate fragment [] = (fragment.index, take_fragment fragment empty_slot) ∷ []
accumulate fragment ((index, slot) ∷ slots) =
    let rest = accumulate fragment slots in
    if fragment.index == index
    then (index, take_fragment fragment slot) ∷ slots
    else (index, slot) ∷ rest

abbrev pub accumulate_all : List Fragment → Slots → Slots
accumulate_all [] slots = slots
accumulate_all (fragment ∷ fragments) slots = accumulate_all fragments (accumulate fragment slots)

abbrev pub index_le : ℕ × Slot → ℕ × Slot → Bool
index_le a b = leb a.0 b.0

-- `json.loads(arguments) if arguments else {}`, and `{}` where it raises.
abbrev pub parsed_arguments : JsonText → String → Json
parsed_arguments json arguments =
    if str_eq arguments "" then object end else get_or_default (object end) (json.loads arguments)

abbrev pub call_of : JsonText → ℕ × Slot → ToolCall
call_of json (index, slot) = record {
  id = slot.id;
  name = slot.name;
  arguments = parsed_arguments json slot.arguments;
}

-- `_finalize_tool_calls`
unfoldable pub finalize_tool_calls : JsonText → Slots → List ToolCall
finalize_tool_calls json slots = map (call_of json) (sort_by index_le slots)

abbrev pub calls_or_none : JsonText → Slots → Option (List ToolCall)
calls_or_none json [] = none
calls_or_none json (s ∷ slots) = some (finalize_tool_calls json (s ∷ slots))

-- `not content and finish_reason is None and not usage_raw`; a usage with no entry is an empty dict.
abbrev pub has_usage : Option WireUsage → Bool
has_usage none = false
has_usage (some usage) = elim usage.prompt_tokens [
  | some _ ↦ true
  | none ↦ elim usage.completion_tokens [ some _ ↦ true | none ↦ false ]
]

abbrev pub has_text : Option String → Bool
has_text none = false
has_text (some s) = not (str_eq s "")

abbrev pub has_reason : Option String → Bool
has_reason none = false
has_reason (some _) = true

abbrev pub is_pure_fragment : Delta → Bool
is_pure_fragment delta =
    not (has_text delta.content)
    && not (has_reason delta.finish_reason)
    && not (has_usage delta.usage)

abbrev pub usage_of_delta : Option WireUsage → Option Usage
usage_of_delta usage = if has_usage usage then some (usage_from usage) else none

abbrev pub chunk_of : JsonText → Delta → Slots → StreamChunk
chunk_of json delta slots = record {
  delta = get_or_default "" delta.content;
  finish_reason = delta.finish_reason;
  usage = usage_of_delta delta.usage;
  tool_calls = calls_or_none json slots;
}

-- `_generate_stream`: the loop over the events.
unfoldable pub generate_chunks : JsonText → List Event → Slots → List StreamChunk
generate_chunks json [] slots = []
generate_chunks json (no_choices ∷ events) slots = generate_chunks json events slots
generate_chunks json (first_choice delta ∷ events) slots =
    let later = accumulate_all delta.fragments slots in
    let rest = generate_chunks json events later in
    if is_pure_fragment delta then rest else chunk_of json delta later ∷ rest
