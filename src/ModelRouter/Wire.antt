-- ===== src/ModelRouter/Wire.antt =====
-- What survives the way to the provider and back (services/app/ai/model_router/adapters), and the
-- cost of a call.
use deep_foundry.Base.{String, Option, none, some, List, [], ◌∷◌, All, map, ◌++◌, ◌≡◌, refl}
use deep_foundry.Base.Dict.{Dict, lookup}
use deep_foundry.Json.{Json, text, array, elements, entries, get, or_null}
use deep_foundry.TaskEngine.{ToolCall}
use deep_foundry.ModelRouter.{ChatMessage, given}
use deep_foundry.ModelRouter.Cloud.{
  JsonText, WireCall, tool_call_to_wire, tool_call_from_wire, to_items, fields_of, text_entry,
  calls_entry, message_to_wire,
}

-- `[self._tool_call_from_wire(tc) for tc in message.get("tool_calls") or []]`
abbrev pub and_calls : Option WireCall → Option (List WireCall) → Option (List WireCall)
and_calls (some c) (some cs) = some (c ∷ cs)
and_calls _ _ = none

abbrev pub calls_from : JsonText → List Json → Option (List WireCall)
calls_from json [] = some []
calls_from json (raw ∷ raws) = and_calls (tool_call_from_wire json raw) (calls_from json raws)

abbrev pub wire_items : Json → List Json
wire_items (array items) = elements items
wire_items _ = []

unfoldable pub message_calls_from : JsonText → Json → Option (List WireCall)
message_calls_from json message = calls_from json (wire_items (or_null (get "tool_calls" message)))

abbrev pub as_wire : ToolCall → WireCall
as_wire call = record { id = text call.id; name = text call.name; arguments = call.arguments }

module _ (json : JsonText) where
  -- The JSON reader inverts the JSON printer on the arguments of a call.
  abbrev pub IsReadBack : ToolCall → Type 0
  IsReadBack call = json.loads (json.dumps call.arguments) ≡ some call.arguments

  tool_call_from_wire-tool_call_to_wire :
      (call : ToolCall)
      → IsReadBack call
      → tool_call_from_wire json (tool_call_to_wire json call) ≡ some (as_wire call)
  unfolding tool_call_from_wire tool_call_to_wire
  tool_call_from_wire-tool_call_to_wire call h = rw h refl

  calls_from-to_wire :
      (calls : List ToolCall)
      → All IsReadBack calls
      → calls_from json (elements (to_items (map (tool_call_to_wire json) calls)))
        ≡ some (map as_wire calls)
  calls_from-to_wire [] h = refl
  calls_from-to_wire (call ∷ calls) (h, hs) =
      rw (tool_call_from_wire-tool_call_to_wire call h, calls_from-to_wire calls hs) refl

  abbrev read_back : Dict Json → Option (List WireCall)
  read_back entries = calls_from json (wire_items (or_null (lookup "tool_calls" entries)))

  calls_entry-read :
      (calls : List ToolCall)
      → All IsReadBack calls
      → read_back (entries (fields_of (calls_entry json calls))) ≡ some (map as_wire calls)
  calls_entry-read [] h = refl
  calls_entry-read (call ∷ calls) h = calls_from-to_wire (call ∷ calls) h

  message-read :
      (id name : Option String) (calls : List ToolCall)
      → All IsReadBack calls
      → read_back (
          entries (
            fields_of
              (text_entry "tool_call_id" id ++ (text_entry "name" name ++ calls_entry json calls))))
        ≡ some (map as_wire calls)
  message-read none none calls h = calls_entry-read calls h
  message-read none (some name) calls h = calls_entry-read calls h
  message-read (some id) none calls h = calls_entry-read calls h
  message-read (some id) (some name) calls h = calls_entry-read calls h

  -- If the JSON reader inverts the JSON printer on the arguments of a message's tool calls, then the tool calls that are read back from a message
  -- as it was sent are the message's own, with their ids, names and arguments, whatever else the
  -- message holds.
  pub message_calls_from-message_to_wire :
      (message : ChatMessage)
      → All IsReadBack message.tool_calls
      → message_calls_from json (message_to_wire json message)
        ≡ some (map as_wire message.tool_calls)
  unfolding message_calls_from message_to_wire
  message_calls_from-message_to_wire message h =
      message-read (given message.tool_call_id) (given message.name) message.tool_calls h
