-- ===== src/ModelRouter/Tests.antt =====
-- A router whose first request is refused for its rate and whose second is answered, a stream with a
-- tool call in two fragments, and the theorems on them.
use deep_foundry.Base.{
  ℕ, zero, suc, String, false, Option, none, some, List, [], ◌∷◌, ◌++◌, map, keep, ◌≡◌, refl,
}
use deep_foundry.Base.Dict.{get_or_default}
use deep_foundry.Base.Text.{concat_texts}
use deep_foundry.Json.{Json, number, object, end}
use deep_foundry.Base.Int.{pos}
use deep_foundry.TaskEngine.{Role}
use deep_foundry.ModelRouter.{ChatMessage, ModelConfig, StreamChunk, raises, given, adapter_error}
use deep_foundry.ModelRouter.Calls.{
  Router, Meter, Ledger, negotiate, generate, generate_stream, with_stream, last_usage,
}
use deep_foundry.ModelRouter.Cloud.{
  JsonText, Network, answered, http_error, WireChoice, WireResponse, message_to_wire,
  cloud_capabilities,
}
use deep_foundry.ModelRouter.Wire.{message_calls_from, as_wire, message_calls_from-message_to_wire}
use deep_foundry.ModelRouter.Logged.{
  Accounted, failure_of, usage_of, generate-Accounted, generate_stream-Accounted,
}
use deep_foundry.ModelRouter.Fallback.{Asked, generate-Asked}
use deep_foundry.ModelRouter.Streams.{
  Fragment, Delta, Event, first_choice, no_choices, generate_chunks, call_of, Slots,
}
use deep_foundry.ModelRouter.Assembled.{slot_at, slot_after, at_index, IsAscending}
use deep_foundry.ModelRouter.Chunks.{
  fragments_of, content_of, generate_chunks-content, generate_chunks-last,
}
use deep_foundry.ModelRouter.Adapters.{Wire, cloud_adapter}

-- A printer of a single value, which its reader inverts.
abbrev json : JsonText
json = record { dumps = λ v. "{}"; loads = λ s. some (object end) }

abbrev choice : WireChoice
choice = record { content = some "Done."; tool_calls = []; finish_reason = some "stop" }

abbrev answer : WireResponse
answer = record { choices = choice ∷ []; usage = none; model = none }

abbrev post : String → ℕ → Json → Network
post url zero payload = http_error 429 "slow down"
post url (suc n) payload = answered answer

abbrev asked_id : Fragment
asked_id = record {
  index = 0;
  id = some "call_1";
  name = some "search";
  arguments = some "{\"q\":";
}

abbrev asked_rest : Fragment
asked_rest = record { index = 0; id = none; name = none; arguments = some " 1}" }

abbrev first_event : Delta
first_event = record {
  fragments = asked_id ∷ [];
  content = none;
  finish_reason = none;
  usage = none;
}

abbrev last_event : Delta
last_event = record {
  fragments = asked_rest ∷ [];
  content = some "Searching.";
  finish_reason = some "tool_calls";
  usage = none;
}

abbrev events : List Event
events = no_choices ∷ first_choice first_event ∷ []

abbrev wire : Wire
wire = record {
  post = post;
  post_stream = λ url n payload. (events ++ (first_choice last_event ∷ []), none);
}

abbrev router : Router
router = record { adapter = cloud_adapter json wire; workspace_id = 1; coworker_id = some 2 }

abbrev meter : Meter
meter = record { request_id = 7; latency = λ n. 12 }

abbrev config : ModelConfig
config = record {
  model_id = "deepseek-v4-flash";
  temperature = number (pos 1) 0;
  max_tokens = none;
  stream = false;
}

abbrev ledger : Ledger
ledger = record { requests = []; rows = []; audits = [] }

abbrev fallback : Option String
fallback = some "deepseek-v4-pro"

generate-Accounted_example :
    let end = generate router meter [] [] config fallback ledger in
    Accounted router ledger end.0 (failure_of end.1) (usage_of end.1)
generate-Accounted_example = generate-Accounted router meter [] [] config fallback ledger tt

generate_stream-Accounted_example :
    let end = generate_stream router meter [] [] config ledger in
    Accounted router ledger end.0 end.2
      (elim end.2 [ none ↦ last_usage none end.1 | some _ ↦ none ])
generate_stream-Accounted_example = generate_stream-Accounted router meter [] [] config ledger tt

generate-Asked_example :
    let end = generate router meter [] [] config fallback ledger in
    (asked : List ModelConfig) × (end.0.requests ≡ asked ++ ledger.requests)
    × Asked router [] [] (with_stream false config) (given fallback) ledger asked end.1
generate-Asked_example = generate-Asked router meter [] [] ledger config fallback

abbrev message : ChatMessage
message = record {
  role = Role.assistant;
  content = "";
  tool_call_id = none;
  name = some "ada";
  tool_calls = record { id = "call_1"; name = "search"; arguments = object end } ∷ [];
}

message_calls_from-message_to_wire_example :
    message_calls_from json (message_to_wire json message) ≡ some (map as_wire message.tool_calls)
message_calls_from-message_to_wire_example =
    message_calls_from-message_to_wire json message (refl, tt)

generate_chunks-content_example :
    concat_texts (map (λ (c : StreamChunk). c.delta) (generate_chunks json events []))
    ≡ concat_texts (map content_of events)
generate_chunks-content_example = generate_chunks-content json events []

generate_chunks-last_example :
    (chunk : StreamChunk) × (slots : Slots) × (generate_chunks json
        (events ++ (first_choice last_event ∷ []))
        []
      ≡ generate_chunks json events [] ++ (chunk ∷ []))
    × (chunk.finish_reason ≡ some "tool_calls")
    × (get_or_default [] chunk.tool_calls ≡ map (call_of json) slots)
    × IsAscending slots
    × ((i : ℕ)
        → slot_at i slots
          ≡ slot_after none (keep (at_index i) (fragments_of events ++ last_event.fragments)))
generate_chunks-last_example = generate_chunks-last json events last_event "tool_calls" refl

-- A model that the cloud does not know is refused before a request, and the fallback is not tried.
refuses_unknown :
    generate router meter [] [] (record config { model_id = "gpt" }) fallback ledger
    ≡ (ledger, raises (adapter_error "Unknown DeepSeek model_id"))
unfolding generate negotiate cloud_adapter cloud_capabilities
refuses_unknown = refl
