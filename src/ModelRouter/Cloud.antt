-- ===== src/ModelRouter/Cloud.antt =====
-- `DeepSeekCloudAdapter` and `DeepSeekSelfHostedAdapter` of services/app/ai/model_router/adapters: the
-- request that goes out, the answer that comes back, the models and the prices.
use deep_foundry.Base.{
  ℕ, ◌+◌, ◌*◌, String, str_eq, Bool, true, Option, none, some, List, [], ◌∷◌, ◌++◌, map, ◌==◌,
  if◌then◌else◌,
}
use deep_foundry.Base.Int.{pos}
use deep_foundry.Base.Text.{contains_text}
use deep_foundry.Base.Dict.{Dict, lookup, get_or_default}
use deep_foundry.Json.{
  Json, boolean, number, text, array, object, Items, nil, cons, Fields, end, field, entries,
}
use deep_foundry.Marketplace.{round_half_even}
use deep_foundry.TaskEngine.{Role, system, user, assistant, tool, ToolCall}
use deep_foundry.ModelRouter.{
  ChatMessage, ToolDefinition, ModelConfig, Usage, Response, Capabilities, Exception, adapter_error,
  rate_limited, other_error, Outcome, returned, raises, given,
}

-- `json.dumps` and `json.loads`, which is `none` where it raises a JSONDecodeError.
pub record JsonText : Type 0 where
  pub dumps : Json → String
  pub loads : String → Option Json

abbrev pub fields_of : Dict Json → Fields
fields_of [] = end
fields_of ((k, v) ∷ d) = field k v (fields_of d)

abbrev pub to_items : List Json → Items
to_items [] = nil
to_items (v ∷ vs) = cons v (to_items vs)

abbrev pub dict : Dict Json → Json
dict d = object (fields_of d)

abbrev pub role_text : Role → String
role_text system = "system"
role_text user = "user"
role_text assistant = "assistant"
role_text tool = "tool"

-- The entry of a key whose value is truthy.
abbrev pub text_entry : String → Option String → Dict Json
text_entry key none = []
text_entry key (some value) = (key, text value) ∷ []

unfoldable pub tool_call_to_wire : JsonText → ToolCall → Json
tool_call_to_wire json call = dict (
    ("id", text call.id)
    ∷ ("type", text "function")
    ∷ (
      "function",
      dict (("name", text call.name) ∷ ("arguments", text (json.dumps call.arguments)) ∷ []),
    )
    ∷ [])

abbrev pub calls_entry : JsonText → List ToolCall → Dict Json
calls_entry json [] = []
calls_entry json (call ∷ calls) =
    ("tool_calls", array (to_items (map (tool_call_to_wire json) (call ∷ calls)))) ∷ []

-- `_message_to_wire`
unfoldable pub message_to_wire : JsonText → ChatMessage → Json
message_to_wire json message = dict (
    ("role", text (role_text message.role))
    ∷ ("content", text message.content)
    ∷ (text_entry "tool_call_id" (given message.tool_call_id)
        ++ (text_entry "name" (given message.name) ++ calls_entry json message.tool_calls)))

-- `_tool_to_wire`
unfoldable pub tool_to_wire : ToolDefinition → Json
tool_to_wire definition = dict (
    ("type", text "function")
    ∷ (
      "function",
      dict (
          ("name", text definition.name)
          ∷ ("description", text definition.description)
          ∷ ("parameters", definition.parameters)
          ∷ []),
    )
    ∷ [])

abbrev pub max_tokens_entry : Option ℕ → Dict Json
max_tokens_entry none = []
max_tokens_entry (some n) = ("max_tokens", number (pos n) 0) ∷ []

abbrev pub tools_entry : List ToolDefinition → Dict Json
tools_entry [] = []
tools_entry (t ∷ ts) = ("tools", array (to_items (map tool_to_wire (t ∷ ts)))) ∷ []

-- `_build_payload`
unfoldable pub build_payload :
    JsonText → List ChatMessage → List ToolDefinition → ModelConfig → Json
build_payload json messages tools config = dict (
    ("model", text config.model_id)
    ∷ ("messages", array (to_items (map (message_to_wire json) messages)))
    ∷ ("temperature", config.temperature)
    ∷ ("stream", boolean config.stream)
    ∷ (max_tokens_entry config.max_tokens ++ tools_entry tools))

-- A tool call as it comes from the wire, where its id and name may be any value.
pub record WireCall : Type 0 where
  pub id : Json
  pub name : Json
  pub arguments : Json

abbrev pub arguments_from : JsonText → Json → Json
arguments_from json (text s) = get_or_default (object end) (json.loads s)
arguments_from json value = value

abbrev pub named_call : JsonText → Json → Json → Option WireCall
named_call json id (object function) = some (record {
  id = id;
  name = get_or_default (text "") (lookup "name" (entries function));
  arguments =
      arguments_from json (get_or_default (text "{}") (lookup "arguments" (entries function)));
})
named_call json id _ = none

-- `_tool_call_from_wire`: `none` where it raises, on a value that is no dict.
unfoldable pub tool_call_from_wire : JsonText → Json → Option WireCall
tool_call_from_wire json (object raw) =
    named_call json (get_or_default (text "") (lookup "id" (entries raw)))
      (get_or_default (object end) (lookup "function" (entries raw)))
tool_call_from_wire json _ = none

-- A model of the cloud, `none` where `capabilities` knows none of that id.
abbrev pub is_known : String → Bool
is_known model_id =
    if str_eq model_id "deepseek-v4-flash" then true else str_eq model_id "deepseek-v4-pro"

abbrev pub cloud_model : Capabilities
cloud_model = record {
  tool_calling = true;
  max_context = 1000000;
  reasoning_mode = true;
  streaming = true;
}

unfoldable pub cloud_capabilities : String → Outcome Capabilities
cloud_capabilities model_id =
    if is_known model_id
    then returned cloud_model
    else raises (adapter_error "Unknown DeepSeek model_id")

-- `model_id.lower()` is a parameter.
unfoldable pub self_hosted_capabilities : (String → String) → String → Outcome Capabilities
self_hosted_capabilities lower model_id = returned (record {
  tool_calling = true;
  max_context = 64000;
  reasoning_mode =
      if contains_text "reason" (lower model_id) then true else contains_text "r1" (lower model_id);
  streaming = true;
})

-- `estimate_cost` in millionths of a dollar: a price per million tokens is a price in millionths per
-- token. Exact for counts that Python's 28 digits hold.
unfoldable pub estimate_cost : Usage → String → ℕ
estimate_cost usage model_id =
    if str_eq model_id "deepseek-v4-flash"
    then round_half_even (usage.input_tokens * 140 + usage.output_tokens * 280) 1000
    else if str_eq model_id "deepseek-v4-pro"
    then round_half_even (usage.input_tokens * 435 + usage.output_tokens * 870) 1000
    else 0

-- The answer's parts as the API documents them, each perhaps absent.
pub record WireChoice : Type 0 where
  pub content : Option String
  pub tool_calls : List ToolCall
  pub finish_reason : Option String

pub record WireUsage : Type 0 where
  pub prompt_tokens : Option ℕ
  pub completion_tokens : Option ℕ

pub record WireResponse : Type 0 where
  pub choices : List WireChoice
  pub usage : Option WireUsage
  pub model : Option String

abbrev pub usage_from : Option WireUsage → Usage
usage_from none = record { input_tokens = 0; output_tokens = 0 }
usage_from (some usage) = record {
  input_tokens = get_or_default 0 usage.prompt_tokens;
  output_tokens = get_or_default 0 usage.completion_tokens;
}

abbrev pub or_stop : Option String → String
or_stop reason = get_or_default "stop" (given reason)

-- The body of `_generate_sync`, after the request.
abbrev pub response_from : String → WireResponse → List WireChoice → Outcome Response
response_from model_id wire [] = raises (other_error "IndexError")
response_from model_id wire (choice ∷ _) = returned (record {
  content = get_or_default "" choice.content;
  tool_calls = choice.tool_calls;
  usage = some (usage_from wire.usage);
  model_id = get_or_default model_id wire.model;
  finish_reason = or_stop choice.finish_reason;
})

-- What `urlopen` and the reading of its answer do.
pub data Network : Type 0 where
  answered : WireResponse → Network
  http_error : ℕ → String → Network
  url_error : String → Network
  other_failure : String → Network

abbrev pub status_error : ℕ → String → Exception
status_error code body = if code == 429 then rate_limited body else adapter_error body

-- `_generate_sync` on what `_post` meets.
unfoldable pub generate_sync : String → Network → Outcome Response
generate_sync model_id (answered wire) = response_from model_id wire wire.choices
generate_sync model_id (http_error code body) = raises (status_error code body)
generate_sync model_id (url_error reason) = raises (adapter_error reason)
generate_sync model_id (other_failure message) = raises (other_error message)
