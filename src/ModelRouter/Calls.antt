-- ===== src/ModelRouter/Calls.antt =====
-- `ModelRouter` of services/app/ai/model_router/router.py: the negotiation, the call with its fallback,
-- the stream, and the rows of `model_calls`.
use deep_foundry.Base.{
  ℕ, String, Bool, true, false, ◌&&◌, not, Option, none, some, List, [], ◌∷◌, length, if◌then◌else◌,
}
use deep_foundry.ModelRouter.{
  ChatMessage, ToolDefinition, ModelConfig, Usage, Response, StreamChunk, Capabilities, Exception,
  capability_error, Outcome, returned, raises, is_caught, is_rate_limited, given,
}

-- A `ModelAdapter`. What it answers may depend on the number of calls it had before. A stream gives its
-- chunks, and perhaps an exception after the last one.
pub record Adapter : Type 0 where
  pub deployment_mode : String
  pub capabilities : String → Outcome Capabilities
  pub generate : ℕ → List ChatMessage → List ToolDefinition → ModelConfig → Outcome Response
  pub generate_stream :
      ℕ → List ChatMessage → List ToolDefinition → ModelConfig → List StreamChunk × Option Exception
  pub estimate_cost : Usage → String → ℕ

pub record Router : Type 0 where
  pub adapter : Adapter
  pub workspace_id : ℕ
  pub coworker_id : Option ℕ

-- `ModelCall.Status`
pub data CallStatus : Type 0 where
  success rate_limited_call failed_call : CallStatus

-- A row of `model_calls`; the cost in millionths of a dollar.
pub record ModelCall : Type 0 where
  pub request_id : ℕ
  pub workspace_id : ℕ
  pub coworker_id : Option ℕ
  pub deployment_mode : String
  pub model_id : String
  pub tool_calling : Bool
  pub streaming : Bool
  pub fallback_used : Bool
  pub input_tokens : Option ℕ
  pub output_tokens : Option ℕ
  pub cost : Option ℕ
  pub latency_ms : ℕ
  pub status : CallStatus

-- An entry of the audit log: who acts, the action, and the row it tells of.
pub record CallAudit : Type 0 where
  pub by_coworker : Bool
  pub action : String
  pub call : ModelCall
  pub rate_limit : Bool

-- The requests that went to the adapter, the rows and the audit entries, each newest first.
pub record Ledger : Type 0 where
  pub requests : List ModelConfig
  pub rows : List ModelCall
  pub audits : List CallAudit

-- What one call of the router takes from outside: its id and the times that it measures.
pub record Meter : Type 0 where
  pub request_id : ℕ
  pub latency : ℕ → ℕ

abbrev pub is_empty {ℓ} : {A : Type ℓ} → List A → Bool
is_empty [] = true
is_empty (_ ∷ _) = false

abbrev pub input_of : Option Usage → Option ℕ
input_of none = none
input_of (some usage) = some usage.input_tokens

abbrev pub output_of : Option Usage → Option ℕ
output_of none = none
output_of (some usage) = some usage.output_tokens

abbrev pub cost_of : Router → String → Option Usage → Option ℕ
cost_of router model_id none = none
cost_of router model_id (some usage) = some (router.adapter.estimate_cost usage model_id)

abbrev pub has_coworker : Option ℕ → Bool
has_coworker none = false
has_coworker (some _) = true

-- `_log`
unfoldable pub log :
    Router → ℕ → ModelConfig → Bool → ℕ → CallStatus → Option Usage → Bool → Ledger → Ledger
log router request_id config tools latency status usage fallback_used ledger =
    let call : ModelCall = record {
      request_id = request_id;
      workspace_id = router.workspace_id;
      coworker_id = router.coworker_id;
      deployment_mode = router.adapter.deployment_mode;
      model_id = config.model_id;
      tool_calling = tools;
      streaming = config.stream;
      fallback_used = fallback_used;
      input_tokens = input_of usage;
      output_tokens = output_of usage;
      cost = cost_of router config.model_id usage;
      latency_ms = latency;
      status = status;
    } in
    record ledger {
      rows = call ∷ ledger.rows;
      audits =
          record {
            by_coworker = has_coworker router.coworker_id;
            action = "model.call";
            call = call;
            rate_limit = false;
          }
          ∷ ledger.audits;
    }

abbrev pub failure_status : Exception → CallStatus
failure_status error =
    if is_rate_limited error then CallStatus.rate_limited_call else CallStatus.failed_call

-- `_log_failure`
unfoldable pub log_failure : Router → ℕ → ModelConfig → Bool → Exception → Bool → Ledger → Ledger
log_failure router request_id config tools error fallback_used ledger =
    let call : ModelCall = record {
      request_id = request_id;
      workspace_id = router.workspace_id;
      coworker_id = router.coworker_id;
      deployment_mode = router.adapter.deployment_mode;
      model_id = config.model_id;
      tool_calling = tools;
      streaming = config.stream;
      fallback_used = fallback_used;
      input_tokens = none;
      output_tokens = none;
      cost = none;
      latency_ms = 0;
      status = failure_status error;
    } in
    record ledger {
      rows = call ∷ ledger.rows;
      audits =
          record {
            by_coworker = has_coworker router.coworker_id;
            action = "model.call_failed";
            call = call;
            rate_limit = is_rate_limited error;
          }
          ∷ ledger.audits;
    }

-- `_negotiate`: `none` where it returns.
abbrev pub meets : Bool → ModelConfig → Outcome Capabilities → Option Exception
meets tools config (raises error) = some error
meets tools config (returned able) =
    if tools && not able.tool_calling
    then some (capability_error "does not support tool calling")
    else if config.stream && not able.streaming
    then some (capability_error "does not support streaming")
    else none

unfoldable pub negotiate : Router → Bool → ModelConfig → Option Exception
negotiate router tools config = meets tools config (router.adapter.capabilities config.model_id)

-- `_call_sync`: the request goes out, however that ends.
abbrev pub sent : ModelConfig → Ledger → Ledger
sent config ledger = record ledger { requests = config ∷ ledger.requests }

unfoldable pub call_sync :
    Router → List ChatMessage → List ToolDefinition → ModelConfig → Ledger → Outcome Response
call_sync router messages tools config ledger =
    router.adapter.generate (length ledger.requests) messages tools config

-- One attempt: the call, and the row that it leaves. An exception of another class leaves none.
abbrev pub record_attempt :
    Router → Meter → Bool → ModelConfig → Bool → Ledger → Outcome Response → Ledger
record_attempt router meter tools config fallback_used ledger (returned response) =
    log router meter.request_id config tools (meter.latency (length ledger.requests))
      CallStatus.success response.usage fallback_used (sent config ledger)
record_attempt router meter tools config fallback_used ledger (raises error) =
    if is_caught error
    then log_failure router meter.request_id config tools error fallback_used (sent config ledger)
    else sent config ledger

unfoldable pub attempt :
    Router
    → Meter
    → List ChatMessage
    → List ToolDefinition
    → ModelConfig
    → Bool
    → Ledger
    → Ledger × Outcome Response
attempt router meter messages tools config fallback_used ledger =
    let response = call_sync router messages tools config ledger in
    (
      record_attempt router meter (not (is_empty tools)) config fallback_used ledger response,
      response,
    )

abbrev pub with_model : String → ModelConfig → ModelConfig
with_model model_id config = record config { model_id = model_id }

abbrev pub with_stream : Bool → ModelConfig → ModelConfig
with_stream stream config = record config { stream = stream }

-- The primary model's answer is taken, or the fallback is tried once.
abbrev pub after_primary :
    Router
    → Meter
    → List ChatMessage
    → List ToolDefinition
    → ModelConfig
    → Option String
    → Ledger × Outcome Response
    → Ledger × Outcome Response
after_primary router meter messages tools config fallback (ledger, returned response) =
    (ledger, returned response)
after_primary router meter messages tools config none (ledger, raises error) =
    (ledger, raises error)
after_primary router meter messages tools config (some model_id) (ledger, raises error) =
    let second = attempt router meter messages tools (with_model model_id config) true ledger in
    if is_caught error then second else (ledger, raises error)

abbrev pub generate_able :
    Router
    → Meter
    → List ChatMessage
    → List ToolDefinition
    → ModelConfig
    → Option String
    → Ledger
    → Option Exception
    → Ledger × Outcome Response
generate_able router meter messages tools config fallback ledger (some error) =
    (ledger, raises error)
generate_able router meter messages tools config fallback ledger none =
    after_primary router meter messages tools config (given fallback)
      (attempt router meter messages tools config false ledger)

-- `generate`
unfoldable pub generate :
    Router
    → Meter
    → List ChatMessage
    → List ToolDefinition
    → ModelConfig
    → Option String
    → Ledger
    → Ledger × Outcome Response
generate router meter messages tools config fallback ledger =
    let plain = with_stream false config in
    generate_able router meter messages tools plain fallback ledger
      (negotiate router (not (is_empty tools)) plain)

-- The last usage that a chunk carries.
abbrev pub last_usage : Option Usage → List StreamChunk → Option Usage
last_usage final [] = final
last_usage final (chunk ∷ chunks) =
    last_usage (elim chunk.usage [ none ↦ final | some usage ↦ some usage ]) chunks

-- How a stream ends for its reader: the chunks it got, and an exception after them or none.
abbrev pub end_stream :
    Router → Meter → Bool → ModelConfig → Ledger → List StreamChunk → Option Exception → Ledger
end_stream router meter tools config ledger chunks none =
    log router meter.request_id config tools (meter.latency (length ledger.requests))
      CallStatus.success (last_usage none chunks) false (sent config ledger)
end_stream router meter tools config ledger chunks (some error) =
    if is_caught error
    then log_failure router meter.request_id config tools error false (sent config ledger)
    else sent config ledger

abbrev pub stream_able :
    Router
    → Meter
    → List ChatMessage
    → List ToolDefinition
    → ModelConfig
    → Ledger
    → Option Exception
    → Ledger × List StreamChunk × Option Exception
stream_able router meter messages tools config ledger (some error) = (ledger, [], some error)
stream_able router meter messages tools config ledger none =
    let (chunks, failure) =
      router.adapter.generate_stream (length ledger.requests) messages tools config in
    (end_stream router meter (not (is_empty tools)) config ledger chunks failure, chunks, failure)

-- `generate_stream`, read to its end.
unfoldable pub generate_stream :
    Router
    → Meter
    → List ChatMessage
    → List ToolDefinition
    → ModelConfig
    → Ledger
    → Ledger × List StreamChunk × Option Exception
generate_stream router meter messages tools config ledger =
    let streaming = with_stream true config in
    stream_able router meter messages tools streaming ledger
      (negotiate router (not (is_empty tools)) streaming)
