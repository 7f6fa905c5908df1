-- ===== src/ModelRouter.antt =====
-- The model router: services/app/ai/model_router (types.py and errors.py here, router.py in Calls, the
-- adapter of DeepSeek in Cloud and Streams).
pub mod Calls
pub mod Logged
pub mod Fallback
pub mod Cloud
pub mod Wire
pub mod Streams
pub mod Assembled
pub mod Chunks
pub mod Adapters
mod Tests
use deep_foundry.Base.{
  ℕ, String, str_eq, Bool, true, false, Option, none, some, List, if◌then◌else◌,
}
use deep_foundry.Json.{Json}
use deep_foundry.TaskEngine.{Role, ToolCall}

-- `ChatMessage`; no tool calls and an empty list of them are the same to this code.
pub record ChatMessage : Type 0 where
  pub role : Role
  pub content : String
  pub tool_call_id : Option String
  pub name : Option String
  pub tool_calls : List ToolCall

pub record ToolDefinition : Type 0 where
  pub name : String
  pub description : String
  pub parameters : Json

-- The temperature as the JSON number that is sent.
pub record ModelConfig : Type 0 where
  pub model_id : String
  pub temperature : Json
  pub max_tokens : Option ℕ
  pub stream : Bool

pub record Usage : Type 0 where
  pub input_tokens : ℕ
  pub output_tokens : ℕ

-- `NormalizedResponse`
pub record Response : Type 0 where
  pub content : String
  pub tool_calls : List ToolCall
  pub usage : Option Usage
  pub model_id : String
  pub finish_reason : String

pub record StreamChunk : Type 0 where
  pub delta : String
  pub finish_reason : Option String
  pub usage : Option Usage
  pub tool_calls : Option (List ToolCall)

pub record Capabilities : Type 0 where
  pub tool_calling : Bool
  pub max_context : ℕ
  pub reasoning_mode : Bool
  pub streaming : Bool

-- errors.py, and every exception of another class.
pub data Exception : Type 0 where
  adapter_error rate_limited capability_error other_error : String → Exception

-- How a call ends.
pub data Outcome {ℓ} (A : Type ℓ) : Type ℓ where
  returned : A → Outcome A
  raises : Exception → Outcome A

-- What `except (AdapterError, RateLimitedError)` catches.
abbrev pub is_caught : Exception → Bool
is_caught (adapter_error _) = true
is_caught (rate_limited _) = true
is_caught _ = false

abbrev pub is_rate_limited : Exception → Bool
is_rate_limited (rate_limited _) = true
is_rate_limited _ = false

-- `not fallback_model_id`, turned around: an id that is no empty text.
abbrev pub given : Option String → Option String
given none = none
given (some id) = if str_eq id "" then none else some id
