-- ===== src/ModelRouter/Adapters.antt =====
-- The adapters as the router takes them, and the choice between them:
-- services/app/ai/model_router/adapters and factory.py.
use deep_foundry.Base.{ℕ, String, str_eq, Option, none, some, List, [], if◌then◌else◌}
use deep_foundry.Base.Dict.{Dict, lookup, get_or_default}
use deep_foundry.Json.{Json}
use deep_foundry.ModelRouter.{StreamChunk, Exception}
use deep_foundry.ModelRouter.Calls.{Adapter, Router}
use deep_foundry.ModelRouter.Cloud.{
  JsonText, Network, build_payload, generate_sync, cloud_capabilities, self_hosted_capabilities,
  estimate_cost,
}
use deep_foundry.ModelRouter.Streams.{Event, generate_chunks}

-- What goes over the network, by the address and the number of the requests before: the answer of a
-- post, and the events of a stream with the exception that ends it or none.
pub record Wire : Type 0 where
  pub post : String → ℕ → Json → Network
  pub post_stream : String → ℕ → Json → List Event × Option Exception

abbrev pub stream_of :
    JsonText → List Event × Option Exception → List StreamChunk × Option Exception
stream_of json (events, failure) = (generate_chunks json events [], failure)

-- `DeepSeekCloudAdapter`
unfoldable pub cloud_adapter : JsonText → Wire → Adapter
cloud_adapter json wire = record {
  deployment_mode = "deepseek_cloud";
  capabilities = cloud_capabilities;
  generate = λ n messages tools config.
      generate_sync config.model_id
        (wire.post "https://api.deepseek.com/v1" n (build_payload json messages tools config));
  generate_stream = λ n messages tools config.
      stream_of json (
        wire.post_stream "https://api.deepseek.com/v1" n
          (build_payload json messages tools config));
  estimate_cost = estimate_cost;
}

-- `DeepSeekSelfHostedAdapter`; the texts' `lower` and `rstrip("/")` are parameters.
unfoldable pub self_hosted_adapter :
    JsonText → Wire → (String → String) → (String → String) → String → Adapter
self_hosted_adapter json wire lower rstrip endpoint_url = record {
  deployment_mode = "deepseek_self_hosted";
  capabilities = self_hosted_capabilities lower;
  generate = λ n messages tools config.
      generate_sync config.model_id
        (wire.post (rstrip endpoint_url) n (build_payload json messages tools config));
  generate_stream = λ n messages tools config.
      stream_of json
        (wire.post_stream (rstrip endpoint_url) n (build_payload json messages tools config));
  estimate_cost = λ usage model_id. 0;
}

pub record Credential : Type 0 where
  pub endpoint_url : String
  pub api_key : String

-- How `build_model_router` ends: with a router, a `ValueError` or a `CredentialNotFoundError`.
pub data Built : Type 0 where
  built : Router → Built
  value_error credential_missing : Built

abbrev pub router_of : ℕ → Option ℕ → Adapter → Built
router_of workspace coworker adapter =
    Built.built (record { adapter = adapter; workspace_id = workspace; coworker_id = coworker })

abbrev pub key_of : Option Credential → String → String
key_of none shared = shared
key_of (some credential) shared =
    if str_eq credential.api_key "" then shared else credential.api_key

-- Without an endpoint there is no self-hosted router.
abbrev pub build_self_hosted : (String → Adapter) → ℕ → Option ℕ → Option Credential → Built
build_self_hosted adapter workspace coworker none = Built.value_error
build_self_hosted adapter workspace coworker (some credential) =
    if str_eq credential.endpoint_url ""
    then Built.value_error
    else router_of workspace coworker (adapter credential.endpoint_url)

-- `build_model_router`: the mode of the binding, the credentials of the workspace by mode, the key of
-- the server, and the two adapters.
unfoldable pub build_model_router :
    Adapter
    → (String → Adapter)
    → Dict String
    → (String → Option Credential)
    → String
    → ℕ
    → Option ℕ
    → Built
build_model_router cloud self_hosted binding credentials shared workspace coworker =
    let mode = get_or_default "deepseek_cloud" (lookup "deployment_mode" binding) in
    if str_eq mode "deepseek_self_hosted"
    then build_self_hosted self_hosted workspace coworker (credentials mode)
    else if str_eq (key_of (credentials mode) shared) ""
    then Built.credential_missing
    else router_of workspace coworker cloud
