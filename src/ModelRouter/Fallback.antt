-- ===== src/ModelRouter/Fallback.antt =====
-- What the adapter is asked: the primary model, and once the fallback
-- (services/app/ai/model_router/router.py).
use deep_foundry.Base.{
  String, Bool, true, false, not, Option, none, some, List, [], ◌∷◌, ◌++◌, ◌≡◌, refl, suc, length,
  Bool-cases, inl, inr,
}
use deep_foundry.ModelRouter.{
  ChatMessage, ToolDefinition, ModelConfig, Response, Exception, Outcome, returned, raises,
  is_caught, given,
}
use deep_foundry.ModelRouter.Calls.{
  Router, Meter, Ledger, log, log_failure, negotiate, call_sync, record_attempt, attempt,
  with_model, with_stream, after_primary, generate_able, generate, is_empty,
}

-- Whether an end of the primary call has the fallback tried.
abbrev pub is_retried : Option String → Outcome Response → Bool
is_retried fallback (returned response) = false
is_retried none (raises error) = false
is_retried (some model_id) (raises error) = is_caught error

-- The requests that a call of `generate` makes of the adapter, newest first, and its end.
pub data Asked (router : Router) (messages : List ChatMessage) (tools : List ToolDefinition)
    (config : ModelConfig) (fallback : Option String) (ledger : Ledger)
    : List ModelConfig → Outcome Response → Type 0 where
  refused :
      (error : Exception)
      → negotiate router (not (is_empty tools)) config ≡ some error
      → Asked router messages tools config fallback ledger [] (raises error)
  once :
      (end : Outcome Response)
      → negotiate router (not (is_empty tools)) config ≡ none
      → call_sync router messages tools config ledger ≡ end
      → is_retried fallback end ≡ false
      → Asked router messages tools config fallback ledger (config ∷ []) end
  twice :
      (error : Exception) (model_id : String) (end : Outcome Response)
      → negotiate router (not (is_empty tools)) config ≡ none
      → call_sync router messages tools config ledger ≡ raises error
      → is_caught error ≡ true
      → fallback ≡ some model_id
      → router.adapter.generate
          (suc (length ledger.requests))
          messages
          tools
          (with_model model_id config)
        ≡ end
      → Asked router messages tools config fallback ledger
          (with_model model_id config ∷ config ∷ [])
          end

module _ (router : Router) (meter : Meter) (messages : List ChatMessage)
    (tools : List ToolDefinition) (ledger : Ledger) where
  record_attempt-requests :
      (config : ModelConfig) (again : Bool) (before : Ledger) (end : Outcome Response)
      → (record_attempt router meter (not (is_empty tools)) config again before end).requests
        ≡ config ∷ before.requests
  unfolding log log_failure
  record_attempt-requests config again before (returned response) = refl
  record_attempt-requests config again before (raises error) = elim (Bool-cases (is_caught error)) [
    | inl e ↦ rw e refl
    | inr e ↦ rw e refl
  ]

  abbrev Ends : ModelConfig → Option String → Ledger × Outcome Response → Type 0
  Ends config fallback end =
      (asked : List ModelConfig) × (end.0.requests ≡ asked ++ ledger.requests)
      × Asked router messages tools config fallback ledger asked end.1

  abbrev attempted : ModelConfig → Outcome Response → Ledger
  attempted config end = record_attempt router meter (not (is_empty tools)) config false ledger end

  after_primary-Asked :
      (config : ModelConfig) (fallback : Option String) (end : Outcome Response)
      → negotiate router (not (is_empty tools)) config ≡ none
      → call_sync router messages tools config ledger ≡ end
      → Ends config fallback
          (after_primary router meter messages tools config fallback (attempted config end, end))
  unfolding attempt call_sync log_failure log
  after_primary-Asked config fallback (returned response) able same =
      (config ∷ [], refl, Asked.once (returned response) able same refl)
  after_primary-Asked config none (raises error) able same = (
    config ∷ [],
    record_attempt-requests config false ledger (raises error),
    Asked.once (raises error) able same refl,
  )
  after_primary-Asked config (some model_id) (raises error) able same =
      elim (Bool-cases (is_caught error)) [
        | inl e ↦ rw e (
          with_model model_id config ∷ config ∷ [],
          record_attempt-requests (with_model model_id config) true _ _,
          Asked.twice error model_id _ able same e refl refl,
        )
        | inr e ↦ rw e (config ∷ [], refl, Asked.once (raises error) able same e)
      ]

  generate_able-Asked :
      (config : ModelConfig) (fallback : Option String) (refusal : Option Exception)
      → negotiate router (not (is_empty tools)) config ≡ refusal
      → Ends config
          (given fallback)
          (generate_able router meter messages tools config fallback ledger refusal)
  unfolding attempt
  generate_able-Asked config fallback (some error) able = ([], refl, Asked.refused error able)
  generate_able-Asked config fallback none able =
      after_primary-Asked config (given fallback) (call_sync router messages tools config ledger)
        able refl

  -- A call of `generate` asks the adapter nothing and raises what the negotiation raises; or it asks
  -- for the primary model once and ends as that call does; or, exactly if that call fails with an
  -- error of the adapter and a fallback is named, it asks for the fallback once and ends as that call
  -- does. No request asks for a stream.
  pub generate-Asked :
      (config : ModelConfig) (fallback : Option String)
      → let end = generate router meter messages tools config fallback ledger in
        (asked : List ModelConfig) × (end.0.requests ≡ asked ++ ledger.requests)
        × Asked router messages tools (with_stream false config) (given fallback) ledger asked end.1
  unfolding generate
  generate-Asked config fallback = generate_able-Asked (with_stream false config) fallback _ refl
