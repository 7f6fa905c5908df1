-- ===== src/ModelRouter/Logged.antt =====
-- The rows that the calls of the router leave (services/app/ai/model_router/router.py).
use deep_foundry.Base.{
  ℕ, String, Bool, true, false, not, Option, none, some, List, [], ◌∷◌, ◌≡◌, refl, Bool-cases, inl,
  inr, length,
}
use deep_foundry.ModelRouter.{
  ChatMessage, ToolDefinition, ModelConfig, Usage, Response, StreamChunk, Exception, Outcome,
  returned, raises, is_caught, given,
}
use deep_foundry.ModelRouter.Calls.{
  Router, Meter, CallStatus, ModelCall, Ledger, input_of, output_of, cost_of, failure_status, log,
  log_failure, record_attempt, attempt, with_model, with_stream, after_primary, generate_able,
  generate, last_usage, end_stream, stream_able, generate_stream, is_empty, sent,
}

-- Every request has its row, in the same order, with its model and its way of answering.
abbrev pub IsLogged : List ModelConfig → List ModelCall → Type 0
IsLogged [] [] = Unit
IsLogged (config ∷ configs) (row ∷ rows) =
    (row.model_id ≡ config.model_id) × (row.streaming ≡ config.stream) × IsLogged configs rows
IsLogged _ _ = ⊥

-- What a row tells of the call that ended so.
abbrev pub Tells : Router → Option Exception → Option Usage → ModelCall → Type 0
Tells router none usage row =
    (row.status ≡ CallStatus.success)
    × (row.input_tokens ≡ input_of usage)
    × (row.output_tokens ≡ output_of usage)
    × (row.cost ≡ cost_of router row.model_id usage)
Tells router (some error) usage row = (row.status ≡ failure_status error) × (row.cost ≡ none)

-- How a call accounts for itself: nothing was sent; or each request has its row, and the newest one
-- tells of the end; or an exception that the router does not catch leaves its request without a row.
pub data Accounted (router : Router) (before : Ledger)
    : Ledger → Option Exception → Option Usage → Type 0 where
  unsent : {error : Exception} → Accounted router before before (some error) none
  recorded :
      {after : Ledger} {failure : Option Exception} {usage : Option Usage} (row : ModelCall)
      (rest : List ModelCall)
      → after.rows ≡ row ∷ rest
      → Tells router failure usage row
      → IsLogged after.requests after.rows
      → Accounted router before after failure usage
  escaped :
      {after : Ledger} {error : Exception}
      → is_caught error ≡ false
      → Accounted router before after (some error) none

abbrev pub failure_of : Outcome Response → Option Exception
failure_of (returned response) = none
failure_of (raises error) = some error

abbrev pub usage_of : Outcome Response → Option Usage
usage_of (returned response) = response.usage
usage_of (raises error) = none

module _ (router : Router) (meter : Meter) where
  log_failure-IsLogged :
      (config : ModelConfig) (tools : Bool) (error : Exception) (again : Bool) (ledger : Ledger)
      → IsLogged ledger.requests ledger.rows
      → IsLogged
          (log_failure router meter.request_id config tools error again
            (sent config ledger)).requests
          (log_failure router meter.request_id config tools error again (sent config ledger)).rows
  unfolding log_failure
  log_failure-IsLogged config tools error again ledger h = (refl, refl, h)

  record_attempt-IsLogged :
      (config : ModelConfig) (tools again : Bool) (ledger : Ledger) (error : Exception)
      → is_caught error ≡ true
      → IsLogged ledger.requests ledger.rows
      → IsLogged
          (record_attempt router meter tools config again ledger (raises error)).requests
          (record_attempt router meter tools config again ledger (raises error)).rows
  record_attempt-IsLogged config tools again ledger error e h =
      rw e (log_failure-IsLogged config tools error again ledger h)

  module _ (origin : Ledger) where
    log-Accounted :
        (config : ModelConfig) (tools : Bool) (latency : ℕ) (usage : Option Usage) (again : Bool)
        (ledger : Ledger)
        → IsLogged ledger.requests ledger.rows
        → Accounted router origin
            (log router meter.request_id config tools latency CallStatus.success usage again
              (sent config ledger))
            none
            usage
    unfolding log
    log-Accounted config tools latency usage again ledger h =
        Accounted.recorded _ _ refl (refl, refl, refl, refl) (refl, refl, h)

    log_failure-Accounted :
        (config : ModelConfig) (tools : Bool) (error : Exception) (again : Bool) (ledger : Ledger)
        → IsLogged ledger.requests ledger.rows
        → Accounted router origin
            (log_failure router meter.request_id config tools error again (sent config ledger))
            (some error)
            none
    unfolding log_failure
    log_failure-Accounted config tools error again ledger h =
        Accounted.recorded _ _ refl (refl, refl) (refl, refl, h)

    record_attempt-Accounted :
        (config : ModelConfig) (tools again : Bool) (ledger : Ledger) (response : Outcome Response)
        → IsLogged ledger.requests ledger.rows
        → Accounted router origin
            (record_attempt router meter tools config again ledger response)
            (failure_of response)
            (usage_of response)
    record_attempt-Accounted config tools again ledger (returned response) h =
        log-Accounted config tools _ response.usage again ledger h
    record_attempt-Accounted config tools again ledger (raises error) h =
        elim (Bool-cases (is_caught error)) [
          | inl e ↦ rw e (log_failure-Accounted config tools error again ledger h)
          | inr e ↦ rw e (Accounted.escaped e)
        ]

    end_stream-Accounted :
        (config : ModelConfig) (tools : Bool) (ledger : Ledger) (chunks : List StreamChunk)
        (failure : Option Exception)
        → IsLogged ledger.requests ledger.rows
        → Accounted router origin
            (end_stream router meter tools config ledger chunks failure)
            failure
            (elim failure [ none ↦ last_usage none chunks | some _ ↦ none ])
    end_stream-Accounted config tools ledger chunks none h =
        log-Accounted config tools _ _ false ledger h
    end_stream-Accounted config tools ledger chunks (some error) h =
        elim (Bool-cases (is_caught error)) [
          | inl e ↦ rw e (log_failure-Accounted config tools error false ledger h)
          | inr e ↦ rw e (Accounted.escaped e)
        ]

  module _ (messages : List ChatMessage) (tools : List ToolDefinition) where
    after_primary-Accounted :
        (config : ModelConfig) (fallback : Option String) (ledger : Ledger)
        (response : Outcome Response)
        → IsLogged ledger.requests ledger.rows
        → let end = after_primary router meter messages tools config fallback (
          record_attempt router meter (not (is_empty tools)) config false ledger response,
          response,
        ) in
          Accounted router ledger end.0 (failure_of end.1) (usage_of end.1)
    unfolding attempt
    after_primary-Accounted config fallback ledger (returned response) h =
        record_attempt-Accounted ledger config _ false ledger (returned response) h
    after_primary-Accounted config none ledger (raises error) h =
        record_attempt-Accounted ledger config _ false ledger (raises error) h
    after_primary-Accounted config (some model_id) ledger (raises error) h =
        elim (Bool-cases (is_caught error)) [
          | inl e ↦
              let logged =
                record_attempt-IsLogged config (not (is_empty tools)) false ledger error e h in
              rw e (
                record_attempt-Accounted ledger (with_model model_id config) _ true _ _
                  (rw e at logged))
          | inr e ↦ rw e (Accounted.escaped e)
        ]

    generate_able-Accounted :
        (config : ModelConfig) (fallback : Option String) (ledger : Ledger)
        (refusal : Option Exception)
        → IsLogged ledger.requests ledger.rows
        → let end = generate_able router meter messages tools config fallback ledger refusal in
          Accounted router ledger end.0 (failure_of end.1) (usage_of end.1)
    unfolding attempt
    generate_able-Accounted config fallback ledger (some error) h = Accounted.unsent
    generate_able-Accounted config fallback ledger none h =
        after_primary-Accounted config (given fallback) ledger _ h

    stream_able-Accounted :
        (config : ModelConfig) (ledger : Ledger) (refusal : Option Exception)
        → IsLogged ledger.requests ledger.rows
        → let end = stream_able router meter messages tools config ledger refusal in
          Accounted router ledger end.0 end.2
            (elim end.2 [ none ↦ last_usage none end.1 | some _ ↦ none ])
    stream_able-Accounted config ledger (some error) h = Accounted.unsent
    stream_able-Accounted config ledger none h =
        let (chunks, failure) =
          router.adapter.generate_stream (length ledger.requests) messages tools config in
        end_stream-Accounted ledger config _ ledger chunks failure h

    -- If every request of the ledger has its row, then a call of `generate` either raises with the
    -- ledger as it was, or ends with a row for each request, whose newest one has the status, the
    -- tokens and the cost of the call's end, or raises an exception that the router does not catch.
    pub generate-Accounted :
        (config : ModelConfig) (fallback : Option String) (ledger : Ledger)
        → IsLogged ledger.requests ledger.rows
        → let end = generate router meter messages tools config fallback ledger in
          Accounted router ledger end.0 (failure_of end.1) (usage_of end.1)
    unfolding generate
    generate-Accounted config fallback ledger h =
        generate_able-Accounted (with_stream false config) fallback ledger _ h

    -- The same of a stream that is read to its end: the newest row has the usage of the last chunk
    -- that carries one.
    pub generate_stream-Accounted :
        (config : ModelConfig) (ledger : Ledger)
        → IsLogged ledger.requests ledger.rows
        → let end = generate_stream router meter messages tools config ledger in
          Accounted router ledger end.0 end.2
            (elim end.2 [ none ↦ last_usage none end.1 | some _ ↦ none ])
    unfolding generate_stream
    generate_stream-Accounted config ledger h =
        stream_able-Accounted (with_stream true config) ledger _ h
