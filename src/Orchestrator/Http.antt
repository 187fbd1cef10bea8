-- ===== src/Orchestrator/Http.antt =====
-- src/mainnet/idempotency/mainnet-payment-orchestrator.ts: the responses that a request can get.
use x402_worker_template.Prelude.{ℕ, String, false, List, [], ◌∷◌, ◌++◌}
use x402_worker_template.Js.{Value, boolean, text, object, Fields, end, field, Platform}
use x402_worker_template.Receipt.{SettleResponse}
use x402_worker_template.Replay.{FulfilledReplay}
use x402_worker_template.Sdk.{Sdk, PaymentRequired}

pub record Response : Type 0 where
  pub status : ℕ
  headers : List (String × String)
  pub body : String

abbrev pub mainnet_safe_response_headers : List (String × String)
mainnet_safe_response_headers =
    ("Cache-Control", "no-store")
    ∷ ("Referrer-Policy", "no-referrer")
    ∷ ("X-Content-Type-Options", "nosniff")
    ∷ []

json_response : Platform → Value → ℕ → List (String × String) → Response
json_response p body status headers = record {
  status = status;
  headers = ("Content-Type", "application/json") ∷ (mainnet_safe_response_headers ++ headers);
  body = p.stringify body;
}

-- `{ success: false, error: … }`.
abbrev failure_body : Fields → Value
failure_body error = object (field "success" (boolean false) (field "error" (object error) end))

abbrev coded : String → String → Fields → Fields
coded code message rest = field "code" (text code) (field "message" (text message) rest)

module _ (p : Platform) where
  pub coordinator_unavailable_response : Response
  unfolding json_response
  coordinator_unavailable_response =
      json_response p
        (failure_body
          (coded "COORDINATOR_UNAVAILABLE" "Payment coordination is temporarily unavailable." end))
        503 []

  pub payment_required_response : Sdk → PaymentRequired → Response
  unfolding json_response
  payment_required_response x required =
      json_response p required.json 402
        (("PAYMENT-REQUIRED", x.encode_payment_required_header required) ∷ [])

  pub in_progress_response : Response
  unfolding json_response
  in_progress_response =
      json_response p
        (failure_body (
          coded "PAYMENT_IN_PROGRESS"
            "Payment is being processed. Poll /pay/status with your saved payment identifier for updates."
            end))
        202 []

  pub uncertain_response : Response
  unfolding json_response
  uncertain_response =
      json_response p
        (failure_body (
          coded "PAYMENT_UNCERTAIN"
            "Payment outcome is uncertain. Poll /pay/status with your saved payment identifier for updates."
            (field "canRetry" (boolean false) end)))
        503 []

  pub conflict_response : String → Response
  unfolding json_response
  conflict_response reason =
      json_response p (failure_body (coded "PAYMENT_CONFLICT" reason end)) 409 []

  pub invalid_query_response : Response
  unfolding json_response
  invalid_query_response =
      json_response p
        (failure_body
          (coded "INVALID_QUERY" "Query must contain exactly one valid value parameter." end))
        400 []

  pub method_not_allowed_response : Response
  unfolding json_response
  method_not_allowed_response =
      json_response p (failure_body (field "code" (text "METHOD_NOT_ALLOWED") end)) 405 []

  pub policy_error_response : String → Response
  unfolding json_response
  policy_error_response reason =
      json_response p (failure_body (coded "POLICY_ERROR" reason end)) 500 []

  -- The paid answer, with the encoded settlement in its header.
  pub paid_response : Sdk → Value → SettleResponse → Response
  unfolding json_response
  paid_response x body settled =
      json_response p body 200 (("PAYMENT-RESPONSE", x.encode_payment_response_header settled) ∷ [])

-- `fulfilledReplayToHttpResponse` of replay-response.ts.
pub fulfilled_replay_to_http_response : FulfilledReplay → Response
fulfilled_replay_to_http_response r = record {
  status = 200;
  headers =
      ("Content-Type", r.content_type)
      ∷ ("PAYMENT-RESPONSE", r.payment_response_header)
      ∷ mainnet_safe_response_headers;
  body = r.body;
}
