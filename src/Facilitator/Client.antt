-- ===== src/Facilitator/Client.antt =====
-- src/mainnet/proof-facilitator-client.mainnet.ts: the adapter's three operations. Each one gives
-- the requests that it sends, and what becomes of it.
pub mod Laws
pub mod Tests
use x402_worker_template.Prelude.{
  ℕ, String, Bool, not, Option, none, some, List, [], nat_eq, length, if◌then◌else◌,
}
use x402_worker_template.Js.{Value, null, Fields, has_key, as_object}
use x402_worker_template.Authorization.{PaymentPayload}
use x402_worker_template.Policy.{PaymentRequirements}
use x402_worker_template.Facilitator.Errors.{
  http_status, invalid_json, Thrown, adapter, unknown, Result, ok, threw, error,
  to_safe_facilitator_transport_error,
}
use x402_worker_template.Facilitator.Responses.{
  VerifyResponse, SettleResponse, parse_verify_response_json, parse_settle_response_json,
}
use x402_worker_template.Facilitator.Responses.Supported.{
  SupportedResponse, parse_supported_response_json,
}
use x402_worker_template.Facilitator.Http.{
  Operation, supported, verify, settle, Platform, Request, Response, Fetch, is_ok,
  execute_proof_facilitator_request, read_facilitator_json,
}
use x402_worker_template.Facilitator.Http.Body.{ResponseBody, read_bounded_response_body}

-- A response, or what is thrown: an error of the adapter or of the platform, or a `VerifyError` or
-- `SettleError` of the x402 packages with the status and the body.
pub data Outcome {ℓ} (A : Type ℓ) : Type ℓ where
  answered : A → Outcome A
  failed : Thrown → Outcome A
  refused : ℕ → Value → Outcome A

abbrev request_failed {ℓ} : {A : Type ℓ} → String → Outcome A
request_failed message = failed (adapter (error message http_status))

-- `readValidatedFacilitatorJsonResponse`, with the operation's parser.
abbrev outcome_of {ℓ} : {A : Type ℓ} → Result A → Outcome A
outcome_of (ok a) = answered a
outcome_of (threw t) = failed t

abbrev parsed_with {ℓ} : {A : Type ℓ} → (Value → Result A) → Result Value → Outcome A
parsed_with parse (threw t) = failed t
parsed_with parse (ok v) = outcome_of (parse v)

-- What is left of a body that is read for an error: nothing, a value, or an error that is thrown.
abbrev parsed_error : Option Value → Result Value
parsed_error none = threw (adapter (to_safe_facilitator_transport_error unknown invalid_json))
parsed_error (some v) = ok v

abbrev error_body : Platform → Result (List ℕ) → Result Value
error_body p (threw (adapter e)) = ok null
error_body p (threw t) = threw (adapter (to_safe_facilitator_transport_error t invalid_json))
error_body p (ok bytes) =
    if nat_eq (length bytes) 0 then ok null else parsed_error (p.parse_bytes bytes)

try_parse_error_body : Platform → ResponseBody → Result Value
unfolding read_bounded_response_body to_safe_facilitator_transport_error length
try_parse_error_body p b = error_body p (read_bounded_response_body p.limits b)

-- `key in parsed` of an object decides between the two errors.
abbrev refused_if {ℓ} : {A : Type ℓ} → String → String → ℕ → Value → Option Fields → Outcome A
refused_if key message status v none = request_failed message
refused_if key message status v (some fs) =
    if has_key key fs then refused status v else request_failed message

abbrev failure_of {ℓ} : {A : Type ℓ} → String → String → ℕ → Result Value → Outcome A
failure_of key message status (threw t) = failed t
failure_of key message status (ok v) = refused_if key message status v (as_object v)

abbrev supported_response : Platform → Result Response → Outcome SupportedResponse
supported_response p (threw t) = failed t
supported_response p (ok r) =
    if not (is_ok r.status)
    then request_failed "Facilitator supported request failed."
    else parsed_with parse_supported_response_json (read_facilitator_json p r)

-- What `verify` and `settle` make of a response: its parser, and for an error the property that it
-- must have and the message where it has not.
abbrev response_with {ℓ} :
    {A : Type ℓ} → (Value → Result A) → String → String → Platform → Result Response → Outcome A
response_with parse key message p (threw t) = failed t
response_with parse key message p (ok r) =
    if is_ok r.status
    then parsed_with parse (read_facilitator_json p r)
    else failure_of key message r.status (try_parse_error_body p r.content)

module _ (p : Platform) (fetch : Fetch) where
  unfoldable pub get_supported : List Request × Outcome SupportedResponse
  unfolding execute_proof_facilitator_request read_facilitator_json parse_supported_response_json
  get_supported =
      let out = execute_proof_facilitator_request p fetch supported none none in
      (out.0, supported_response p out.1)

  unfoldable pub verify_payment :
      PaymentPayload → PaymentRequirements → List Request × Outcome VerifyResponse
  unfolding execute_proof_facilitator_request read_facilitator_json parse_verify_response_json
      try_parse_error_body
  verify_payment payload requirements =
      let out =
        execute_proof_facilitator_request p fetch verify (some payload) (some requirements) in
      (
        out.0,
        response_with parse_verify_response_json "isValid" "Facilitator verify request failed." p
            out.1,
      )

  unfoldable pub settle_payment :
      PaymentPayload → PaymentRequirements → List Request × Outcome SettleResponse
  unfolding execute_proof_facilitator_request read_facilitator_json parse_settle_response_json
      try_parse_error_body
  settle_payment payload requirements =
      let out =
        execute_proof_facilitator_request p fetch settle (some payload) (some requirements) in
      (
        out.0,
        response_with parse_settle_response_json "success" "Facilitator settle request failed." p
            out.1,
      )
