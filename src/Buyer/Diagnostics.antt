-- ===== src/Buyer/Diagnostics.antt =====
-- src/buyer-diagnostics.ts: the stage that a failed payment reached, and what is told of it. The
-- class of an error, the RPC method and the network in it, and the identifier of the diagnosis, are
-- not modelled.
use Prim.Native.String.{◌++◌}
use x402_worker_template.Prelude.{
  String, Bool, true, false, Option, none, some, str_eq, if◌then◌else◌,
}
use x402_worker_template.Js.{number, text}
use x402_worker_template.Client.Sanitize.{Thrown, plain, thrown, includes, take_units}
use x402_worker_template.Buyer.Redaction.{RedactionContext, sanitize_buyer_string}

pub data BuyerStage : Type 0 where
  load_environment validate_guards construct_account construct_x402_client : BuyerStage
  construct_wrapped_fetch initial_unpaid_request decode_payment_requirements : BuyerStage
  validate_payment_policy create_payment_payload encode_payment_header : BuyerStage
  submit_paid_request read_resource_response decode_settlement_response : BuyerStage
  emit_success_output : BuyerStage

pub data BuyerFailurePhase : Type 0 where
  before_account_construction before_signing during_local_signing : BuyerFailurePhase
  before_paid_submission during_paid_submission during_settlement_parsing : BuyerFailurePhase
  during_success_output : BuyerFailurePhase

unfoldable pub resolve_failure_phase : BuyerStage → BuyerFailurePhase
resolve_failure_phase load_environment = before_account_construction
resolve_failure_phase validate_guards = before_account_construction
resolve_failure_phase construct_account = before_signing
resolve_failure_phase construct_x402_client = before_signing
resolve_failure_phase construct_wrapped_fetch = before_signing
resolve_failure_phase initial_unpaid_request = before_signing
resolve_failure_phase decode_payment_requirements = before_signing
resolve_failure_phase validate_payment_policy = before_signing
resolve_failure_phase create_payment_payload = during_local_signing
resolve_failure_phase encode_payment_header = before_paid_submission
resolve_failure_phase submit_paid_request = during_paid_submission
resolve_failure_phase read_resource_response = during_settlement_parsing
resolve_failure_phase decode_settlement_response = during_settlement_parsing
resolve_failure_phase emit_success_output = during_success_output

-- The texts of an error and of its causes, joined. A cause that is falsy is an empty text.
collect_cause_messages : Thrown → String
collect_cause_messages (plain s) = if str_eq s "" then "" else " | " ++ s
collect_cause_messages (thrown message code status status_code cause) =
    " | " ++ message ++ collect_cause_messages cause

unfoldable pub extract_raw_message : Thrown → String
unfolding collect_cause_messages
extract_raw_message (plain s) = s
extract_raw_message (thrown message code status status_code cause) =
    message ++ collect_cause_messages cause

unfoldable pub infer_stage_from_error : Thrown → BuyerStage → BuyerStage
unfolding extract_raw_message includes
infer_stage_from_error t current =
    let message = extract_raw_message t in
    if includes "Failed to parse payment requirements" message
    then decode_payment_requirements
    else (if includes "Failed to create payment payload" message
        then create_payment_payload
        else (if includes "Payment already attempted" message
            then submit_paid_request
            else (if includes "payment-response present but could not be decoded" message
                then decode_settlement_response
                else current)))

unfoldable pub payment_bearing_request_likely_sent : BuyerStage → Bool
payment_bearing_request_likely_sent submit_paid_request = true
payment_bearing_request_likely_sent read_resource_response = true
payment_bearing_request_likely_sent decode_settlement_response = true
payment_bearing_request_likely_sent stage = false

extract_error_code : Thrown → Option String
extract_error_code (thrown message (text s) status status_code cause) = some s
extract_error_code (thrown message (number n) status status_code cause) = some n
extract_error_code t = none

-- A number, with its JSON text.
extract_http_status : Thrown → Option String
extract_http_status (thrown message code (number n) status_code cause) = some n
extract_http_status (thrown message code status (number n) cause) = some n
extract_http_status t = none

pub record SafeBuyerDiagnostic : Type 0 where
  stage : BuyerStage
  failure_phase : BuyerFailurePhase
  error_code : Option String
  message : String
  http_status : Option String
  pub likely_sent : Bool

unfoldable pub extract_buyer_error_diagnostic :
    Thrown → BuyerStage → RedactionContext → SafeBuyerDiagnostic
unfolding infer_stage_from_error extract_raw_message sanitize_buyer_string take_units
    resolve_failure_phase payment_bearing_request_likely_sent extract_error_code extract_http_status
extract_buyer_error_diagnostic t stage context =
    let inferred = infer_stage_from_error t stage in
    let message = take_units 240 (sanitize_buyer_string (extract_raw_message t) context) in
    record {
      stage = inferred;
      failure_phase = resolve_failure_phase inferred;
      error_code = extract_error_code t;
      message = if str_eq message "" then "Unknown buyer failure" else message;
      http_status = extract_http_status t;
      likely_sent = payment_bearing_request_likely_sent inferred;
    }
