-- ===== src/Facilitator/Responses/Tests.antt =====
-- parseSettleResponseJson on a failed settlement without a payer.
use x402_worker_template.Prelude.{false, none, some, ◌≡◌, ◌↔◌}
use x402_worker_template.Js.{Value, null, boolean, text, object, Fields, end, field}
use x402_worker_template.Facilitator.Errors.{ok}
use x402_worker_template.Facilitator.Responses.{SettleResponse, parse_settle_response_json}
use x402_worker_template.Facilitator.Responses.Laws.{
  IsSettlement, parse_settle_response_json-IsSettlement,
}

abbrev pub failed_settlement : Value
failed_settlement = object (
    field "success" (boolean false) (
      field "errorReason" (text "expired") (
        field "payer" null
          (field "transaction" (text "") (field "network" (text "eip155:8453") end)))))

abbrev pub failed_response : SettleResponse
failed_response = record {
  success = false;
  error_reason = some "expired";
  error_message = none;
  payer = none;
  transaction = "";
  network = "eip155:8453";
  amount = none;
  extensions = none;
  extra = none;
}

parse_settle_response_json-IsSettlement_example :
    (parse_settle_response_json failed_settlement ≡ ok failed_response)
    ↔ ((fs : Fields) × (failed_settlement ≡ object fs) × IsSettlement fs failed_response)
parse_settle_response_json-IsSettlement_example =
    parse_settle_response_json-IsSettlement failed_settlement failed_response
