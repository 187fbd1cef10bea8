-- ===== src/Replay.antt =====
-- src/mainnet/idempotency/replay-response.ts: the answer to a repeated request whose payment is
-- fulfilled. `encodePaymentResponseHeader` of @x402/core is a parameter.
use x402_worker_template.Prelude.{
  String, not, Option, none, some, is_some, opt_eq, str_eq, if◌then◌else◌,
}
use x402_worker_template.Js.{Platform}
use x402_worker_template.Receipt.{
  ReceiptResult, SettleResponse, parse_stored_settlement_receipt, stored_receipt_to_settle_response,
}

pub record FulfilledReplay : Type 0 where
  pub body : String
  pub content_type : String
  pub payment_response_header : String

pub data FulfilledReplayResult : Type 0 where
  ok : FulfilledReplay → FulfilledReplayResult
  bad : String → FulfilledReplayResult

module _ (p : Platform) (encode : SettleResponse → String) where
  unfoldable pub replay_of : String → String → ReceiptResult → FulfilledReplayResult
  replay_of body content_type (ReceiptResult.bad reason) = bad reason
  replay_of body content_type (ReceiptResult.ok receipt) =
      if not (is_some (p.parse body))
      then bad "Cached response body is not valid JSON."
      else ok (record {
        body = body;
        content_type = content_type;
        payment_response_header = encode (stored_receipt_to_settle_response receipt);
      })

  unfoldable pub build_fulfilled_replay_response :
      Option String → Option String → Option String → FulfilledReplayResult
  unfolding replay_of
  build_fulfilled_replay_response none content_type receipt = bad "Cached response body is missing."
  build_fulfilled_replay_response (some body) content_type receipt =
      if str_eq body ""
      then bad "Cached response body is missing."
      else (if not (opt_eq content_type "application/json")
          then bad "Cached response content type is invalid."
          else replay_of body "application/json" (parse_stored_settlement_receipt p receipt))
