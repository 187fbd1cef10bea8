-- ===== src/Testnet/Executor.antt =====
-- src/browser/pay-executor.ts: one payment of a quote, signed and submitted once.
pub mod Laws
pub mod Tests
use Prim.Native.String.{◌++◌}
use x402_worker_template.Prelude.{
  ℕ, String, Bool, true, false, ◌||◌, Option, none, some, List, [], ◌∷◌, leb, ltb, if◌then◌else◌,
}
use x402_worker_template.Js.{Value, null, undefined, Fields}
use x402_worker_template.Js.Text.{decimal}
use x402_worker_template.Authorization.{PaymentPayload}
use x402_worker_template.Sdk.{PaymentRequired}
use x402_worker_template.Client.Sanitize.{
  Thrown, thrown, plain, SafeBrowserError, classify_browser_error,
}
use x402_worker_template.Client.Web.{Headers}
use x402_worker_template.Client.Executor.{PaidRequest}
use x402_worker_template.Testnet.Config.{PayPublicConfig}
use x402_worker_template.Testnet.Settlement.{
  SafeSettlementView, SettlementCheck, validate_settlement_metadata, attach_paid_result,
}
use x402_worker_template.Testnet.Quote.{
  PaymentQuote, Readiness, ready, not_ready, assert_quote_ready_for_signing, mark_quote_consumed,
}

-- What becomes of the paid request: the fetch throws, it answers with a redirect that is hidden, or
-- with a status, a body that may not be JSON, and headers.
pub data Response : Type 0 where
  lost : Thrown → Response
  opaque_redirect : Response
  delivered : ℕ → Option Value → Headers → Response

-- Signing: the client throws, or has a payload.
pub data Signed : Type 0 where
  refused : Thrown → Signed
  signed : PaymentPayload → Signed

-- The result of a paid request: thrown, or whether the client recovered by itself, and the
-- settlement response if there is one.
pub data Processed : Type 0 where
  failed : Thrown → Processed
  processed : Bool → Option Fields → Processed

-- The clients of the x402 packages, with the wallet and the network behind them.
pub record Wallet : Type 0 where
  pub create_payment_payload : PaymentRequired → Signed
  pub encode_payment_signature_header : PaymentPayload → String
  pub fetch : PaidRequest → Response
  pub process_payment_result : PaymentPayload → Headers → ℕ → Processed

pub data PaymentStatus : Type 0 where
  rejected_by_user failure potentially_submitted : PaymentStatus

-- The counts of a result: payment-bearing requests, then requests for a signature.
pub data PaymentExecutionResult : Type 0 where
  succeeded : Value → SafeSettlementView → ℕ → ℕ → PaymentExecutionResult
  stopped : PaymentStatus → String → SafeBrowserError → ℕ → ℕ → Bool → PaymentExecutionResult

-- An `Error` with a message and nothing else.
abbrev error_of : String → Thrown
error_of message = thrown message undefined undefined undefined (plain "")

abbrev failure_result : String → PaymentStatus → ℕ → ℕ → Bool → String → PaymentExecutionResult
failure_result reason status signatures requests started stage =
    stopped status reason (classify_browser_error (error_of reason) stage started) requests
      signatures started

abbrev body_or_null : Option Value → Value
body_or_null none = null
body_or_null (some v) = v

abbrev settled : Value → SettlementCheck → PaymentExecutionResult
settled body (SettlementCheck.bad reason) =
    failure_result reason failure 1 1 true "waiting-for-settlement"
settled body (SettlementCheck.ok view) = succeeded body (attach_paid_result view body) 1 1

after_processing : Value → Processed → PaymentExecutionResult
unfolding validate_settlement_metadata classify_browser_error
after_processing body (failed error) =
    stopped potentially_submitted
      "Payment may have been submitted, but settlement metadata could not be validated."
      (classify_browser_error error "waiting-for-settlement" true) 1 1 true
after_processing body (processed true settlement) =
    failure_result "Automatic payment recovery is disabled in the browser flow."
      potentially_submitted 1 1 true "waiting-for-settlement"
after_processing body (processed false settlement) =
    settled body (validate_settlement_metadata settlement)

module _ (w : Wallet) where
  after_response : PaymentPayload → Response → PaymentExecutionResult
  unfolding after_processing classify_browser_error decimal
  after_response payload (lost error) =
      stopped potentially_submitted
        "Payment submission may have started, but the browser could not confirm the result. Do not retry automatically."
        (classify_browser_error error "submitting-payment" true) 1 1 true
  after_response payload opaque_redirect =
      failure_result "Redirect responses are not allowed for payment submission."
        potentially_submitted 1 1 true "waiting-for-settlement"
  after_response payload (delivered status body headers) =
      if ltb status 200 || leb 300 status
      then failure_result ("Payment request returned HTTP " ++ decimal status ++ ".")
          potentially_submitted 1 1 true "waiting-for-settlement"
      else after_processing (body_or_null body) (w.process_payment_result payload headers status)

  abbrev request_of : String → PaymentPayload → PaidRequest
  request_of url payload = record {
    url = url;
    payment_signature = w.encode_payment_signature_header payload;
  }

  after_signing : PaymentQuote → Signed → List PaidRequest × PaymentExecutionResult
  unfolding after_response classify_browser_error
  after_signing q (refused error) =
      let classified = classify_browser_error error "awaiting-wallet-signature" false in
      let status = if classified.user_rejected then rejected_by_user else failure in
      ([], stopped status classified.message classified 0 1 false)
  after_signing q (signed payload) =
      let r = request_of q.request_url payload in (r ∷ [], after_response payload (w.fetch r))

  abbrev after_preflight : PaymentQuote → Readiness → List PaidRequest × PaymentExecutionResult
  after_preflight q (not_ready reason) =
      ([], failure_result reason failure 0 0 false "awaiting-wallet-signature")
  after_preflight q ready =
      let used = mark_quote_consumed q in
      after_signing used (w.create_payment_payload used.payment_required)

  -- The requests that bear a payment and were sent, and the result.
  unfoldable pub execute_bound_payment :
      PaymentQuote → String → ℕ → PayPublicConfig → List PaidRequest × PaymentExecutionResult
  unfolding after_signing assert_quote_ready_for_signing
  execute_bound_payment q account chain_id config =
      after_preflight q (assert_quote_ready_for_signing q account chain_id config)
