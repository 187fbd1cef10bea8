-- ===== src/Client/Executor.antt =====
-- src/mainnet/browser/mainnet-payment-executor.ts: one payment, signed and submitted once. The
-- wiping of the payload at the end changes an object that nothing holds any more.
pub mod Laws
pub mod Tests
use Prim.Native.String.{◌++◌}
use x402_worker_template.Prelude.{
  ℕ, ◌+◌, String, Bool, true, false, not, ◌&&◌, ◌||◌, Option, none, some, List, [], ◌∷◌, leb, ltb,
  str_eq, if◌then◌else◌,
}
use x402_worker_template.Js.{
  Value, undefined, null, text, array, object, instance_of, Fields, end, field,
}
use x402_worker_template.Js.Text.{decimal}
use x402_worker_template.Policy.{create_mainnet_payment_policy, select_mainnet_payment_requirement}
use x402_worker_template.Authorization.{PaymentPayload}
use x402_worker_template.Sdk.{PaymentRequired}
use x402_worker_template.Client.Sanitize.{classify_browser_error}
use x402_worker_template.Client.Web.{
  Web, Headers, Delivery, lost, delivered, Signing, refused, signed,
}
use x402_worker_template.Client.Settlement.{
  MainnetSafeSettlementView, SettlementCheck, validate_mainnet_settlement_metadata,
  attach_mainnet_paid_result,
}
use x402_worker_template.Client.Terms.{MainnetValidatedTerms}

pub data SubmissionMode : Type 0 where
  normal response_loss : SubmissionMode

pub data FailureStatus : Type 0 where
  failure potentially_submitted : FailureStatus

-- The fields that every result has. A success has the status "success".
pub record Counts : Type 0 where
  pub payment_identifier : String
  pub signing_count : ℕ
  pub payment_bearing_request_count : ℕ

pub data MainnetPaymentExecutionResult : Type 0 where
  succeeded : Value → MainnetSafeSettlementView → Counts → MainnetPaymentExecutionResult
  failed : FailureStatus → String → Bool → Counts → MainnetPaymentExecutionResult

-- The calls of the signer that signing makes.
abbrev pub signing_calls : Signing → ℕ
signing_calls (refused error calls) = calls
signing_calls (signed payload calls) = calls

abbrev pub counts_of : MainnetPaymentExecutionResult → Counts
counts_of (succeeded body view c) = c
counts_of (failed status reason started c) = c

-- A request that bears a payment: its URL and the encoded payload.
pub record PaidRequest : Type 0 where
  pub url : String
  pub payment_signature : String

-- `{...object, [key]: value}`.
put : String → Value → Fields → Fields
put key v end = field key v end
put key v (field k w fs) =
    let rest = put key v fs in if str_eq k key then field k v fs else field k w rest

abbrev put_in : String → Value → Value → Value
put_in key v (object fs) = object (put key v fs)
put_in key v (instance_of fs) = object (put key v fs)
put_in key v w = object (field key v end)

-- `{...(extensions ?? {})}`.
abbrev or_empty : Value → Value
or_empty undefined = object end
or_empty null = object end
or_empty v = v

module _ (web : Web) where
  append_payment_identifier_to_payment_required : PaymentRequired → String → PaymentRequired
  unfolding put
  append_payment_identifier_to_payment_required required id =
      let extensions = web.append_payment_identifier (or_empty required.extensions) id in
      record required {
        extensions = extensions;
        json = put_in "extensions" extensions required.json;
      }

  -- In the simulated loss the response is thrown away.
  abbrev submit_paid_request : (PaidRequest → Delivery) → PaidRequest → SubmissionMode → Delivery
  submit_paid_request fetch r normal = fetch r
  submit_paid_request fetch r response_loss = lost

  abbrev counts : String → ℕ → ℕ → Counts
  counts id signings requests = record {
    payment_identifier = id;
    signing_count = signings;
    payment_bearing_request_count = requests;
  }

  abbrev body_or_null : Option Value → Value
  body_or_null none = null
  body_or_null (some v) = v

  settled : Value → String → ℕ → Option (Option Fields) → MainnetPaymentExecutionResult
  unfolding validate_mainnet_settlement_metadata
  settled body id signings none =
      failed potentially_submitted
        "Payment may have been submitted, but settlement metadata could not be validated." true
        (counts id signings 1)
  settled body id signings (some response) = elim (validate_mainnet_settlement_metadata response) [
    | SettlementCheck.bad reason ↦ failed failure reason true (counts id signings 1)
    | SettlementCheck.ok view ↦
        succeeded body (attach_mainnet_paid_result view body) (counts id 1 1)
  ]

  -- What came back for the one request.
  received : PaymentPayload → String → ℕ → Delivery → MainnetPaymentExecutionResult
  unfolding settled decimal
  received payload id signings lost =
      failed potentially_submitted
        "Payment submission may have started, but the browser could not confirm the result. Do not retry automatically."
        true (counts id signings 1)
  received payload id signings (delivered status body headers) =
      if ltb status 200 || leb 300 status
      then failed potentially_submitted ("Payment request returned HTTP " ++ decimal status ++ ".")
          true (counts id signings 1)
      else settled (body_or_null body) id signings
          (web.process_payment_result payload headers status)

  -- The requests that were sent, and the result. `before` counts the calls of the signer so far.
  submit :
      String
      → SubmissionMode
      → (PaidRequest → Delivery)
      → String
      → ℕ
      → Signing
      → List PaidRequest × MainnetPaymentExecutionResult
  unfolding received classify_browser_error
  submit url mode fetch id before (refused error calls) = (
    [],
    failed failure (classify_browser_error error "signing" false).message false
        (counts id (before + calls) 0),
  )
  submit url mode fetch id before (signed payload calls) =
      let r : PaidRequest = record {
        url = url;
        payment_signature = web.encode_payment_signature_header payload;
      } in
      (r ∷ [], received payload id (before + calls) (submit_paid_request fetch r mode))

  unfoldable pub sign : String → MainnetValidatedTerms → String → Signing
  unfolding append_payment_identifier_to_payment_required create_mainnet_payment_policy
      select_mainnet_payment_requirement
  sign seller terms id =
      web.create_payment_payload select_mainnet_payment_requirement
        (create_mainnet_payment_policy seller)
        (append_payment_identifier_to_payment_required terms.payment_required id)

  unfoldable pub execute_mainnet_payment_attempt :
      String
      → MainnetValidatedTerms
      → SubmissionMode
      → (PaidRequest → Delivery)
      → String
      → ℕ
      → List PaidRequest × MainnetPaymentExecutionResult
  unfolding sign submit
  execute_mainnet_payment_attempt seller terms mode fetch id before =
      submit terms.request_url mode fetch id before (sign seller terms id)
