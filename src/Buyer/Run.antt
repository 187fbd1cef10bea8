-- ===== src/Buyer/Run.antt =====
-- src/buyer-run.ts: one payment from the command line. The environment is what it is once the .env
-- files are loaded.
pub mod Laws
pub mod Tests
use x402_worker_template.Prelude.{
  ℕ, zero, suc, String, Bool, Option, none, some, List, [], ◌∷◌, str_eq, if◌then◌else◌,
}
use x402_worker_template.Js.{Value, undefined, text, object, end, field}
use x402_worker_template.Js.Text.{trim}
use x402_worker_template.Js.Url.{Url}
use x402_worker_template.Client.Sanitize.{Thrown, plain, thrown}
use x402_worker_template.Client.Web.{Headers}
use x402_worker_template.Testnet.Config.{base_sepolia}
use x402_worker_template.Buyer.Guards.{
  BuyerGuardConfig, BuyerGuardResult, ok, refused, or_empty, parse_bool_flag, evaluate_buyer_guards,
}
use x402_worker_template.Buyer.Redaction.{
  RedactionContext, no_context, sanitize_buyer_string, sanitize_buyer_value,
}
use x402_worker_template.Buyer.Diagnostics.{
  BuyerStage, validate_guards, construct_account, initial_unpaid_request, submit_paid_request,
  read_resource_response, SafeBuyerDiagnostic, extract_buyer_error_diagnostic,
}

pub record Environment : Type 0 where
  pub api_url : Option String
  pub evm_private_key : Option String
  pub expected_pay_to_address : Option String
  pub allow_testnet_payment : Option String
  pub x402_network : Option String
  pub expected_remote_api_origin : Option String

-- The text of a body, or the error of reading it.
pub data BodyText : Type 0 where
  read : String → BodyText
  unread : Thrown → BodyText

pub record Response : Type 0 where
  pub status : ℕ
  pub body : BodyText
  pub headers : Headers

-- A request and the base fetch's answer to it.
pub record FetchRequest : Type 0 where
  pub url : String
  pub payment_signature : Option String

pub data FetchAnswer : Type 0 where
  response : Response → FetchAnswer
  rejected : Thrown → FetchAnswer

-- The fetch that `wrapFetchWithPayment` makes, as a caller of the fetch that it is given: it calls
-- that one, any number of times, and in the end it returns a response or throws.
pub data Wrapped : Type 0 where
  call : FetchRequest → (FetchAnswer → Wrapped) → Wrapped
  returns : Response → Wrapped
  throws : Thrown → Wrapped

-- The address of an account, or the error of making it.
pub data Account : Type 0 where
  address : String → Account
  bad_key : Thrown → Account

-- What the command takes from the platform and the x402 packages. `wrapped` is given the account's
-- address and the payee that its policy accepts, and the URL.
pub record World : Type 0 where
  pub parse_url : String → Option Url
  pub private_key_to_account : String → Account
  pub wrapped : String → String → String → Wrapped
  pub fetch : FetchRequest → FetchAnswer
  pub parse : String → Option Value
  pub decode_payment_response_header : String → Option Value

pub record BuyerSuccess : Type 0 where
  status : ℕ
  body : Value
  settlement : Value
  network : String

-- Done, or what was thrown and the stage that was reached.
pub data Attempt : Type 0 where
  succeeded : BuyerSuccess → Attempt
  broke : Thrown → BuyerStage → Attempt

-- The instrumented fetch: its first call is the unpaid request's stage, each later one the paid
-- request's.
abbrev stage_of : ℕ → BuyerStage
stage_of zero = initial_unpaid_request
stage_of (suc n) = submit_paid_request

abbrev parsed_or_text : String → Option Value → Value
parsed_or_text s none = text s
parsed_or_text s (some v) = v

settlement_of : Option Value → Value
unfolding sanitize_buyer_value
settlement_of none =
    object (field "note" (text "payment-response present but could not be decoded") end)
settlement_of (some v) = sanitize_buyer_value no_context v

abbrev or_else : Option String → Option String → Option String
or_else none other = other
or_else (some s) other = some s

abbrev decoded : World → Option String → Value
decoded w none = undefined
decoded w (some h) =
    if str_eq h "" then undefined else settlement_of (w.decode_payment_response_header h)

read_response : World → Response → BodyText → Attempt
unfolding settlement_of
read_response w r (unread t) = broke t read_resource_response
read_response w r (read s) = succeeded (record {
  status = r.status;
  body = parsed_or_text s (w.parse s);
  settlement = decoded w (or_else (r.headers "payment-response") (r.headers "PAYMENT-RESPONSE"));
  network = base_sepolia;
})

-- The wrapped fetch over the instrumented one, for the calls made so far and the stage reached: the
-- requests, and the attempt.
run_wrapped : World → ℕ → BuyerStage → Wrapped → List FetchRequest × Attempt
unfolding read_response
run_wrapped w n stage (returns r) = ([], read_response w r r.body)
run_wrapped w n stage (throws t) = ([], broke t stage)
run_wrapped w n stage (call request next) =
    let rest = run_wrapped w (suc n) (stage_of n) (next (w.fetch request)) in
    (request ∷ rest.0, rest.1)

abbrev pub config_of : Environment → BuyerGuardConfig
config_of e = record {
  api_url = e.api_url;
  evm_private_key = e.evm_private_key;
  allow_testnet_payment = parse_bool_flag e.allow_testnet_payment;
  expected_pay_to_address = e.expected_pay_to_address;
  network = trim (elim e.x402_network [ none ↦ base_sepolia | some s ↦ s ]);
  expected_remote_api_origin = e.expected_remote_api_origin;
}

-- `new Error(reason)`.
abbrev error_of : String → Thrown
error_of reason = thrown reason undefined undefined undefined (plain "")

abbrev with_account : World → Environment → Account → List FetchRequest × Attempt
with_account w e (bad_key t) = ([], broke t construct_account)
with_account w e (address a) =
    run_wrapped w 0 initial_unpaid_request
      (w.wrapped a (trim (or_empty e.expected_pay_to_address)) (or_empty e.api_url))

abbrev guarded : World → Environment → BuyerGuardResult → List FetchRequest × Attempt
guarded w e (refused reason) = ([], broke (error_of reason) validate_guards)
guarded w e ok = with_account w e (w.private_key_to_account (trim (or_empty e.evm_private_key)))

unfoldable pub attempt_payment : World → Environment → List FetchRequest × Attempt
unfolding run_wrapped evaluate_buyer_guards parse_bool_flag trim
attempt_payment w e = guarded w e (evaluate_buyer_guards w.parse_url (config_of e))

-- `buyerAddress` is known once the account is made.
abbrev known_address : Account → Option String
known_address (address a) = some a
known_address (bad_key t) = none

abbrev buyer_address : World → Environment → BuyerGuardResult → Option String
buyer_address w e (refused reason) = none
buyer_address w e ok = known_address (w.private_key_to_account (trim (or_empty e.evm_private_key)))

redaction_of : World → Environment → RedactionContext
unfolding evaluate_buyer_guards parse_bool_flag trim
redaction_of w e = record {
  private_key = e.evm_private_key;
  buyer_address = buyer_address w e (evaluate_buyer_guards w.parse_url (config_of e));
  seller_address = e.expected_pay_to_address;
  env_values =
      ("EVM_PRIVATE_KEY", e.evm_private_key)
      ∷ ("EXPECTED_PAY_TO_ADDRESS", e.expected_pay_to_address)
      ∷ ("API_URL", e.api_url)
      ∷ ("EXPECTED_REMOTE_API_ORIGIN", e.expected_remote_api_origin)
      ∷ [];
}

pub data BuyerRunResult : Type 0 where
  paid : BuyerSuccess → BuyerRunResult
  failed : SafeBuyerDiagnostic → BuyerRunResult

abbrev report_of : RedactionContext → Attempt → BuyerRunResult
report_of context (succeeded s) = paid s
report_of context (broke t stage) = failed (extract_buyer_error_diagnostic t stage context)

-- The requests, and the result.
unfoldable pub run_buyer_payment : World → Environment → List FetchRequest × BuyerRunResult
unfolding attempt_payment redaction_of extract_buyer_error_diagnostic
run_buyer_payment w e = let out = attempt_payment w e in (out.0, report_of (redaction_of w e) out.1)
