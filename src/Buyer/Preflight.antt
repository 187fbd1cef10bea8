-- ===== src/Buyer/Preflight.antt =====
-- src/buyer-preflight.ts: what is looked at before a payment, without signing or paying.
pub mod Laws
pub mod Tests
use Prim.Native.Nat.{◌^◌}
use Prim.Native.String.{◌++◌}
use x402_worker_template.Prelude.{
  ℕ, ◌-◌, ◌*◌, String, Bool, true, false, not, ◌&&◌, ◌||◌, Option, none, some, is_some, List, [],
  ◌∷◌, leb, nat_eq, str_eq, if◌then◌else◌,
}
use x402_worker_template.Js.{get, is_truthy}
use x402_worker_template.Js.Text.{trim, decimal}
use x402_worker_template.Js.Url.{Url}
use x402_worker_template.Client.Sanitize.{Thrown}
use x402_worker_template.Policy.{PaymentRequirements}
use x402_worker_template.Testnet.Policy.{
  PaymentTermsValidationResult, validate_base_sepolia_payment_requirements,
}
use x402_worker_template.Buyer.Guards.{
  BuyerGuardResult, ok, refused, or_empty, parse_bool_flag, evaluate_buyer_guards,
}
use x402_worker_template.Buyer.Redaction.{RedactionContext}
use x402_worker_template.Buyer.Diagnostics.{
  BuyerStage, construct_account, construct_x402_client, initial_unpaid_request,
  decode_payment_requirements, SafeBuyerDiagnostic, extract_buyer_error_diagnostic,
}
use x402_worker_template.Buyer.Run.{
  Environment, Response, FetchRequest, FetchAnswer, response, rejected, Account, address, bad_key,
  config_of,
}

pub data PreflightStageStatus : Type 0 where
  pass fail skip not_attempted : PreflightStageStatus

pub record PreflightStageResult : Type 0 where
  stage : String
  pub status : PreflightStageStatus
  detail : Option String
  diagnostic : Option SafeBuyerDiagnostic

-- What a call of the platform, of viem or of the x402 packages gives, if it does not throw.
pub data Answer {ℓ} (A : Type ℓ) : Type ℓ where
  gives : A → Answer A
  throws : Thrown → Answer A

-- `new URL`, the fetch, the decoding of the header, the account, the chain's RPC, and the making of
-- the x402 client for a payee.
pub record World : Type 0 where
  pub parse_url : String → Option Url
  pub fetch : FetchRequest → FetchAnswer
  pub decode_payment_required_header : String → Answer (List PaymentRequirements)
  pub private_key_to_account : String → Account
  pub get_chain_id : Answer ℕ
  pub read_decimals : Answer ℕ
  pub read_balance_of : String → Answer ℕ
  pub construct_client : String → Option Thrown

abbrev stage_result : String → PreflightStageStatus → Option String → PreflightStageResult
stage_result stage status detail = record {
  stage = stage;
  status = status;
  detail = detail;
  diagnostic = none;
}

abbrev passed : String → PreflightStageResult
passed stage = stage_result stage pass none

-- A test passes, or it fails with a detail.
abbrev tested : String → Bool → String → PreflightStageResult
tested stage b detail = if b then passed stage else stage_result stage fail (some detail)

payment_payload_prerequisites : PaymentRequirements → Bool
unfolding get
payment_payload_prerequisites r =
    is_truthy (get "name" r.extra) && is_truthy (get "version" r.extra)

-- `minimumUnits`.
minimum_units : ℕ → ℕ
minimum_units decimals = if leb 6 decimals then 1000 else 1000 * 10 ^ (6 - decimals)

closing : List PreflightStageResult
closing =
    stage_result "facilitator_read_only_check" skip
      (some "No read-only facilitator capability endpoint is required by the installed buyer SDK.")
    ∷ stage_result "live_signing" not_attempted none
    ∷ stage_result "paid_request" not_attempted none
    ∷ stage_result "settlement" not_attempted none
    ∷ []

abbrev header_of : Response → String
header_of r = elim (r.headers "payment-required") [
  | some s ↦ s
  | none ↦ or_empty (r.headers "PAYMENT-REQUIRED")
]

-- The stages from each call on, for a context that takes the secrets out of an error.
module _ (w : World) (context : RedactionContext) (e : Environment) where
  abbrev failed_with : String → String → Thrown → BuyerStage → PreflightStageResult
  failed_with stage detail t at = record {
    stage = stage;
    status = fail;
    detail = some detail;
    diagnostic = some (extract_buyer_error_diagnostic t at context);
  }

  abbrev payee : String
  payee = trim (or_empty e.expected_pay_to_address)

  client_stages : Option Thrown → List PreflightStageResult
  unfolding extract_buyer_error_diagnostic closing
  client_stages none = passed "x402_client_construction" ∷ closing
  client_stages (some t) =
      failed_with "x402_client_construction" "Could not construct x402 client and wrapped fetch." t
        construct_x402_client
      ∷ closing

  balance_stages : ℕ → Answer ℕ → List PreflightStageResult
  unfolding extract_buyer_error_diagnostic client_stages minimum_units trim
  balance_stages decimals (gives balance) =
      tested "buyer_balance_sufficient" (leb (minimum_units decimals) balance)
        "Buyer test-USDC balance is below 0.001."
      ∷ client_stages (w.construct_client payee)
  balance_stages decimals (throws t) =
      failed_with "buyer_balance_sufficient" "Could not query buyer test-USDC balance." t
        construct_account
      ∷ client_stages (w.construct_client payee)

  decimals_stages : String → Answer ℕ → List PreflightStageResult
  unfolding extract_buyer_error_diagnostic balance_stages
  decimals_stages account (gives decimals) =
      passed "test_usdc_metadata_query" ∷ balance_stages decimals (w.read_balance_of account)
  decimals_stages account (throws t) =
      failed_with "test_usdc_metadata_query" "Could not query test-USDC metadata." t
        construct_account
      ∷ stage_result "buyer_balance_sufficient" skip none
      ∷ []

  chain_stages : String → Answer ℕ → List PreflightStageResult
  unfolding extract_buyer_error_diagnostic decimals_stages decimal
  chain_stages account (gives n) =
      passed "base_sepolia_rpc_connection"
      ∷ tested "chain_id_verification" (nat_eq n 84532)
          ("Expected chain ID 84532, received " ++ decimal n ++ ".")
      ∷ decimals_stages account w.read_decimals
  chain_stages account (throws t) =
      failed_with "base_sepolia_rpc_connection" "Base Sepolia RPC connection failed." t
        construct_account
      ∷ stage_result "chain_id_verification" skip none
      ∷ []

  account_stages : Account → List PreflightStageResult
  unfolding extract_buyer_error_diagnostic chain_stages
  account_stages (address a) = passed "local_account_construction" ∷ chain_stages a w.get_chain_id
  account_stages (bad_key t) =
      failed_with "local_account_construction" "Could not construct local buyer account." t
        construct_account
      ∷ []

  terms_stages : PaymentTermsValidationResult → List PreflightStageResult
  unfolding account_stages payment_payload_prerequisites trim
  terms_stages (PaymentTermsValidationResult.ok r) =
      passed "payment_term_validation"
      ∷ tested "payment_payload_prerequisites" (payment_payload_prerequisites r)
          "Payment requirements are missing EIP-712 domain parameters (extra.name and extra.version) required for exact EVM signing."
      ∷ account_stages (w.private_key_to_account (trim (or_empty e.evm_private_key)))
  terms_stages (PaymentTermsValidationResult.bad reason) =
      stage_result "payment_term_validation" fail
        (some "Expected exactly one acceptable Base Sepolia payment option.")
      ∷ stage_result "payment_payload_prerequisites" fail
          (some "No acceptable payment requirement available for prerequisite check.")
      ∷ account_stages (w.private_key_to_account (trim (or_empty e.evm_private_key)))

  decoded_stages : Answer (List PaymentRequirements) → List PreflightStageResult
  unfolding extract_buyer_error_diagnostic terms_stages trim
      validate_base_sepolia_payment_requirements
  decoded_stages (gives requirements) =
      terms_stages (validate_base_sepolia_payment_requirements requirements payee)
  decoded_stages (throws t) =
      failed_with "payment_term_validation" "Could not decode payment-required header." t
        decode_payment_requirements
      ∷ []

  response_stages : FetchAnswer → List PreflightStageResult
  unfolding extract_buyer_error_diagnostic decoded_stages decimal
  response_stages (rejected t) =
      failed_with "unpaid_http_request" "Unpaid request failed before a response was received." t
        initial_unpaid_request
      ∷ []
  response_stages (response r) =
      tested "unpaid_http_request" (nat_eq r.status 402)
        ("Expected HTTP 402, received " ++ decimal r.status ++ ".")
      ∷ (if not (nat_eq r.status 402) || str_eq (header_of r) ""
          then stage_result "payment_term_validation" fail (
              some (
                if str_eq (header_of r) ""
                then "Unable to validate payment terms without payment-required header."
                else "Missing payment-required header on unpaid response."))
            ∷ []
          else decoded_stages (w.decode_payment_required_header (header_of r)))

  -- The requests that are sent, and the stages.
  guard_stages : BuyerGuardResult → List FetchRequest × List PreflightStageResult
  unfolding response_stages
  guard_stages (refused reason) =
      ([], stage_result "environment_validation" fail (some reason) ∷ [])
  guard_stages ok =
      let r : FetchRequest = record { url = or_empty e.api_url; payment_signature = none } in
      (
        r ∷ [],
        passed "environment_validation"
            ∷ passed "api_url_guard"
            ∷ passed "remote_origin_guard"
            ∷ response_stages (w.fetch r),
      )

pub record BuyerPreflightReport : Type 0 where
  pub overall : PreflightStageStatus
  stages : List PreflightStageResult

abbrev is_failure : PreflightStageStatus → Bool
is_failure fail = true
is_failure status = false

any_failed : List PreflightStageResult → Bool
any_failed [] = false
any_failed (s ∷ ss) = is_failure s.status || any_failed ss

abbrev finalize_preflight : List PreflightStageResult → BuyerPreflightReport
finalize_preflight stages = record {
  overall = if any_failed stages then fail else pass;
  stages = stages;
}

-- The secrets are read from the environment before the .env files are loaded.
abbrev redaction_context_from_env : Environment → RedactionContext
redaction_context_from_env initial = record {
  private_key = initial.evm_private_key;
  buyer_address = none;
  seller_address = initial.expected_pay_to_address;
  env_values = [];
}

-- For the environment at first, and once the .env files are loaded: the requests, and the report.
unfoldable pub run_buyer_preflight :
    World → Environment → Environment → List FetchRequest × BuyerPreflightReport
unfolding guard_stages any_failed evaluate_buyer_guards parse_bool_flag trim
run_buyer_preflight w initial e =
    let out =
      guard_stages w (redaction_context_from_env initial) e
        (evaluate_buyer_guards w.parse_url (config_of e)) in
    (out.0, finalize_preflight out.1)
