-- ===== src/Client/Terms.antt =====
-- src/mainnet/browser/mainnet-terms-loader.ts: the terms of payment, asked for and checked.
pub mod Laws
pub mod Tests
use Prim.Native.String.{◌++◌}
use x402_worker_template.Prelude.{
  ℕ, String, Bool, not, Option, none, some, is_some, opt_eq, List, [], ◌∷◌, nat_eq, str_eq,
  if◌then◌else◌,
}
use x402_worker_template.Js.{Value, text, property}
use x402_worker_template.Js.Text.{decimal}
use x402_worker_template.Policy.{
  PaymentRequirements, TermsResult, mainnet_paid_route, mainnet_network,
  validate_base_mainnet_payment_requirements,
}
use x402_worker_template.Sdk.{Sdk, PaymentRequired}
use x402_worker_template.Identifier.{Declared, validate_required_payment_identifier_declaration}
use x402_worker_template.Client.Sanitize.{sanitize_browser_string}
use x402_worker_template.Client.Web.{Web, Url, param, Headers, Answer, thrown, answered}

abbrev mainnet_paid_query_key : String
mainnet_paid_query_key = "value"

-- The literal fields, "verified" and the like, are the same in every summary.
record MainnetPaymentSummary : Type 0 where
  paying : String
  network : String
  service : String
  input : String

pub record MainnetValidatedTerms : Type 0 where
  pub payment_required : PaymentRequired
  pub requirement : PaymentRequirements
  pub request_url : String
  pub query_value : String
  summary : MainnetPaymentSummary

pub data MainnetTermsLoadResult : Type 0 where
  ok : MainnetValidatedTerms → MainnetTermsLoadResult
  bad : String → MainnetTermsLoadResult

-- `headers.get("payment-required") ?? headers.get("PAYMENT-REQUIRED")`, and `none` if it is falsy.
abbrev or_else : Option String → Option String → Option String
or_else none other = other
or_else (some s) other = some s

abbrev non_empty : Option String → Option String
non_empty none = none
non_empty (some s) = if str_eq s "" then none else some s

abbrev payment_header : Headers → Option String
payment_header headers =
    non_empty (or_else (headers "payment-required") (headers "PAYMENT-REQUIRED"))

module _ (x : Sdk) (web : Web) (seller : String) where
  -- `new URL` throws on a text that is no URL: `none`.
  unfoldable pub build_mainnet_paid_route_url : String → String → Option String
  build_mainnet_paid_route_url origin query = elim (web.parse_url origin) [
    | none ↦ none
    | some u ↦ some (
        web.write_url (record u {
          pathname = mainnet_paid_route;
          search_params = (mainnet_paid_query_key, query) ∷ [];
        }))
  ]

  -- The resource is that of the paid route, with the query value.
  url_error : String → String → Option Url → Option String
  unfolding param
  url_error origin query none = some "Payment resource URL is invalid."
  url_error origin query (some u) =
      if not (str_eq u.origin origin)
      then some "Payment resource origin does not match."
      else (if not (str_eq u.pathname mainnet_paid_route)
          then some "Payment resource path does not match."
          else (if not (is_some (param mainnet_paid_query_key u.search_params))
              then some "Payment resource query key is missing."
              else (if not (opt_eq (param mainnet_paid_query_key u.search_params) query)
                  then some "Payment resource query value does not match."
                  else none)))

  abbrev resource_error : String → String → Value → Option String
  resource_error origin query (text url) = url_error origin query (web.parse_url url)
  resource_error origin query v = some "Payment resource URL is missing."

  abbrev terms_of : PaymentRequired → PaymentRequirements → String → String → MainnetValidatedTerms
  terms_of required requirement url query = record {
    payment_required = required;
    requirement = requirement;
    request_url = url;
    query_value = query;
    summary = record {
      paying = "0.001 USDC";
      network = "eip155:8453 (8453)";
      service = mainnet_paid_route;
      input = query;
    };
  }

  abbrev declared : MainnetValidatedTerms → Declared → MainnetTermsLoadResult
  declared terms (Declared.bad reason) = bad reason
  declared terms Declared.ok = ok terms

  abbrev validated : PaymentRequired → String → String → TermsResult → MainnetTermsLoadResult
  validated required url query (TermsResult.bad reason) = bad reason
  validated required url query (TermsResult.ok requirement) =
      declared (terms_of required requirement url query)
        (validate_required_payment_identifier_declaration x required.extensions)

  -- What a decoded header is checked for.
  validate_payment_required : PaymentRequired → String → String → String → MainnetTermsLoadResult
  unfolding url_error validate_required_payment_identifier_declaration
  validate_payment_required required origin url query =
      elim (resource_error origin query (property "url" (property "resource" required.json))) [
        | some reason ↦ bad reason
        | none ↦
            validated required url query
              (validate_base_mainnet_payment_requirements required.accepts seller)
      ]

  abbrev with_decoded : Option PaymentRequired → String → String → String → MainnetTermsLoadResult
  with_decoded none origin url query = bad "Could not decode payment-required header."
  with_decoded (some required) origin url query =
      validate_payment_required required origin url query

  abbrev with_header : Option String → String → String → String → MainnetTermsLoadResult
  with_header none origin url query = bad "Missing payment-required header on unpaid response."
  with_header (some h) origin url query =
      with_decoded (web.decode_payment_required_header h) origin url query

  -- The answer to the unpaid request; `origin` is the origin of the page's URL.
  unfoldable pub validate_answer : Answer → String → String → String → MainnetTermsLoadResult
  unfolding validate_payment_required sanitize_browser_string decimal
  validate_answer (thrown (some message)) origin url query = bad (sanitize_browser_string message)
  validate_answer (thrown none) origin url query =
      bad "The unpaid request failed because a redirect was attempted."
  validate_answer (answered status headers) origin url query =
      if nat_eq status 200
      then bad "Expected HTTP 402 before payment, but received HTTP 200."
      else (if not (nat_eq status 402)
          then bad ("Expected HTTP 402, received HTTP " ++ decimal status ++ ".")
          else with_header (payment_header headers) origin url query)

  -- `fetch` is the answer to the request of a URL. `none` is a rejected promise: the page's own
  -- origin is no URL.
  unfoldable pub load_and_validate_mainnet_terms :
      (String → Answer) → String → String → Option MainnetTermsLoadResult
  unfolding build_mainnet_paid_route_url validate_answer
  load_and_validate_mainnet_terms fetch origin query = elim (web.parse_url origin) [
    | none ↦ none
    | some u ↦ elim (build_mainnet_paid_route_url origin query) [
      | none ↦ none
      | some url ↦ some (validate_answer (fetch url) u.origin url query)
    ]
  ]
