-- ===== src/Testnet/Terms.antt =====
-- src/browser/terms-loader.ts: the terms of a testnet payment, asked for and checked.
pub mod Laws
pub mod Tests
use Prim.Native.String.{◌++◌}
use x402_worker_template.Prelude.{
  ℕ, String, not, Option, none, some, [], ◌∷◌, nat_eq, str_eq, if◌then◌else◌,
}
use x402_worker_template.Js.Text.{decimal}
use x402_worker_template.Sdk.{PaymentRequired}
use x402_worker_template.Client.Web.{Url, Headers, Answer, thrown, answered}
use x402_worker_template.Testnet.Config.{PayPublicConfig}
use x402_worker_template.Testnet.Policy.{
  PaymentTermsValidationResult, validate_base_sepolia_payment_requirements,
}
use x402_worker_template.Testnet.Quote.{PaymentQuote, create_payment_quote}

-- What the loader takes from the browser and from @x402/core: `new URL(path, base)`, which may
-- throw, the text of a URL, and the decoding of the header, which may throw.
pub record Page : Type 0 where
  resolve_url : String → String → Option Url
  pub write_url : Url → String
  pub decode_payment_required_header : String → Option PaymentRequired

-- `quoteId` is the identifier that is made for the quote.
pub record LoadOptions : Type 0 where
  pub origin : String
  pub public_config : PayPublicConfig
  pub account : String
  pub chain_id : ℕ
  pub query_value : String
  pub quote_id : String

pub data TermsLoadResult : Type 0 where
  ok : PaymentQuote → TermsLoadResult
  bad : String → TermsLoadResult

-- `headers.get("payment-required") ?? headers.get("PAYMENT-REQUIRED")`, and `none` if it is falsy.
abbrev or_else : Option String → Option String → Option String
or_else none other = other
or_else (some s) other = some s

abbrev non_empty : Option String → Option String
non_empty none = none
non_empty (some s) = if str_eq s "" then none else some s

abbrev header_of : Headers → Option String
header_of headers = non_empty (or_else (headers "payment-required") (headers "PAYMENT-REQUIRED"))

module _ (page : Page) (o : LoadOptions) where
  abbrev build_paid_route_url : Option String
  build_paid_route_url = elim (page.resolve_url "/v1/example" o.origin) [
    | none ↦ none
    | some u ↦ some (page.write_url (record u { search_params = ("value", o.query_value) ∷ [] }))
  ]

  abbrev with_terms : PaymentRequired → String → PaymentTermsValidationResult → TermsLoadResult
  with_terms required url (PaymentTermsValidationResult.bad reason) = bad reason
  with_terms required url (PaymentTermsValidationResult.ok r) = ok (
      create_payment_quote required r o.public_config o.account o.chain_id url o.query_value
        o.quote_id)

  abbrev with_required : String → Option PaymentRequired → TermsLoadResult
  with_required url none = bad "Could not decode payment-required header."
  with_required url (some required) =
      with_terms required url
        (validate_base_sepolia_payment_requirements required.accepts o.public_config.seller_address)

  abbrev with_header : String → Option String → TermsLoadResult
  with_header url none = bad "Missing payment-required header on unpaid response."
  with_header url (some h) = with_required url (page.decode_payment_required_header h)

  unfoldable pub validate_answer : String → Answer → TermsLoadResult
  unfolding decimal
  validate_answer url (thrown error) =
      bad "The unpaid request failed because a redirect was attempted."
  validate_answer url (answered status headers) =
      if nat_eq status 200
      then bad "Expected HTTP 402 before payment, but received HTTP 200."
      else (if not (nat_eq status 402)
          then bad ("Expected HTTP 402, received HTTP " ++ decimal status ++ ".")
          else with_header url (header_of headers))

  -- `none` is a rejected promise: there is no URL.
  unfoldable pub load_and_validate_payment_terms : (String → Answer) → Option TermsLoadResult
  unfolding validate_answer
  load_and_validate_payment_terms fetch = elim build_paid_route_url [
    | none ↦ none
    | some url ↦ some (validate_answer url (fetch url))
  ]
