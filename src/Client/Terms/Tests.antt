-- ===== src/Client/Terms/Tests.antt =====
-- mainnet-terms-loader.ts: the terms that the server's own requirement gives.
use x402_worker_template.Prelude.{
  String, none, some, true, [], ◌∷◌, ◌≡◌, refl, str_eq, if◌then◌else◌,
}
use x402_worker_template.Js.{boolean, text, object, end, field, get}
use x402_worker_template.Js.Text.{to_lower_case}
use x402_worker_template.Policy.{
  build_mainnet_example_requirement, normalize_address, matches_base_mainnet_payment_terms,
  validate_base_mainnet_payment_requirements,
}
use x402_worker_template.Policy.Tests.{seller}
use x402_worker_template.Sdk.{PaymentRequired}
use x402_worker_template.Orchestrator.Handler.Tests.{sdk}
use x402_worker_template.Authorization.Tests.{payload}
use x402_worker_template.Client.Web.{Web, Url, Answer, answered, signed, param}
use x402_worker_template.Client.Terms.{
  MainnetValidatedTerms, terms_of, load_and_validate_mainnet_terms, build_mainnet_paid_route_url,
}
use x402_worker_template.Client.Terms.Laws.{IsLoaded, load_and_validate-IsLoaded}

abbrev pub origin : String
origin = "https://pay.example"

abbrev resource_url : String
resource_url = "https://pay.example/v1/example?value=hello"

abbrev page : Url
page = record { origin = origin; pathname = "/"; search_params = []; rest = "" }

abbrev route : Url
route = record page { pathname = "/v1/example"; search_params = ("value", "hello") ∷ [] }

abbrev pub required : PaymentRequired
required = record {
  accepts = build_mainnet_example_requirement seller ∷ [];
  extensions = object (field "payment-identifier" (object end) end);
  json = object (field "resource" (object (field "url" (text resource_url) end)) end);
}

-- The browser, as far as this route needs it, and a client that signs with one call.
abbrev pub web : Web
web = record {
  parse_url = λ s.
      if str_eq s origin then some page else (if str_eq s resource_url then some route else none);
  write_url = λ u. resource_url;
  decode_payment_required_header = λ h. some required;
  append_payment_identifier = λ extensions id. extensions;
  create_payment_payload = λ select policy r. signed payload 1;
  encode_payment_signature_header = λ p. "signature";
  process_payment_result = λ p headers status. some (some (field "success" (boolean true) end));
}

-- The server's answer to a request without a payment.
abbrev pub fetch : String → Answer
fetch url = answered 402 (λ name. if str_eq name "payment-required" then some "header" else none)

abbrev pub terms : MainnetValidatedTerms
terms =
    terms_of sdk web seller required (build_mainnet_example_requirement seller) resource_url "hello"

load_and_validate-IsLoaded_example :
    (u : Url) × (url : String) × (web.parse_url origin ≡ some u)
    × (build_mainnet_paid_route_url sdk web seller origin "hello" ≡ some url)
    × IsLoaded sdk web seller u.origin url "hello" terms
unfolding load_and_validate_mainnet_terms get param validate_base_mainnet_payment_requirements
    matches_base_mainnet_payment_terms build_mainnet_example_requirement normalize_address
    to_lower_case
load_and_validate-IsLoaded_example =
    load_and_validate-IsLoaded sdk web seller fetch origin "hello" terms refl
