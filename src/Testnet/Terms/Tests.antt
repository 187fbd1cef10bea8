-- ===== src/Testnet/Terms/Tests.antt =====
-- terms-loader.ts: the server's one option is loaded.
use x402_worker_template.Prelude.{String, none, some, [], ◌≡◌, refl, str_eq, if◌then◌else◌}
use x402_worker_template.Js.{get}
use x402_worker_template.Js.Text.{utf16_length, trim, to_lower_case}
use x402_worker_template.Policy.{normalize_address}
use x402_worker_template.Client.Web.{Answer, answered}
use x402_worker_template.Testnet.Config.{is_dead_pay_to_address, build_pay_public_config}
use x402_worker_template.Testnet.Policy.{
  matches_base_sepolia_payment_terms, validate_base_sepolia_payment_requirements,
}
use x402_worker_template.Testnet.Quote.{ready, assert_quote_ready_for_signing}
use x402_worker_template.Testnet.Quote.Tests.{resolved_config, required, buyer, quote, config}
use x402_worker_template.Testnet.Terms.{Page, load_and_validate_payment_terms}
use x402_worker_template.Testnet.Terms.Laws.{load_and_validate-ready}

abbrev pub page : Page
page = record {
  resolve_url =
      λ path base. some (record { origin = base; pathname = path; search_params = []; rest = "" });
  write_url = λ u. "https://pay.example/v1/example?value=hello";
  decode_payment_required_header = λ h. some required;
}

abbrev pub answer : String → Answer
answer url = answered 402 (λ name. if str_eq name "payment-required" then some "header" else none)

load_and_validate-ready_example :
    assert_quote_ready_for_signing quote buyer config.chain_id config ≡ ready
unfolding load_and_validate_payment_terms validate_base_sepolia_payment_requirements
    matches_base_sepolia_payment_terms get normalize_address to_lower_case is_dead_pay_to_address
    trim utf16_length build_pay_public_config
load_and_validate-ready_example =
    load_and_validate-ready page resolved_config "https://pay.example" buyer "hello" "quote-1" refl
      refl (λ u. refl) answer quote refl
