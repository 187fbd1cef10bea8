-- ===== src/Testnet/Quote/Tests.antt =====
-- pay-quote.ts on one quote.
use Prim.Native.String.{◌++◌}
use x402_worker_template.Prelude.{String, true, none, some, [], ◌∷◌, ◌≡◌, refl}
use x402_worker_template.Js.{undefined, null, text, end, field, get}
use x402_worker_template.Js.Text.{utf16_length, trim, to_lower_case, is_hex_of}
use x402_worker_template.Policy.{PaymentRequirements, normalize_address}
use x402_worker_template.Policy.Tests.{seller}
use x402_worker_template.Sdk.{PaymentRequired}
use x402_worker_template.Testnet.Config.{
  base_sepolia, base_sepolia_usdc_asset, base_sepolia_payment_amount,
  base_sepolia_max_timeout_seconds, AppEnv, ResolvedConfig, resolved, PayPublicConfig,
  is_dead_pay_to_address, build_pay_public_config, resolve_config,
}
use x402_worker_template.Testnet.Policy.{
  matches_base_sepolia_payment_terms, validate_base_sepolia_payment_requirements,
}
use x402_worker_template.Testnet.Quote.{
  PaymentQuote, ready, create_payment_quote, assert_quote_ready_for_signing,
}
use x402_worker_template.Testnet.Quote.Laws.{MaySign, assert_quote-MaySign}
use x402_worker_template.Testnet.Quote.Fresh.{create_payment_quote-ready}

abbrev pub resolved_config : ResolvedConfig
resolved_config = record {
  network = base_sepolia;
  price_usd = "0.001";
  price_accept = "$0.001";
  facilitator_url = "https://x402.org/facilitator";
  pay_to_address = seller;
  service_name = "x402 Paid Worker Template";
}

abbrev env : AppEnv
env = record {
  x402_network = none;
  x402_price_usd = none;
  x402_facilitator_url = none;
  x402_pay_to_address = some (" " ++ seller);
}

resolves : resolve_config (λ s. true) env ≡ resolved resolved_config
unfolding resolve_config is_hex_of trim
resolves = refl

abbrev pub requirement : PaymentRequirements
requirement = record {
  scheme = "exact";
  network = base_sepolia;
  amount = base_sepolia_payment_amount;
  asset = base_sepolia_usdc_asset;
  pay_to = seller;
  max_timeout_seconds = base_sepolia_max_timeout_seconds;
  extra = field "name" (text "USDC") (field "version" (text "2") end);
}

abbrev pub required : PaymentRequired
required = record { accepts = requirement ∷ []; extensions = undefined; json = null }

abbrev pub config : PayPublicConfig
config = build_pay_public_config resolved_config

abbrev pub buyer : String
buyer = "0x00000000000000000000000000000000000000Bb"

abbrev pub quote : PaymentQuote
quote =
    create_payment_quote required requirement config buyer config.chain_id
      "https://pay.example/v1/example?value=hello" "hello" "quote-1"

may_sign : assert_quote_ready_for_signing quote buyer config.chain_id config ≡ ready
unfolding validate_base_sepolia_payment_requirements matches_base_sepolia_payment_terms get
    normalize_address to_lower_case is_dead_pay_to_address trim utf16_length
may_sign =
    create_payment_quote-ready required requirement resolved_config buyer
      "https://pay.example/v1/example?value=hello" "hello" "quote-1" refl refl refl refl

assert_quote-MaySign_example : MaySign quote buyer config.chain_id config
assert_quote-MaySign_example = assert_quote-MaySign quote buyer config.chain_id config may_sign
