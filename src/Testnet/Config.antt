-- ===== src/Testnet/Config.antt =====
-- src/config.ts and src/pay-public-config.ts: the server's configuration, and what the page is told
-- of it.
use Prim.Native.String.{◌++◌}
use x402_worker_template.Prelude.{
  ℕ, String, Bool, not, ◌||◌, Option, none, some, str_eq, if◌then◌else◌,
}
use x402_worker_template.Js.Text.{is_hex_of, trim, to_lower_case}

abbrev pub base_sepolia : String
base_sepolia = "eip155:84532"

abbrev pub base_sepolia_usdc_asset : String
base_sepolia_usdc_asset = "0x036CbD53842c5426634e7929541eC2318f3dCF7e"

abbrev pub base_sepolia_payment_amount : String
base_sepolia_payment_amount = "1000"

abbrev pub base_sepolia_max_timeout_seconds : ℕ
base_sepolia_max_timeout_seconds = 300

abbrev default_pay_to : String
default_pay_to = "0x000000000000000000000000000000000000dEaD"

abbrev service_name : String
service_name = "x402 Paid Worker Template"

-- `Partial<AppEnv>`: a missing variable is `none`.
pub record AppEnv : Type 0 where
  pub x402_network : Option String
  pub x402_price_usd : Option String
  pub x402_facilitator_url : Option String
  pub x402_pay_to_address : Option String

pub record ResolvedConfig : Type 0 where
  pub network : String
  pub price_usd : String
  pub price_accept : String
  pub facilitator_url : String
  pub pay_to_address : String
  pub service_name : String

-- A configuration, or the message of the thrown error.
pub data Resolved : Type 0 where
  resolved : ResolvedConfig → Resolved
  threw : String → Resolved

abbrev or_default : Option String → String → String
or_default none d = d
or_default (some s) d = s

-- The first check that fails throws. `is_positive` tells whether `Number` of a text is a number
-- above 0.
config_error : (String → Bool) → String → String → String → String → Option String
config_error is_positive network price url address =
    if str_eq network ""
    then some "X402_NETWORK is required"
    else (if not (str_eq network base_sepolia)
        then some "X402_NETWORK must be eip155:84532. Other networks are not permitted."
        else (if str_eq price "" || not (is_positive price)
            then some "X402_PRICE_USD must be a positive number string"
            else (if str_eq url ""
                then some "X402_FACILITATOR_URL is required"
                else (if not (is_hex_of 40 address)
                    then some "X402_PAY_TO_ADDRESS must be a 0x-prefixed 40-byte hex address"
                    else none))))

abbrev or_resolved : Option String → ResolvedConfig → Resolved
or_resolved none c = resolved c
or_resolved (some message) c = threw message

unfoldable pub resolve_config : (String → Bool) → AppEnv → Resolved
unfolding trim config_error
resolve_config is_positive env =
    let network = trim (or_default env.x402_network base_sepolia) in
    let price = trim (or_default env.x402_price_usd "0.001") in
    let url = trim (or_default env.x402_facilitator_url "https://x402.org/facilitator") in
    let address = trim (or_default env.x402_pay_to_address default_pay_to) in
    or_resolved (config_error is_positive network price url address) (record {
      network = network;
      price_usd = price;
      price_accept = "$" ++ price;
      facilitator_url = url;
      pay_to_address = address;
      service_name = service_name;
    })

unfoldable pub is_dead_pay_to_address : String → Bool
unfolding to_lower_case
is_dead_pay_to_address address = str_eq (to_lower_case address) (to_lower_case default_pay_to)

pub record PayPublicConfig : Type 0 where
  pub service_name : String
  pub paid_route : String
  pub allowed_query_key : String
  price_display : String
  pub atomic_amount : String
  token_symbol : String
  pub token_contract : String
  network_label : String
  pub caip2_network : String
  pub chain_id : ℕ
  pub eip712_name : String
  pub eip712_version : String
  pub timeout : ℕ
  pub seller_address : String
  pub seller_is_placeholder : Bool
  pub payment_ready : Bool
  environment_label : String

unfoldable pub build_pay_public_config : ResolvedConfig → PayPublicConfig
unfolding is_dead_pay_to_address
build_pay_public_config c =
    let placeholder = is_dead_pay_to_address c.pay_to_address in
    record {
      service_name = c.service_name;
      paid_route = "/v1/example";
      allowed_query_key = "value";
      price_display = c.price_accept;
      atomic_amount = base_sepolia_payment_amount;
      token_symbol = "test USDC";
      token_contract = base_sepolia_usdc_asset;
      network_label = "Base Sepolia testnet";
      caip2_network = c.network;
      chain_id = 84532;
      eip712_name = "USDC";
      eip712_version = "2";
      timeout = base_sepolia_max_timeout_seconds;
      seller_address = c.pay_to_address;
      seller_is_placeholder = placeholder;
      payment_ready = not placeholder;
      environment_label = "BASE SEPOLIA TESTNET";
    }
