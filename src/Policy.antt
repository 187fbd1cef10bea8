-- ===== src/Policy.antt =====
-- src/mainnet/payment-policy.mainnet.ts and payment.mainnet.ts: the one set of payment terms that
-- the server offers and accepts on Base mainnet.
pub mod Laws
pub mod Tests
use x402_worker_template.Prelude.{
  ℕ, String, Bool, false, ◌&&◌, not, Option, none, some, List, [], ◌∷◌, filter, nat_eq, str_eq,
  if◌then◌else◌,
}
use x402_worker_template.Js.{Value, Fields, text, end, field, get}
use x402_worker_template.Js.Text.{to_lower_case}

-- `PaymentRequirements` of @x402/core.
pub record PaymentRequirements : Type 0 where
  pub scheme : String
  pub network : String
  pub amount : String
  pub asset : String
  pub pay_to : String
  pub max_timeout_seconds : ℕ
  pub extra : Fields

abbrev pub mainnet_network : String
mainnet_network = "eip155:8453"

abbrev pub mainnet_paid_route : String
mainnet_paid_route = "/v1/example"

abbrev mainnet_payment_amount : String
mainnet_payment_amount = "1000"

abbrev mainnet_usdc_asset : String
mainnet_usdc_asset = "0x833589fCD6eDb6E08f4c7C32D4f71b54bdA02913"

abbrev mainnet_max_timeout_seconds : ℕ
mainnet_max_timeout_seconds = 300

unfoldable pub normalize_address : String → String
unfolding to_lower_case
normalize_address = to_lower_case

-- `value === text` for a value of unknown type.
abbrev pub is_text : Value → String → Bool
is_text (text s) t = str_eq s t
is_text v t = false

unfoldable pub matches_base_mainnet_payment_terms : PaymentRequirements → String → Bool
matches_base_mainnet_payment_terms r seller =
    str_eq r.scheme "exact"
    && str_eq r.network mainnet_network
    && str_eq r.amount mainnet_payment_amount
    && str_eq (normalize_address r.asset) (normalize_address mainnet_usdc_asset)
    && str_eq (normalize_address r.pay_to) (normalize_address seller)
    && nat_eq r.max_timeout_seconds mainnet_max_timeout_seconds
    && is_text (get "name" r.extra) "USD Coin"
    && is_text (get "version" r.extra) "2"

pub data TermsResult : Type 0 where
  ok : PaymentRequirements → TermsResult
  bad : String → TermsResult

unfoldable pub validate_base_mainnet_payment_requirements :
    List PaymentRequirements → String → TermsResult
validate_base_mainnet_payment_requirements (r ∷ []) seller =
    if not (matches_base_mainnet_payment_terms r seller)
    then bad "Payment terms do not match the allowed Base mainnet policy."
    else ok r
validate_base_mainnet_payment_requirements _ seller =
    bad "Expected exactly one acceptable payment option."

-- No code of the server calls it.
unfoldable pub build_mainnet_example_requirement : String → PaymentRequirements
build_mainnet_example_requirement seller = record {
  scheme = "exact";
  network = mainnet_network;
  amount = mainnet_payment_amount;
  asset = mainnet_usdc_asset;
  pay_to = seller;
  max_timeout_seconds = mainnet_max_timeout_seconds;
  extra = field "name" (text "USD Coin") (field "version" (text "2") end);
}

-- The client's policy and selector for `x402Client`. The selector throws on an empty list.
unfoldable pub create_mainnet_payment_policy :
    String → List PaymentRequirements → List PaymentRequirements
unfolding matches_base_mainnet_payment_terms
create_mainnet_payment_policy seller = filter (λ r. matches_base_mainnet_payment_terms r seller)

unfoldable pub select_mainnet_payment_requirement :
    List PaymentRequirements → Option PaymentRequirements
select_mainnet_payment_requirement [] = none
select_mainnet_payment_requirement (r ∷ rs) = some r

abbrev base_sepolia_network : String
base_sepolia_network = "eip155:84532"

abbrev base_usdbc_asset : String
base_usdbc_asset = "0xd9aAEc86B65D86f6A7B5B1b0c42FFA531710b6CA"

abbrev legacy_incorrect_usdbc_placeholder : String
legacy_incorrect_usdbc_placeholder = "0xd9aAEc86B65D86f4A9253D8C8b1c1c1c1c1c1c1c"

abbrev base_sepolia_usdc : String
base_sepolia_usdc = "0x036CbD53842c5426634e7929541eC2318f3dCF7e"

-- Why a requirement is not for the mainnet path, if it is not.
unfoldable pub reject_non_mainnet_payment_terms : PaymentRequirements → String → Option String
unfolding normalize_address get
reject_non_mainnet_payment_terms r seller =
    let asset = normalize_address r.asset in
    if str_eq r.network base_sepolia_network
    then some "Base Sepolia is not accepted on the mainnet path."
    else (if not (str_eq r.network mainnet_network)
        then some "Only Base mainnet (eip155:8453) is accepted."
        else (if str_eq asset (normalize_address base_usdbc_asset)
            then some "Bridged Base USDbC is not accepted."
            else (if str_eq asset (normalize_address legacy_incorrect_usdbc_placeholder)
                then some "Unsupported asset address."
                else (if str_eq asset (normalize_address base_sepolia_usdc)
                    then some "Test USDC is not accepted."
                    else (if is_text (get "name" r.extra) "USDC"
                        then some "EIP-712 name USDC is not accepted."
                        else (if not (is_text (get "version" r.extra) "2")
                            then some "EIP-712 version must be 2."
                            else (if not (str_eq r.amount mainnet_payment_amount)
                                then some "Payment amount must be 1000 atomic units."
                                else (if not (
                                      str_eq (normalize_address r.pay_to)
                                        (normalize_address seller))
                                    then some
                                        "Seller address does not match the configured mainnet policy."
                                    else none))))))))
