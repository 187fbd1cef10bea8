-- ===== src/Testnet/Policy.antt =====
-- src/payment-policy.ts: the terms that are accepted on Base Sepolia.
use x402_worker_template.Prelude.{
  String, Bool, not, ◌&&◌, Option, none, some, List, [], ◌∷◌, filter, nat_eq, str_eq, if◌then◌else◌,
}
use x402_worker_template.Js.{get}
use x402_worker_template.Policy.{PaymentRequirements, normalize_address, is_text}
use x402_worker_template.Testnet.Config.{
  base_sepolia, base_sepolia_usdc_asset, base_sepolia_payment_amount,
  base_sepolia_max_timeout_seconds,
}

unfoldable pub matches_base_sepolia_payment_terms : PaymentRequirements → String → Bool
unfolding normalize_address get
matches_base_sepolia_payment_terms r pay_to =
    str_eq r.scheme "exact"
    && str_eq r.network base_sepolia
    && str_eq r.amount base_sepolia_payment_amount
    && str_eq (normalize_address r.asset) (normalize_address base_sepolia_usdc_asset)
    && str_eq (normalize_address r.pay_to) (normalize_address pay_to)
    && nat_eq r.max_timeout_seconds base_sepolia_max_timeout_seconds
    && is_text (get "name" r.extra) "USDC"
    && is_text (get "version" r.extra) "2"

pub data PaymentTermsValidationResult : Type 0 where
  ok : PaymentRequirements → PaymentTermsValidationResult
  bad : String → PaymentTermsValidationResult

unfoldable pub validate_base_sepolia_payment_requirements :
    List PaymentRequirements → String → PaymentTermsValidationResult
validate_base_sepolia_payment_requirements (r ∷ []) pay_to =
    if not (matches_base_sepolia_payment_terms r pay_to)
    then bad "Payment terms do not match the allowed Base Sepolia policy."
    else ok r
validate_base_sepolia_payment_requirements _ pay_to =
    bad "Expected exactly one acceptable payment option."

create_base_sepolia_payment_policy : String → List PaymentRequirements → List PaymentRequirements
create_base_sepolia_payment_policy pay_to =
    filter (λ r. matches_base_sepolia_payment_terms r pay_to)

-- The selector throws on an empty list.
select_base_sepolia_payment_requirement : List PaymentRequirements → Option PaymentRequirements
select_base_sepolia_payment_requirement [] = none
select_base_sepolia_payment_requirement (r ∷ rs) = some r

apply_base_sepolia_payment_policy : List PaymentRequirements → String → List PaymentRequirements
unfolding create_base_sepolia_payment_policy
apply_base_sepolia_payment_policy rs pay_to = create_base_sepolia_payment_policy pay_to rs
