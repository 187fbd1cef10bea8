-- ===== src/Policy/Tests.antt =====
-- The policy on the requirement that the server builds.
use mathlib.Core.List.{Memᴰ}
use x402_worker_template.Prelude.{filter, List, String, [], ◌∷◌, ◌≡◌, refl}
use x402_worker_template.Js.{get}
use x402_worker_template.Js.Text.{to_lower_case}
use x402_worker_template.Policy.{
  PaymentRequirements, normalize_address, matches_base_mainnet_payment_terms,
  select_mainnet_payment_requirement, create_mainnet_payment_policy, bad,
  validate_base_mainnet_payment_requirements, build_mainnet_example_requirement,
}
use x402_worker_template.Policy.Laws.{
  IsOffered, select-create_policy, validate-IsOffered, validate-build_mainnet_example_requirement,
}

abbrev pub seller : String
seller = "0x00000000000000000000000000000000000000Aa"

validate-IsOffered_example :
    (build_mainnet_example_requirement seller ∷ [] ≡ build_mainnet_example_requirement seller ∷ [])
    × IsOffered seller (build_mainnet_example_requirement seller)
validate-IsOffered_example =
    validate-IsOffered (build_mainnet_example_requirement seller ∷ []) seller
      (build_mainnet_example_requirement seller) (validate-build_mainnet_example_requirement seller)

refuses_two_options :
    validate_base_mainnet_payment_requirements
      (build_mainnet_example_requirement seller ∷ build_mainnet_example_requirement seller ∷ [])
      seller
    ≡ bad "Expected exactly one acceptable payment option."
unfolding validate_base_mainnet_payment_requirements
refuses_two_options = refl

-- An option of another network is passed over.
abbrev options : List PaymentRequirements
options =
    record (build_mainnet_example_requirement seller) { network = "eip155:84532" }
    ∷ build_mainnet_example_requirement seller
    ∷ []

select-create_policy_example :
    Memᴰ (build_mainnet_example_requirement seller) options
    × IsOffered seller (build_mainnet_example_requirement seller)
unfolding select_mainnet_payment_requirement create_mainnet_payment_policy
    matches_base_mainnet_payment_terms get filter normalize_address to_lower_case
    build_mainnet_example_requirement
select-create_policy_example =
    select-create_policy options seller (build_mainnet_example_requirement seller) refl
