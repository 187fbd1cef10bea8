-- ===== src/Policy/Laws.antt =====
-- payment-policy.mainnet.ts: which terms the server accepts.
use mathlib.Core.List.{Memᴰ}
use mathlib.Core.Option.{some_inj}
use x402_worker_template.Prelude.{
  String, List, [], ◌∷◌, ◌≡◌, true, false, none, some, inl, inr, refl, sym, subst, ap, arith,
  filter, str_eq, Bool-cases, str_eq_iff, str_eq_refl,
}
use x402_worker_template.Js.{Value, text, get}
use x402_worker_template.Js.Text.{to_lower_case}
use x402_worker_template.Policy.{
  PaymentRequirements, ok, mainnet_network, mainnet_payment_amount, mainnet_usdc_asset,
  mainnet_max_timeout_seconds, normalize_address, is_text, matches_base_mainnet_payment_terms,
  validate_base_mainnet_payment_requirements, build_mainnet_example_requirement,
  create_mainnet_payment_policy, select_mainnet_payment_requirement,
  reject_non_mainnet_payment_terms, base_usdbc_asset, legacy_incorrect_usdbc_placeholder,
  base_sepolia_usdc,
}

-- The terms of the policy: asset and payee up to the case of their letters.
pub record IsOffered (seller : String) (r : PaymentRequirements) : Type 0 where
  scheme : r.scheme ≡ "exact"
  network : r.network ≡ mainnet_network
  amount : r.amount ≡ mainnet_payment_amount
  asset : normalize_address r.asset ≡ normalize_address mainnet_usdc_asset
  payee : normalize_address r.pay_to ≡ normalize_address seller
  timeout : r.max_timeout_seconds ≡ mainnet_max_timeout_seconds
  name : get "name" r.extra ≡ text "USD Coin"
  version : get "version" r.extra ≡ text "2"

pub is_text_sound : (v : Value) (s : String) → is_text v s ≡ true → v ≡ text s
is_text_sound (text x) s h = ap text ((str_eq_iff x s).0 h)
is_text_sound v s h = ground arith

matches-IsOffered :
    (r : PaymentRequirements) (seller : String)
    → matches_base_mainnet_payment_terms r seller ≡ true
    → IsOffered seller r
unfolding matches_base_mainnet_payment_terms
matches-IsOffered r seller h = ground (
  arith,
  str_eq_iff r.scheme "exact",
  str_eq_iff r.network mainnet_network,
  str_eq_iff r.amount mainnet_payment_amount,
  str_eq_iff (normalize_address r.asset) (normalize_address mainnet_usdc_asset),
  str_eq_iff (normalize_address r.pay_to) (normalize_address seller),
  is_text_sound (get "name" r.extra) "USD Coin",
  is_text_sound (get "version" r.extra) "2",
)

-- Terms are accepted only if they are a single option, and this option is the policy's: the exact
-- scheme, 1000 units of USDC on Base mainnet to the seller, within 300 seconds.
pub validate-IsOffered :
    (rs : List PaymentRequirements) (seller : String) (r : PaymentRequirements)
    → validate_base_mainnet_payment_requirements rs seller ≡ ok r
    → (rs ≡ r ∷ []) × IsOffered seller r
unfolding validate_base_mainnet_payment_requirements
validate-IsOffered [] seller r h = ground arith
validate-IsOffered (x ∷ []) seller r h = ground (arith, matches-IsOffered x seller)
validate-IsOffered (x ∷ y ∷ rs) seller r h = ground arith

-- What `buildMainnetExampleRequirement` builds passes the policy.
pub validate-build_mainnet_example_requirement :
    (seller : String)
    → validate_base_mainnet_payment_requirements
        (build_mainnet_example_requirement seller ∷ [])
        seller
      ≡ ok (build_mainnet_example_requirement seller)
unfolding validate_base_mainnet_payment_requirements matches_base_mainnet_payment_terms
    build_mainnet_example_requirement get
validate-build_mainnet_example_requirement seller =
    rw (str_eq_refl (normalize_address seller), str_eq_refl (normalize_address mainnet_usdc_asset))
      refl

-- The asset of the policy is none of the three that are refused by name.
other_assets :
    (a : String)
    → a ≡ normalize_address mainnet_usdc_asset
    → (str_eq a (normalize_address base_usdbc_asset) ≡ false)
      × (str_eq a (normalize_address legacy_incorrect_usdbc_placeholder) ≡ false)
      × (str_eq a (normalize_address base_sepolia_usdc) ≡ false)
unfolding normalize_address to_lower_case
other_assets a e = rw e (refl, refl, refl)

-- Terms that match the policy are not rejected by the check that names the reasons.
pub reject-matches :
    (r : PaymentRequirements) (seller : String)
    → matches_base_mainnet_payment_terms r seller ≡ true
    → reject_non_mainnet_payment_terms r seller ≡ none
unfolding reject_non_mainnet_payment_terms
reject-matches r seller h =
    let t = matches-IsOffered r seller h in
    let (usdbc, legacy, sepolia) = other_assets (normalize_address r.asset) t.asset in
    rw
      (
        t.network,
        usdbc,
        legacy,
        sepolia,
        t.name,
        t.version,
        t.amount,
        t.payee,
        str_eq_refl (normalize_address seller),
      )
      refl

-- Where the selector finds a requirement among those that the policy keeps, the requirement is one
-- of the server's list and has the policy's terms.
pub select-create_policy :
    (rs : List PaymentRequirements) (seller : String) (r : PaymentRequirements)
    → select_mainnet_payment_requirement (create_mainnet_payment_policy seller rs) ≡ some r
    → Memᴰ r rs × IsOffered seller r
unfolding select_mainnet_payment_requirement create_mainnet_payment_policy filter
select-create_policy [] seller r h = ground arith
select-create_policy (x ∷ rs) seller r h =
    elim (Bool-cases (matches_base_mainnet_payment_terms x seller)) [
      | inl e ↦
          let same : x ≡ r = some_inj.0 (rw e at h) in
          (Memᴰ.head (sym same), subst (IsOffered seller) same (matches-IsOffered x seller e))
      | inr e ↦
          let (found, good) = select-create_policy rs seller r (rw e at h) in
          (Memᴰ.tail found, good)
    ]
