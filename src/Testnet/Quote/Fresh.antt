-- ===== src/Testnet/Quote/Fresh.antt =====
-- pay-quote.ts over config.ts, pay-public-config.ts and payment-policy.ts: terms that were just
-- validated can be paid.
use x402_worker_template.Prelude.{
  String, true, false, none, some, List, [], ◌∷◌, ◌≡◌, refl, arith, nat_eq, str_eq, str_eq_refl,
  length,
}
use x402_worker_template.Js.Text.{utf16_length, trim, to_lower_case}
use x402_worker_template.Policy.{PaymentRequirements, normalize_address}
use x402_worker_template.Sdk.{PaymentRequired}
use x402_worker_template.Testnet.Config.{
  ResolvedConfig, PayPublicConfig, is_dead_pay_to_address, build_pay_public_config,
}
use x402_worker_template.Testnet.Policy.{
  ok, matches_base_sepolia_payment_terms, validate_base_sepolia_payment_requirements,
}
use x402_worker_template.Testnet.Quote.{
  PaymentQuote, create_payment_quote, build_config_fingerprint, ready, quote_error, signing_error,
  evaluate_payment_readiness, assert_quote_ready_for_signing,
}

-- One option is accepted, and it matches.
validate-matches :
    (rs : List PaymentRequirements) (pay_to : String) (r : PaymentRequirements)
    → validate_base_sepolia_payment_requirements rs pay_to ≡ ok r
    → (length rs ≡ 1) × (matches_base_sepolia_payment_terms r pay_to ≡ true)
unfolding validate_base_sepolia_payment_requirements length
validate-matches [] pay_to r h = ground arith
validate-matches (x ∷ []) pay_to r h = ground arith
validate-matches (x ∷ y ∷ rs) pay_to r h = ground arith

module _ (required : PaymentRequired) (r : PaymentRequirements) (c : ResolvedConfig)
    (account url query id : String) where
  abbrev config : PayPublicConfig
  config = build_pay_public_config c

  abbrev quote : PaymentQuote
  quote = create_payment_quote required r config account config.chain_id url query id

  quote-signing_error :
      (length required.accepts ≡ 1)
      → matches_base_sepolia_payment_terms r c.pay_to_address ≡ true
      → nat_eq (utf16_length (trim url)) 0 ≡ false
      → signing_error quote account config.chain_id config ≡ none
  unfolding signing_error create_payment_quote build_pay_public_config
      matches_base_sepolia_payment_terms normalize_address
  quote-signing_error single m u =
      ground
        (arith, str_eq_refl (to_lower_case account), str_eq_refl (to_lower_case c.pay_to_address))

  quote-readiness :
      (length required.accepts ≡ 1)
      → matches_base_sepolia_payment_terms r c.pay_to_address ≡ true
      → is_dead_pay_to_address c.pay_to_address ≡ false
      → str_eq account "" ≡ false
      → evaluate_payment_readiness (record {
        public_config = some config;
        account = some account;
        chain_id = some config.chain_id;
        expected_chain_id = config.chain_id;
        quote = some quote;
        pending_action = none;
        attempt_started = false;
        payment_attempt_completed = false;
      })
        ≡ ready
  unfolding evaluate_payment_readiness quote_error create_payment_quote build_pay_public_config
  quote-readiness single m alive connected = ground (
    arith,
    str_eq_refl (to_lower_case account),
    str_eq_refl (build_config_fingerprint (build_pay_public_config c)),
  )

  -- A quote that is made of the one option that the policy accepts, for a configuration whose
  -- seller is not the placeholder, a connected account on the configured chain and a URL that is
  -- not blank, may be signed at once for that account and chain.
  pub create_payment_quote-ready :
      validate_base_sepolia_payment_requirements required.accepts c.pay_to_address ≡ ok r
      → is_dead_pay_to_address c.pay_to_address ≡ false
      → str_eq account "" ≡ false
      → nat_eq (utf16_length (trim url)) 0 ≡ false
      → assert_quote_ready_for_signing
          (create_payment_quote required r
            (build_pay_public_config c)
            account
            (build_pay_public_config c).chain_id
            url
            query
            id)
          account
          (build_pay_public_config c).chain_id
          (build_pay_public_config c)
        ≡ ready
  unfolding assert_quote_ready_for_signing
  create_payment_quote-ready h alive connected u =
      let (single, m) = validate-matches required.accepts c.pay_to_address r h in
      rw (quote-readiness single m alive connected, quote-signing_error single m u) refl
