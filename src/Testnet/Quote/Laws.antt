-- ===== src/Testnet/Quote/Laws.antt =====
-- pay-quote.ts: when a quote may be signed.
use x402_worker_template.Prelude.{
  ℕ, String, true, false, none, ◌≡◌, ◌≢◌, arith, str_eq, str_eq_iff, length,
}
use x402_worker_template.Js.Text.{utf16_length, trim, to_lower_case}
use x402_worker_template.Testnet.Config.{PayPublicConfig}
use x402_worker_template.Testnet.Policy.{matches_base_sepolia_payment_terms}
use x402_worker_template.Testnet.Quote.{
  PaymentQuote, build_config_fingerprint, ready, quote_error, signing_error,
  evaluate_payment_readiness, assert_quote_ready_for_signing,
}

-- A quote that may be signed for an account and a chain, under a configuration.
pub record MaySign (q : PaymentQuote) (account : String) (chain_id : ℕ) (config : PayPublicConfig)
    : Type 0 where
  enabled : config.payment_ready ≡ true
  no_placeholder : config.seller_is_placeholder ≡ false
  unused : q.consumed ≡ false
  connected : str_eq account "" ≡ false
  same_account : to_lower_case q.account ≡ to_lower_case account
  same_chain : q.chain_id ≡ chain_id
  expected_chain : chain_id ≡ config.chain_id
  fingerprint : q.config_fingerprint ≡ build_config_fingerprint config
  single : length q.payment_required.accepts ≡ 1
  offered : matches_base_sepolia_payment_terms q.requirement config.seller_address ≡ true
  url : utf16_length (trim q.request_url) ≢ 0
  amount : q.requirement.amount ≡ config.atomic_amount

signing_error-none :
    (q : PaymentQuote) (account : String) (chain_id : ℕ) (config : PayPublicConfig)
    → signing_error q account chain_id config ≡ none
    → (utf16_length (trim q.request_url) ≢ 0) × (q.requirement.amount ≡ config.atomic_amount)
unfolding signing_error
signing_error-none q account chain_id config h =
    (λ e. ground arith, ground (arith, str_eq_iff q.requirement.amount config.atomic_amount))

-- A quote passes the checks before signing only if it is unused, names the connected account and
-- chain, was loaded under this configuration, offers one option, has the policy's terms, a URL and
-- the configured amount, and payments are enabled for a seller that is no placeholder.
pub assert_quote-MaySign :
    (q : PaymentQuote) (account : String) (chain_id : ℕ) (config : PayPublicConfig)
    → assert_quote_ready_for_signing q account chain_id config ≡ ready
    → MaySign q account chain_id config
unfolding assert_quote_ready_for_signing evaluate_payment_readiness quote_error
assert_quote-MaySign q account chain_id config h = record {
  enabled = ground arith;
  no_placeholder = ground arith;
  unused = ground arith;
  connected = ground arith;
  same_account = ground (arith, str_eq_iff (to_lower_case q.account) (to_lower_case account));
  same_chain = ground arith;
  expected_chain = ground arith;
  fingerprint = ground (arith, str_eq_iff q.config_fingerprint (build_config_fingerprint config));
  single = ground arith;
  offered = ground arith;
  url = λ e. ground (arith, signing_error-none q account chain_id config);
  amount = ground (arith, signing_error-none q account chain_id config);
}
