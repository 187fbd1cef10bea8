-- ===== src/Testnet/Quote.antt =====
-- src/browser/pay-quote.ts: the terms that were loaded, bound to the account, the chain and the
-- configuration that they were loaded for.
pub mod Laws
pub mod Fresh
pub mod Tests
use Prim.Native.String.{◌++◌}
use x402_worker_template.Prelude.{
  ℕ, String, Bool, true, false, not, ◌||◌, Option, none, some, is_some, List, [], ◌∷◌, nat_eq,
  str_eq, length, if◌then◌else◌,
}
use x402_worker_template.Js.{get}
use x402_worker_template.Js.Text.{utf16_length, trim, to_lower_case, decimal}
use x402_worker_template.Policy.{PaymentRequirements, is_text}
use x402_worker_template.Sdk.{PaymentRequired}
use x402_worker_template.Testnet.Config.{PayPublicConfig}
use x402_worker_template.Testnet.Policy.{matches_base_sepolia_payment_terms}

pub record PaymentQuote : Type 0 where
  quote_id : String
  pub payment_required : PaymentRequired
  pub requirement : PaymentRequirements
  pub request_url : String
  query_value : String
  pub account : String
  pub chain_id : ℕ
  pub seller_address : String
  pub config_fingerprint : String
  consumed : Bool

-- `join("|")`.
join : List String → String
join [] = ""
join (s ∷ []) = s
join (s ∷ t ∷ ts) = s ++ "|" ++ join (t ∷ ts)

unfoldable pub build_config_fingerprint : PayPublicConfig → String
unfolding join decimal
build_config_fingerprint c = join (
    c.service_name
    ∷ c.paid_route
    ∷ c.allowed_query_key
    ∷ c.atomic_amount
    ∷ c.token_contract
    ∷ c.caip2_network
    ∷ decimal c.chain_id
    ∷ c.eip712_name
    ∷ c.eip712_version
    ∷ decimal c.timeout
    ∷ c.seller_address
    ∷ (if c.payment_ready then "true" else "false")
    ∷ [])

-- The arguments of `createPaymentQuote`, with the identifier that is made where none is given. The
-- summary of a quote is text for the page.
pub create_payment_quote :
    PaymentRequired
    → PaymentRequirements
    → PayPublicConfig
    → String
    → ℕ
    → String
    → String
    → String
    → PaymentQuote
unfolding build_config_fingerprint
create_payment_quote required requirement config account chain_id url query id = record {
  quote_id = id;
  payment_required = required;
  requirement = requirement;
  request_url = url;
  query_value = query;
  account = account;
  chain_id = chain_id;
  seller_address = config.seller_address;
  config_fingerprint = build_config_fingerprint config;
  consumed = false;
}

pub record PaymentReadinessInput : Type 0 where
  pub public_config : Option PayPublicConfig
  pub account : Option String
  pub chain_id : Option ℕ
  pub expected_chain_id : ℕ
  pub quote : Option PaymentQuote
  pub pending_action : Option String
  pub attempt_started : Bool
  pub payment_attempt_completed : Bool

-- Ready, or the reason that it is not.
pub data Readiness : Type 0 where
  ready : Readiness
  not_ready : String → Readiness

abbrev pub is_chain : Option ℕ → ℕ → Bool
is_chain none n = false
is_chain (some m) n = nat_eq m n

-- A text that is not empty.
abbrev pub truthy : Option String → Option String
truthy none = none
truthy (some s) = if str_eq s "" then none else some s

-- The checks on a quote, in the source's order.
quote_error : PaymentReadinessInput → PayPublicConfig → String → PaymentQuote → Option String
unfolding to_lower_case build_config_fingerprint length
quote_error i config account q =
    if q.consumed || i.attempt_started
    then some "This quote has already been used."
    else (if i.payment_attempt_completed
        then some "Load fresh payment terms before attempting another payment."
        else (if is_some i.pending_action
            then some "Another action is already in progress."
            else (if not (str_eq (to_lower_case q.account) (to_lower_case account))
                then some "Loaded terms do not match the connected account."
                else (if not (is_chain i.chain_id q.chain_id)
                    then some "Loaded terms do not match the current chain."
                    else (if not (str_eq q.config_fingerprint (build_config_fingerprint config))
                        then some "Loaded terms do not match the current configuration."
                        else (if not (nat_eq (length q.payment_required.accepts) 1)
                            then some "Expected exactly one payment option."
                            else (if not (
                                  matches_base_sepolia_payment_terms q.requirement
                                    config.seller_address)
                                then some "Loaded terms failed policy validation."
                                else none)))))))

abbrev readiness_of : Option String → Readiness
readiness_of none = ready
readiness_of (some reason) = not_ready reason

abbrev with_quote :
    PaymentReadinessInput → PayPublicConfig → String → Option PaymentQuote → Readiness
with_quote i config account none = not_ready "Payment terms have not been loaded."
with_quote i config account (some q) = readiness_of (quote_error i config account q)

abbrev with_account : PaymentReadinessInput → PayPublicConfig → Option String → Readiness
with_account i config none = not_ready "Wallet is not connected."
with_account i config (some account) =
    if not (is_chain i.chain_id i.expected_chain_id)
    then not_ready "Wallet is not on Base Sepolia."
    else with_quote i config account i.quote

abbrev with_config : PaymentReadinessInput → Option PayPublicConfig → Readiness
with_config i none = not_ready "Public payment configuration is unavailable."
with_config i (some config) =
    if not config.payment_ready || config.seller_is_placeholder
    then not_ready "Payment remains disabled until a real seller address is configured."
    else with_account i config (truthy i.account)

unfoldable pub evaluate_payment_readiness : PaymentReadinessInput → Readiness
unfolding quote_error
evaluate_payment_readiness i = with_config i i.public_config

-- The checks behind the readiness, in the source's order.
signing_error : PaymentQuote → String → ℕ → PayPublicConfig → Option String
unfolding to_lower_case trim utf16_length get length
signing_error q account chain_id config =
    if q.consumed
    then some "This quote has already been consumed."
    else (if nat_eq (utf16_length (trim q.request_url)) 0
        then some "Quote URL is missing."
        else (if not (str_eq (to_lower_case q.account) (to_lower_case account))
            then some "Connected account changed since terms were loaded."
            else (if not (nat_eq q.chain_id chain_id)
                then some "Connected chain changed since terms were loaded."
                else (if not (
                      str_eq (to_lower_case q.seller_address) (to_lower_case config.seller_address))
                    then some "Seller address changed since terms were loaded."
                    else (if not (str_eq q.requirement.amount config.atomic_amount)
                        then some "Payment amount changed since terms were loaded."
                        else (if not (
                              str_eq (to_lower_case q.requirement.asset)
                                (to_lower_case config.token_contract))
                            then some "Payment token changed since terms were loaded."
                            else (if not (nat_eq q.requirement.max_timeout_seconds config.timeout)
                                then some "Payment timeout changed since terms were loaded."
                                else domain_error q config)))))))
  where
    -- The last four checks.
    domain_error : PaymentQuote → PayPublicConfig → Option String
    domain_error q config =
        if not (is_text (get "name" q.requirement.extra) config.eip712_name)
        then some "EIP-712 domain name changed since terms were loaded."
        else (if not (is_text (get "version" q.requirement.extra) config.eip712_version)
            then some "EIP-712 domain version changed since terms were loaded."
            else (if not (nat_eq (length q.payment_required.accepts) 1)
                then some "Expected exactly one payment option."
                else (if not
                      (matches_base_sepolia_payment_terms q.requirement config.seller_address)
                    then some "Payment terms no longer match policy."
                    else none)))

abbrev or_signing_error : Readiness → Option String → Readiness
or_signing_error (not_ready reason) e = not_ready reason
or_signing_error ready e = readiness_of e

unfoldable pub assert_quote_ready_for_signing :
    PaymentQuote → String → ℕ → PayPublicConfig → Readiness
unfolding evaluate_payment_readiness signing_error
assert_quote_ready_for_signing q account chain_id config =
    or_signing_error
      (evaluate_payment_readiness (record {
        public_config = some config;
        account = some account;
        chain_id = some chain_id;
        expected_chain_id = config.chain_id;
        quote = some q;
        pending_action = none;
        attempt_started = false;
        payment_attempt_completed = false;
      }))
      (signing_error q account chain_id config)

abbrev pub mark_quote_consumed : PaymentQuote → PaymentQuote
mark_quote_consumed q = record q { consumed = true }
