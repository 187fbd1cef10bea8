-- ===== src/Testnet/Page.antt =====
-- src/browser/pay-main.ts: the testnet page's controller. An asynchronous method is its part up to
-- the first `await` and its parts behind each one; what it waits for is a call, and calls are
-- answered in any order. The redrawing at each change is not modelled.
pub mod Actions
pub mod Steps
pub mod Sound
pub mod Answers
pub mod Same
pub mod Once
pub mod Tests
use x402_worker_template.Prelude.{
  ℕ, String, Bool, true, false, not, ◌&&◌, Option, none, some, List, [], ◌∷◌, if◌then◌else◌,
}
use x402_worker_template.Js.{Value, number, text, array, cons, null}
use x402_worker_template.Client.Sanitize.{
  Thrown, starts_with, sanitize_provider_error_message, classify_provider_error, sanitize_for_dom,
}
use x402_worker_template.Testnet.Config.{PayPublicConfig}
use x402_worker_template.Testnet.Quote.{PaymentQuote, truthy}
use x402_worker_template.Testnet.Terms.{LoadOptions, TermsLoadResult}
use x402_worker_template.Testnet.Terms as Terms
use x402_worker_template.Testnet.Executor.{
  PaymentStatus, PaymentExecutionResult, rejected_by_user, failure, potentially_submitted,
}
use x402_worker_template.Testnet.Executor as Executor
use x402_worker_template.Testnet.Wallet.{
  PendingWalletAction, connect, switch_network, load_terms, confirm_payment, sign_and_submit,
  ExecutionStage, TerminalStatus, succeeded, uncertain, WalletControllerState,
  clear_quote_on_account_change, clear_quote_on_chain_change, clear_quote_on_config_change, start,
  reset, can_start_action, reset_wallet_controller_state, invalidate_payment_session,
}

-- What the page takes from its browser: `Number.parseInt` in a base (`none` is NaN), the value of a
-- number's JSON text, the terms loader's part, the error that `new URL` throws, and the page's
-- origin.
pub record Deps : Type 0 where
  pub parse_int : ℕ → String → Option ℕ
  pub to_number : String → Option ℕ
  pub terms_page : Terms.Page
  pub invalid_url : Thrown
  pub origin : String

-- What `createBrowserPaymentClients` is given, next to the provider.
pub record Clients : Type 0 where
  pub account : String
  pub expected_seller_address : String

-- A call of `executePayment`.
pub record Payment : Type 0 where
  pub clients : Clients
  pub quote : PaymentQuote
  pub public_config : PayPublicConfig
  pub account : String
  pub chain_id : ℕ

-- What an action waits for.
pub data Call : Type 0 where
  requesting_accounts switching_chain : Call
  asking_accounts asking_chain : PendingWalletAction → Call
  loading : LoadOptions → Call
  paying : Payment → Call

-- `provider` tells whether there is one; `fetching_config` whether `bootstrap` waits.
pub record Page : Type 0 where
  pub state : WalletControllerState
  pub provider : Bool
  pub payment_clients : Option Clients
  pub fetching_config : Bool
  pub calls : List Call

unfoldable pub parse_chain_id : Deps → Value → Option ℕ
unfolding starts_with
parse_chain_id d (text s) = d.parse_int (if starts_with "0x" s then 16 else 10) s
parse_chain_id d (number n) = d.to_number n
parse_chain_id d v = none

-- The first account of a list whose first element is a text.
unfoldable pub first_account : Value → Option String
first_account (array (cons (text s) items)) = some s
first_account v = none

unfoldable pub new_page : Bool → Page
new_page provider = record {
  state = record {
    has_provider = provider;
    account = none;
    chain_id = none;
    expected_chain_id = 84532;
    public_config = none;
    quote = none;
    pending_action = none;
    user_rejected = false;
    error_message = none;
    attempt_started = false;
    payment_attempt_completed = false;
    awaiting_confirmation = false;
    execution_stage = none;
    terminal_status = none;
  };
  provider = provider;
  payment_clients = none;
  fetching_config = true;
  calls = [];
}

unfoldable pub on_accounts_changed : Value → Page → Page
unfolding clear_quote_on_account_change invalidate_payment_session first_account
on_accounts_changed accounts w =
    let next = first_account accounts in
    let quote = clear_quote_on_account_change w.state.account next w.state.quote in
    let changed = record w.state { quote = quote; account = next } in
    record w {
      payment_clients = none;
      state = record (invalidate_payment_session changed) { user_rejected = false };
    }

unfoldable pub on_chain_changed : Deps → Value → Page → Page
unfolding clear_quote_on_chain_change invalidate_payment_session parse_chain_id
on_chain_changed d chain_id w =
    let next = parse_chain_id d chain_id in
    let quote = clear_quote_on_chain_change w.state.chain_id next w.state.quote in
    let changed = record w.state { quote = quote; chain_id = next } in
    record w { payment_clients = none; state = invalidate_payment_session changed }

-- The answer to `GET /pay/config`: `bootstrap` gets a configuration, or it throws.
pub data ConfigAnswer : Type 0 where
  configured : PayPublicConfig → ConfigAnswer
  threw : Thrown → ConfigAnswer

abbrev pub with_state : WalletControllerState → Page → Page
with_state s w = record w { state = s }

unfoldable pub end_bootstrap : ConfigAnswer → WalletControllerState → WalletControllerState
unfolding clear_quote_on_config_change sanitize_provider_error_message
end_bootstrap (configured config) s = record s {
  public_config = some config;
  expected_chain_id = config.chain_id;
  quote = clear_quote_on_config_change s.quote (some config);
}
end_bootstrap (threw error) s = record s {
  error_message = some (sanitize_provider_error_message error);
}
