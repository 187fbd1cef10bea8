-- ===== src/Testnet/Page/Actions.antt =====
-- pay-main.ts: the buttons of the page, and what ends an action.
use x402_worker_template.Prelude.{
  ℕ, String, Bool, true, false, ◌&&◌, Option, none, some, ◌∷◌, if◌then◌else◌,
}
use x402_worker_template.Client.Sanitize.{
  Thrown, sanitize_provider_error_message, classify_provider_error, sanitize_for_dom,
}
use x402_worker_template.Testnet.Config.{PayPublicConfig}
use x402_worker_template.Testnet.Quote.{PaymentQuote, truthy}
use x402_worker_template.Testnet.Terms.{TermsLoadResult}
use x402_worker_template.Testnet.Executor.{
  PaymentStatus, PaymentExecutionResult, rejected_by_user, failure, potentially_submitted,
}
use x402_worker_template.Testnet.Executor as Executor
use x402_worker_template.Testnet.Wallet.{
  connect, switch_network, load_terms, confirm_payment, sign_and_submit, TerminalStatus, succeeded,
  uncertain, WalletControllerState, start, reset, can_start_action, reset_wallet_controller_state,
}
use x402_worker_template.Testnet.Page.{
  Deps, Clients, requesting_accounts, switching_chain, loading, paying, Page,
}

-- The clicks. An action that may start is pending until its last call is answered.
unfoldable pub connect_wallet : Page → Page
unfolding can_start_action
connect_wallet w =
    if can_start_action w.state (start connect) && w.provider
    then record w {
      calls = requesting_accounts ∷ w.calls;
      state = record w.state {
        pending_action = some connect;
        user_rejected = false;
        error_message = none;
      };
    }
    else w

unfoldable pub click_switch_network : Page → Page
unfolding can_start_action
click_switch_network w =
    if can_start_action w.state (start switch_network) && w.provider
    then record w {
      calls = switching_chain ∷ w.calls;
      state = record w.state { pending_action = some switch_network };
    }
    else w

-- `none` in place of a configuration, an account or a chain stops the action.
abbrev pub load_with :
    Deps → String → Option PayPublicConfig → Option String → Option ℕ → Page → Page
load_with d id (some config) (some account) (some chain_id) w = record w {
  calls =
      loading (record {
        origin = d.origin;
        public_config = config;
        account = account;
        chain_id = chain_id;
        query_value = "browser-demo";
        quote_id = id;
      })
      ∷ w.calls;
  state = record w.state { pending_action = some load_terms; error_message = none };
}
load_with d id config account chain_id w = w

-- `id` is the identifier that a quote takes.
unfoldable pub click_load_terms : Deps → String → Page → Page
unfolding can_start_action
click_load_terms d id w =
    if can_start_action w.state (start load_terms)
    then load_with d id w.state.public_config (truthy w.state.account) w.state.chain_id w
    else w

unfoldable pub review_payment : Page → Page
unfolding can_start_action
review_payment w =
    if can_start_action w.state (start confirm_payment)
    then record w { state = record w.state { awaiting_confirmation = true; error_message = none } }
    else w

-- `paymentClients ?? createPaymentClients(…)`.
abbrev pub clients_or_new : Option Clients → String → String → Clients
clients_or_new (some c) account seller = c
clients_or_new none account seller = record { account = account; expected_seller_address = seller }

abbrev pub sign_with :
    Option PayPublicConfig → Option PaymentQuote → Option String → Option ℕ → Page → Page
sign_with (some config) (some quote) (some account) (some chain_id) w =
    let clients = clients_or_new w.payment_clients account config.seller_address in
    record w {
      payment_clients = some clients;
      calls =
          paying (record {
            clients = clients;
            quote = quote;
            public_config = config;
            account = account;
            chain_id = chain_id;
          })
          ∷ w.calls;
      state = record w.state {
        pending_action = some sign_and_submit;
        attempt_started = true;
        error_message = none;
      };
    }
sign_with config quote account chain_id w = w

unfoldable pub click_sign_and_submit : Page → Page
unfolding can_start_action
click_sign_and_submit w =
    let s = w.state in
    if can_start_action s (start sign_and_submit) && w.provider
    then sign_with s.public_config s.quote (truthy s.account) s.chain_id w
    else w

unfoldable pub click_reset : Page → Page
unfolding can_start_action reset_wallet_controller_state
click_reset w =
    if can_start_action w.state reset
    then record w { payment_clients = none; state = reset_wallet_controller_state w.state }
    else w

-- The ends of the actions, for the state when the answer comes.
unfoldable pub end_provider_error : Thrown → WalletControllerState → WalletControllerState
unfolding classify_provider_error
end_provider_error error s =
    let classified = classify_provider_error error in
    record s {
      error_message = some classified.message;
      user_rejected = classified.rejected;
      pending_action = none;
    }

-- `none`: the promise is rejected.
unfoldable pub end_load_terms :
    Deps → Option TermsLoadResult → WalletControllerState → WalletControllerState
unfolding sanitize_provider_error_message
end_load_terms d none s = record s {
  error_message = some (sanitize_provider_error_message d.invalid_url);
  pending_action = none;
}
end_load_terms d (some (TermsLoadResult.bad reason)) s = record s {
  error_message = some reason;
  pending_action = none;
}
end_load_terms d (some (TermsLoadResult.ok quote)) s = record s {
  quote = some quote;
  awaiting_confirmation = false;
  pending_action = none;
}

abbrev is_rejection : PaymentStatus → Bool
is_rejection rejected_by_user = true
is_rejection status = false

abbrev terminal_of : PaymentStatus → Option TerminalStatus → Option TerminalStatus
terminal_of potentially_submitted before = some uncertain
terminal_of status before = before

unfoldable pub end_payment : PaymentExecutionResult → WalletControllerState → WalletControllerState
unfolding sanitize_for_dom
end_payment (Executor.succeeded body settlement requests signatures) s = record s {
  pending_action = none;
  payment_attempt_completed = true;
  terminal_status = some succeeded;
  execution_stage = none;
  awaiting_confirmation = false;
  error_message = none;
}
end_payment (Executor.stopped status reason diagnostic requests signatures began) s = record s {
  pending_action = none;
  payment_attempt_completed = true;
  execution_stage = none;
  error_message = some (sanitize_for_dom reason);
  user_rejected = if is_rejection status then true else s.user_rejected;
  terminal_status = terminal_of status s.terminal_status;
}
