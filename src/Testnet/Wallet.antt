-- ===== src/Testnet/Wallet.antt =====
-- src/browser/pay-wallet-state.ts: the state of the testnet page, what it shows of it, and which
-- action may start in it.
use x402_worker_template.Prelude.{
  ℕ, String, Bool, true, false, not, ◌&&◌, ◌||◌, Option, none, some, is_some, str_eq, if◌then◌else◌,
}
use x402_worker_template.Testnet.Config.{PayPublicConfig}
use x402_worker_template.Testnet.Quote.{
  PaymentQuote, Readiness, is_chain, truthy, build_config_fingerprint, evaluate_payment_readiness,
}

pub data WalletState : Type 0 where
  wallet_unavailable disconnected connecting wrong_network ready loading_terms : WalletState
  terms_validated awaiting_confirmation awaiting_wallet_signature : WalletState
  submitting_payment waiting_for_settlement success rejected_by_user failure : WalletState
  potentially_submitted payment_disabled : WalletState

-- Without `null`, which is `none`.
pub data PendingWalletAction : Type 0 where
  connect switch_network load_terms confirm_payment sign_and_submit : PendingWalletAction

pub data ExecutionStage : Type 0 where
  awaiting_signature submitting waiting : ExecutionStage

pub data TerminalStatus : Type 0 where
  succeeded uncertain : TerminalStatus

-- `none` is `null`. A chain id that is NaN is `none` too: it is no chain that is expected.
pub record WalletControllerState : Type 0 where
  pub has_provider : Bool
  pub account : Option String
  pub chain_id : Option ℕ
  pub expected_chain_id : ℕ
  pub public_config : Option PayPublicConfig
  pub quote : Option PaymentQuote
  pub pending_action : Option PendingWalletAction
  pub user_rejected : Bool
  pub error_message : Option String
  pub attempt_started : Bool
  pub payment_attempt_completed : Bool
  pub awaiting_confirmation : Bool
  pub execution_stage : Option ExecutionStage
  pub terminal_status : Option TerminalStatus

-- The texts of the source's union types.
state_name : WalletState → String
state_name WalletState.wallet_unavailable = "wallet-unavailable"
state_name WalletState.disconnected = "disconnected"
state_name WalletState.connecting = "connecting"
state_name WalletState.wrong_network = "wrong-network"
state_name WalletState.ready = "ready"
state_name WalletState.loading_terms = "loading-terms"
state_name WalletState.terms_validated = "terms-validated"
state_name WalletState.awaiting_confirmation = "awaiting-confirmation"
state_name WalletState.awaiting_wallet_signature = "awaiting-wallet-signature"
state_name WalletState.submitting_payment = "submitting-payment"
state_name WalletState.waiting_for_settlement = "waiting-for-settlement"
state_name WalletState.success = "success"
state_name WalletState.rejected_by_user = "rejected-by-user"
state_name WalletState.failure = "failure"
state_name WalletState.potentially_submitted = "potentially-submitted"
state_name WalletState.payment_disabled = "payment-disabled"

action_name : PendingWalletAction → String
action_name connect = "connect"
action_name switch_network = "switch-network"
action_name load_terms = "load-terms"
action_name confirm_payment = "confirm-payment"
action_name sign_and_submit = "sign-and-submit"

abbrev names_of : Option PendingWalletAction → Option String
names_of none = none
names_of (some a) = some (action_name a)

-- The state that a status, a stage or an action leads to, if it is one of those that are tested.
terminal_state : Option TerminalStatus → Option WalletState
terminal_state none = none
terminal_state (some succeeded) = some WalletState.success
terminal_state (some uncertain) = some WalletState.potentially_submitted

execution_state : Option ExecutionStage → Option WalletState
execution_state none = none
execution_state (some awaiting_signature) = some WalletState.awaiting_wallet_signature
execution_state (some submitting) = some WalletState.submitting_payment
execution_state (some waiting) = some WalletState.waiting_for_settlement

pending_state : Option PendingWalletAction → Option WalletState
pending_state (some connect) = some WalletState.connecting
pending_state (some load_terms) = some WalletState.loading_terms
pending_state (some sign_and_submit) = some WalletState.awaiting_wallet_signature
pending_state a = none

abbrev or_state : Option WalletState → WalletState → WalletState
or_state none s = s
or_state (some t) s = t

abbrev disabled : Option PayPublicConfig → Bool
disabled none = false
disabled (some config) = not config.payment_ready || config.seller_is_placeholder

-- The last checks, where nothing is going on.
idle_state : WalletControllerState → WalletState
idle_state s =
    let in_error = is_some (truthy s.error_message) in
    if not (is_some (truthy s.account))
    then (if in_error then WalletState.failure else WalletState.disconnected)
    else (if not (is_chain s.chain_id s.expected_chain_id)
        then WalletState.wrong_network
        else (if s.awaiting_confirmation && is_some s.quote
            then WalletState.awaiting_confirmation
            else (if is_some s.quote
                then WalletState.terms_validated
                else (if in_error then WalletState.failure else WalletState.ready))))

unfoldable pub derive_wallet_state : WalletControllerState → WalletState
unfolding terminal_state execution_state pending_state idle_state
derive_wallet_state s =
    let ended = terminal_state s.terminal_status in
    let running = execution_state s.execution_stage in
    if not s.has_provider
    then WalletState.wallet_unavailable
    else (if disabled s.public_config
        then or_state ended (or_state running WalletState.payment_disabled)
        else or_state ended (
            if s.user_rejected
            then WalletState.rejected_by_user
            else or_state running (or_state (pending_state s.pending_action) (idle_state s))))

is_loading : Option PendingWalletAction → Bool
is_loading (some load_terms) = true
is_loading a = false

unfoldable pub derive_validation_state_label : WalletControllerState → WalletState → String
unfolding is_loading
derive_validation_state_label s WalletState.success = "settled"
derive_validation_state_label s WalletState.potentially_submitted = "uncertain"
derive_validation_state_label s other =
    if not (is_some s.quote)
    then (if is_loading s.pending_action then "loading" else "not loaded")
    else (if s.awaiting_confirmation then "awaiting confirmation" else "validated")

-- `===` on accounts and on chain ids that may be `null`.
abbrev same_account : Option String → Option String → Bool
same_account none none = true
same_account (some a) (some b) = str_eq a b
same_account a b = false

abbrev same_chain : Option ℕ → Option ℕ → Bool
same_chain none none = true
same_chain a (some n) = is_chain a n
same_chain a none = false

unfoldable pub clear_quote_on_account_change :
    Option String → Option String → Option PaymentQuote → Option PaymentQuote
clear_quote_on_account_change previous next quote =
    if not (same_account previous next) then none else quote

unfoldable pub clear_quote_on_chain_change :
    Option ℕ → Option ℕ → Option PaymentQuote → Option PaymentQuote
clear_quote_on_chain_change previous next quote =
    if not (same_chain previous next) then none else quote

unfoldable pub clear_quote_on_config_change :
    Option PaymentQuote → Option PayPublicConfig → Option PaymentQuote
unfolding build_config_fingerprint
clear_quote_on_config_change none config = none
clear_quote_on_config_change (some q) none = some q
clear_quote_on_config_change (some q) (some config) =
    if not (str_eq q.config_fingerprint (build_config_fingerprint config)) then none else some q

-- What a button may start.
pub data WalletAction : Type 0 where
  start : PendingWalletAction → WalletAction
  reset : WalletAction

abbrev is_ready : Readiness → Bool
is_ready Readiness.ready = true
is_ready (Readiness.not_ready reason) = false

-- `evaluatePaymentReadiness` of the state.
unfoldable pub is_payment_ready : WalletControllerState → Bool
unfolding evaluate_payment_readiness action_name
is_payment_ready s = is_ready (
    evaluate_payment_readiness (record {
      public_config = s.public_config;
      account = s.account;
      chain_id = s.chain_id;
      expected_chain_id = s.expected_chain_id;
      quote = s.quote;
      pending_action = names_of s.pending_action;
      attempt_started = s.attempt_started;
      payment_attempt_completed = s.payment_attempt_completed;
    }))

-- The cases of the `switch`.
can_start_pending : WalletControllerState → PendingWalletAction → Bool
unfolding is_payment_ready
can_start_pending s connect = s.has_provider && not (is_some s.account)
can_start_pending s switch_network =
    s.has_provider && is_some s.account && not (is_chain s.chain_id s.expected_chain_id)
can_start_pending s load_terms =
    s.has_provider
    && is_some s.account
    && is_chain s.chain_id s.expected_chain_id
    && not (is_some s.quote)
    && not s.payment_attempt_completed
can_start_pending s confirm_payment =
    is_some s.quote && not s.awaiting_confirmation && not s.payment_attempt_completed
can_start_pending s sign_and_submit = is_payment_ready s && s.awaiting_confirmation

unfoldable pub can_start_action : WalletControllerState → WalletAction → Bool
unfolding can_start_pending
can_start_action s reset = not (is_some s.pending_action) && not (is_some s.execution_stage)
can_start_action s (start a) =
    if is_some s.pending_action || is_some s.execution_stage || is_some s.terminal_status
    then false
    else can_start_pending s a

unfoldable pub reset_wallet_controller_state : WalletControllerState → WalletControllerState
reset_wallet_controller_state s = record s {
  quote = none;
  pending_action = none;
  user_rejected = false;
  error_message = none;
  attempt_started = false;
  payment_attempt_completed = false;
  awaiting_confirmation = false;
  execution_stage = none;
  terminal_status = none;
}

unfoldable pub invalidate_payment_session : WalletControllerState → WalletControllerState
invalidate_payment_session s = record s {
  quote = none;
  awaiting_confirmation = false;
  attempt_started = false;
  execution_stage = none;
  user_rejected = false;
  error_message = none;
}
