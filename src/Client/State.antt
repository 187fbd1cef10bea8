-- ===== src/Client/State.antt =====
-- src/mainnet/browser/mainnet-pay-state.ts: the state of the payment page.
use x402_worker_template.Prelude.{
  ℕ, String, Bool, true, false, not, ◌&&◌, ◌||◌, Option, none, is_some,
}
use x402_worker_template.Js.{Value, null}
use x402_worker_template.Client.Terms.{MainnetValidatedTerms}
use x402_worker_template.Client.Settlement.{MainnetSafeSettlementView}

pub data MainnetPayUiState : Type 0 where
  idle loading_terms ready signing submitting potentially_submitted polling_status success
        failed_definitive uncertain expired error :
      MainnetPayUiState

pub record MainnetPayControllerState : Type 0 where
  pub ui_state : MainnetPayUiState
  pub terms : Option MainnetValidatedTerms
  pub payment_identifier : Option String
  pub terms_consumed : Bool
  pub attempt_started : Bool
  pub attempt_completed : Bool
  pub error_message : Option String
  pub paid_body : Value
  pub settlement : Option MainnetSafeSettlementView
  pub signing_count : ℕ
  pub payment_bearing_request_count : ℕ
  pub status_poll_count : ℕ
  pub status_message : Option String

abbrev pub create_initial_mainnet_pay_state : MainnetPayControllerState
create_initial_mainnet_pay_state = record {
  ui_state = idle;
  terms = none;
  payment_identifier = none;
  terms_consumed = false;
  attempt_started = false;
  attempt_completed = false;
  error_message = none;
  paid_body = null;
  settlement = none;
  signing_count = 0;
  payment_bearing_request_count = 0;
  status_poll_count = 0;
  status_message = none;
}

abbrev is_busy : MainnetPayUiState → Bool
is_busy loading_terms = true
is_busy signing = true
is_busy submitting = true
is_busy polling_status = true
is_busy u = false

abbrev is_ready : MainnetPayUiState → Bool
is_ready ready = true
is_ready u = false

unfoldable pub can_load_mainnet_terms : MainnetPayControllerState → Bool
can_load_mainnet_terms s =
    not s.attempt_started && not s.attempt_completed && not (is_busy s.ui_state)

unfoldable pub can_submit_mainnet_payment : MainnetPayControllerState → Bool
can_submit_mainnet_payment s =
    is_ready s.ui_state
    && is_some s.terms
    && not s.terms_consumed
    && not s.attempt_started
    && not s.attempt_completed

can_reset_mainnet_payment : MainnetPayControllerState → Bool
can_reset_mainnet_payment s = elim s.ui_state [ signing ↦ false | submitting ↦ false | _ ↦ true ]

submission_controls_disabled : MainnetPayControllerState → Bool
submission_controls_disabled s =
    s.attempt_started
    || s.attempt_completed
    || is_busy s.ui_state
    || elim s.ui_state [ success ↦ true | _ ↦ false ]
