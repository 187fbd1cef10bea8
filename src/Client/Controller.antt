-- ===== src/Client/Controller.antt =====
-- src/mainnet/browser/mainnet-pay-controller.ts: what each call of the page's controller does to
-- its state, to the session storage and to the poller. An asynchronous method is its part up to the
-- first `await` and its part behind it. The redrawing at each change is not modelled.
pub mod Polling
pub mod Page
pub mod Once
pub mod Single
pub mod Kept
pub mod Tests
use Prim.Native.String.{◌++◌}
use x402_worker_template.Prelude.{
  ℕ, suc, String, Bool, true, false, Option, none, some, List, if◌then◌else◌,
}
use x402_worker_template.Js.{Value, undefined, null, Fields, get, Platform}
use x402_worker_template.Sdk.{Sdk}
use x402_worker_template.Policy.{mainnet_paid_route}
use x402_worker_template.Client.Web.{Web}
use x402_worker_template.Client.Sanitize.{sanitize_for_dom}
use x402_worker_template.Client.Session.{
  SessionState, PendingMainnetPaymentSession, ParsedDate, ReadOptions, Storage,
  save_pending_mainnet_payment_session, clear_pending_mainnet_payment_session,
  read_pending_mainnet_payment_session,
}
use x402_worker_template.Client.Terms.{MainnetValidatedTerms, MainnetTermsLoadResult}
use x402_worker_template.Client.Settlement.{
  MainnetSafeSettlementView, ResultCheck, validate_fulfilled_status_result,
  attach_mainnet_paid_result,
}
use x402_worker_template.Client.Executor.{
  FailureStatus, Counts, MainnetPaymentExecutionResult, succeeded, failed, counts_of,
}
use x402_worker_template.Client.Poller.{
  StatusBody, StatusPollResult, PollCall, on_poll, on_in_progress,
}
use x402_worker_template.Client.State.{
  MainnetPayUiState, MainnetPayControllerState, create_initial_mainnet_pay_state,
  can_load_mainnet_terms, can_submit_mainnet_payment,
}

-- What the constructor is given, and the world behind it.
pub record Deps : Type 0 where
  pub x : Sdk
  pub web : Web
  pub platform : Platform
  pub parse_date : String → ParsedDate
  pub origin : String
  pub seller_address : String
  pub query_value : String
  pub max_polls : ℕ

-- The state, with the session storage and the signer's recorder. The abort controllers are counted:
-- `poll_abort` is the current one's number, and every earlier one is aborted.
pub record Controller : Type 0 where
  pub state : MainnetPayControllerState
  storage : Storage
  active_payment_identifier : Option String
  invocation_count : ℕ
  poll_abort : Option ℕ
  polls : ℕ

new_controller : Storage → Controller
new_controller storage = record {
  state = create_initial_mainnet_pay_state;
  storage = storage;
  active_payment_identifier = none;
  invocation_count = 0;
  poll_abort = none;
  polls = 0;
}

-- `cancelPolling`, a new abort controller, and the state that goes with it.
start_status_polling : Controller → Controller
start_status_polling c = record c {
  poll_abort = some c.polls;
  polls = suc c.polls;
  state = record c.state { ui_state = MainnetPayUiState.polling_status };
}

abbrev recovered : PendingMainnetPaymentSession → Controller → Controller
recovered pending c = record c {
  active_payment_identifier = some pending.payment_identifier;
  state = record c.state {
    payment_identifier = some pending.payment_identifier;
    attempt_started = true;
    ui_state = MainnetPayUiState.potentially_submitted;
    status_message =
        some
          "Recovered pending simulated payment attempt. Status polling will resume without signing or resubmitting.";
  };
}

recover_pending_session_on_load : Deps → ℕ → Controller → Controller
unfolding read_pending_mainnet_payment_session start_status_polling
recover_pending_session_on_load d now c =
    let options : ReadOptions = record {
      now = now;
      expected_route_path = mainnet_paid_route;
      expected_query_value = d.query_value;
    } in
    let (pending, storage) =
      read_pending_mainnet_payment_session d.platform d.parse_date options c.storage in
    let after = record c { storage = storage } in
    elim pending [ none ↦ after | some s ↦ start_status_polling (recovered s after) ]

begin_load : Controller → Controller
begin_load c = record c {
  state = record c.state {
    ui_state = MainnetPayUiState.loading_terms;
    error_message = none;
    status_message = none;
  };
}

-- `none`: the promise is rejected.
pub end_load : Option MainnetTermsLoadResult → Controller → Controller
unfolding sanitize_for_dom
end_load none c = c
end_load (some (MainnetTermsLoadResult.bad reason)) c = record c {
  state = record c.state {
    ui_state = MainnetPayUiState.error;
    error_message = some (sanitize_for_dom reason);
    terms = none;
  };
}
end_load (some (MainnetTermsLoadResult.ok terms)) c = record c {
  state = record c.state {
    ui_state = MainnetPayUiState.ready;
    terms = some terms;
    error_message = none;
  };
}

abbrev persist_pending_session : Deps → String → String → SessionState → Controller → Controller
persist_pending_session d id created_at state c = record c {
  storage = save_pending_mainnet_payment_session d.platform (record {
    payment_identifier = id;
    query_value = d.query_value;
    route_path = mainnet_paid_route;
    created_at = created_at;
    state = state;
  });
}

-- `activePaymentIdentifier ?? generateAndPersistPaymentIdentifier()`, for a fresh identifier.
abbrev with_identifier : Deps → String → String → Controller → String × Controller
with_identifier d fresh created_at c = elim c.active_payment_identifier [
  | some id ↦ (id, c)
  | none ↦ (fresh, persist_pending_session d fresh created_at SessionState.submitted c)
]

-- Up to the call of the executor: the identifier of the attempt, and the controller.
unfoldable pub begin_submit : Deps → String → String → Controller → String × Controller
unfolding save_pending_mainnet_payment_session
begin_submit d fresh created_at c =
    let (id, after) = with_identifier d fresh created_at c in
    (
      id,
      record after {
        state = record after.state {
          attempt_started = true;
          terms_consumed = true;
          ui_state = MainnetPayUiState.submitting;
          payment_identifier = some id;
          error_message = none;
          status_message = none;
        };
      },
    )

abbrev mark_potentially_submitted : Deps → String → String → Controller → Controller
mark_potentially_submitted d id created_at c =
    let after = persist_pending_session d id created_at SessionState.potentially_submitted c in
    record after {
      state = record after.state {
        ui_state = MainnetPayUiState.potentially_submitted;
        status_message =
            some
              "Payment submission may have started. Status polling is active and automatic resubmission is disabled.";
      };
    }

abbrev forget : Controller → Controller
forget c = record c {
  storage = clear_pending_mainnet_payment_session;
  active_payment_identifier = none;
}

abbrev with_counts : Counts → Controller → Controller
with_counts n c = record c {
  state = record c.state {
    signing_count = n.signing_count;
    payment_bearing_request_count = n.payment_bearing_request_count;
  };
}

-- Behind the call of the executor, for the identifier of the attempt.
pub end_submit : Deps → String → String → MainnetPaymentExecutionResult → Controller → Controller
unfolding save_pending_mainnet_payment_session start_status_polling sanitize_for_dom
end_submit d id created_at (succeeded body view n) c =
    let after = forget (with_counts n c) in
    record after {
      state = record after.state {
        ui_state = MainnetPayUiState.success;
        attempt_completed = true;
        paid_body = body;
        settlement = some view;
        status_message = some "Simulated mainnet payment succeeded.";
      };
    }
end_submit d id created_at (failed FailureStatus.potentially_submitted reason started n) c =
    start_status_polling (mark_potentially_submitted d id created_at (with_counts n c))
end_submit d id created_at (failed FailureStatus.failure reason started n) c =
    let after = forget (with_counts n c) in
    record after {
      state = record after.state {
        ui_state = MainnetPayUiState.failed_definitive;
        attempt_completed = true;
        error_message = some (sanitize_for_dom reason);
      };
    }

reset : Controller → Controller
reset c = record c {
  poll_abort = none;
  storage = clear_pending_mainnet_payment_session;
  active_payment_identifier = none;
  invocation_count = 0;
  state = create_initial_mainnet_pay_state;
}
