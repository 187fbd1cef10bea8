-- ===== src/Client/Controller/Polling.antt =====
-- mainnet-pay-controller.ts: what the poller's callbacks and its end do to the controller
-- (`startStatusPolling` behind its `await`, `handlePollResult`).
use Prim.Native.String.{◌++◌}
use x402_worker_template.Prelude.{ℕ, true, some}
use x402_worker_template.Js.{Value, undefined, null, get}
use x402_worker_template.Client.Sanitize.{sanitize_for_dom}
use x402_worker_template.Client.Session.{clear_pending_mainnet_payment_session}
use x402_worker_template.Client.Settlement.{
  MainnetSafeSettlementView, ResultCheck, validate_fulfilled_status_result,
  attach_mainnet_paid_result,
}
use x402_worker_template.Client.Poller.{
  StatusBody, StatusPollResult, PollCall, on_poll, on_in_progress,
}
use x402_worker_template.Client.State.{MainnetPayUiState}
use x402_worker_template.Client.Controller.{Controller, forget}

-- The callbacks of the poller.
unfoldable pub handle_poll_call : PollCall → Controller → Controller
handle_poll_call (on_poll n) c = record c { state = record c.state { status_poll_count = n } }
handle_poll_call (on_in_progress s n) c = record c {
  state = record c.state { status_poll_count = n; status_message = some ("Payment status: " ++ s) };
}

-- `value ?? null`.
abbrev or_null : Value → Value
or_null undefined = null
or_null v = v

abbrev pub handle_fulfilled : StatusBody → ℕ → ResultCheck → Controller → Controller
handle_fulfilled body n (ResultCheck.bad reason) c = record c {
  state = record c.state {
    ui_state = MainnetPayUiState.uncertain;
    attempt_completed = true;
    error_message = some (sanitize_for_dom reason);
    status_message = some "Fulfilled status did not include a safe cached result.";
  };
}
handle_fulfilled body n (ResultCheck.ok paid) c =
    let view : MainnetSafeSettlementView = record {
      paid_result = paid;
      transaction_reference = or_null (get "transactionReference" body);
      network_verified = true;
    } in
    let after = forget c in
    record after {
      state = record after.state {
        ui_state = MainnetPayUiState.success;
        attempt_completed = true;
        paid_body = paid;
        settlement = some (attach_mainnet_paid_result view paid);
        status_poll_count = n;
        status_message = some "Recovered deterministic paid result from status route.";
      };
    }

-- The end of a poller. A cancelled one changes nothing.
unfoldable pub handle_poll_result : StatusPollResult → Controller → Controller
unfolding validate_fulfilled_status_result sanitize_for_dom
handle_poll_result (StatusPollResult.cancelled n) c = c
handle_poll_result (StatusPollResult.fulfilled body n) c =
    handle_fulfilled body n (validate_fulfilled_status_result (get "result" body)) c
handle_poll_result (StatusPollResult.failed_definitive body n) c = record c {
  state = record c.state {
    ui_state = MainnetPayUiState.failed_definitive;
    attempt_completed = true;
    status_poll_count = n;
    error_message = some "Payment attempt failed definitively. Reset and load fresh terms.";
  };
}
handle_poll_result (StatusPollResult.expired body n) c = record c {
  storage = clear_pending_mainnet_payment_session;
  state = record c.state {
    ui_state = MainnetPayUiState.expired;
    attempt_completed = true;
    status_poll_count = n;
    error_message = some "Payment attempt expired. Reset and load fresh terms.";
  };
}
handle_poll_result (StatusPollResult.uncertain body n) c = record c {
  state = record c.state {
    ui_state = MainnetPayUiState.uncertain;
    attempt_completed = true;
    status_poll_count = n;
    status_message = some "Payment status is uncertain. Automatic retry remains disabled.";
  };
}
handle_poll_result (StatusPollResult.malformed reason n) c = record c {
  state = record c.state {
    ui_state = MainnetPayUiState.error;
    attempt_completed = true;
    status_poll_count = n;
    error_message = some (sanitize_for_dom reason);
  };
}
handle_poll_result (StatusPollResult.not_seen_limit n) c = record c {
  state = record c.state {
    ui_state = MainnetPayUiState.potentially_submitted;
    status_poll_count = n;
    status_message =
        some "No payment attempt was found yet. Automatic resubmission remains disabled.";
  };
}
