-- ===== src/Status.antt =====
-- src/mainnet/routes/pay-status.ts: the public status of a payment, by its identifier.
pub mod Laws
pub mod Tests
use x402_worker_template.Prelude.{
  ℕ, String, Bool, true, false, not, Option, none, some, List, str_eq, if◌then◌else◌,
}
use x402_worker_template.Js.{Platform}
use x402_worker_template.Js.Text.{shorten}
use x402_worker_template.Sdk.{Sdk}
use x402_worker_template.Identifier.{validate_payment_identifier_for_lookup}
use x402_worker_template.Coordinator.Types.{
  PaymentAttemptState, reserved, verifying, verified, computing, settling, fulfilled,
  failed_definitive, FulfilledStatusResult, PaymentStatusSnapshot, Env,
}
use x402_worker_template.Coordinator.State.{Coordinator}
use x402_worker_template.Coordinator.Query.{get_status_by_payment_identifier}
use x402_worker_template.Orchestrator.Http.{mainnet_safe_response_headers}

-- `PaymentAttemptState | "not_seen" | "expired"`.
pub data PublicState : Type 0 where
  attempt : PaymentAttemptState → PublicState
  not_seen expired : PublicState

-- A property that is missing or `undefined` is `none`.
pub record SafePaymentStatusBody : Type 0 where
  pub state : PublicState
  pub updated_at : Option ℕ
  can_retry : Option Bool
  needs_fresh_terms : Option Bool
  pub transaction_reference : Option String
  pub result : Option FulfilledStatusResult

pub record StatusAnswer : Type 0 where
  pub status : ℕ
  pub body : SafePaymentStatusBody

abbrev bare_body : PublicState → SafePaymentStatusBody
bare_body s = record {
  state = s;
  updated_at = none;
  can_retry = none;
  needs_fresh_terms = none;
  transaction_reference = none;
  result = none;
}

unfoldable pub shorten_transaction_ref : String → String
unfolding shorten
shorten_transaction_ref = shorten 14 8 6

-- `hash ? shortenTransactionRef(hash) : undefined`: an empty text is falsy.
abbrev reference_of : Option String → Option String
reference_of none = none
reference_of (some hash) = if str_eq hash "" then none else some (shorten_transaction_ref hash)

abbrev not_seen_answer : StatusAnswer
not_seen_answer = record { status = 404; body = bare_body not_seen }

abbrev ok_answer : SafePaymentStatusBody → StatusAnswer
ok_answer body = record { status = 200; body = body }

-- The five states of `IN_PROGRESS_STATES` share the last clause. The return behind all the tests,
-- status 410 with the state "expired", is left to no state.
build_state_answer : PaymentAttemptState → PaymentStatusSnapshot → StatusAnswer
build_state_answer fulfilled s = ok_answer (record {
  state = attempt fulfilled;
  updated_at = some s.updated_at;
  can_retry = some false;
  needs_fresh_terms = some false;
  transaction_reference = reference_of s.transaction_hash;
  result = s.fulfilled_result;
})
build_state_answer failed_definitive s = ok_answer (record (bare_body (attempt failed_definitive)) {
  updated_at = some s.updated_at;
  needs_fresh_terms = some true;
  can_retry = some false;
})
build_state_answer PaymentAttemptState.uncertain s =
    ok_answer (record (bare_body (attempt PaymentAttemptState.uncertain)) {
      updated_at = some s.updated_at;
      can_retry = some false;
      transaction_reference = reference_of s.transaction_hash;
    })
build_state_answer state s =
    ok_answer (record (bare_body (attempt state)) { updated_at = some s.updated_at })

unfoldable pub build_status_body : Option PaymentStatusSnapshot → StatusAnswer
unfolding build_state_answer
build_status_body none = not_seen_answer
build_status_body (some s) = build_state_answer s.state s

-- What the coordinator answers: `none` is a thrown error, which leaves the handler.
abbrev answer_lookup : Option (Option PaymentStatusSnapshot) → Option StatusAnswer
answer_lookup none = none
answer_lookup (some snapshot) = some (build_status_body snapshot)

pay_status_handler : Sdk → String → Option (Option PaymentStatusSnapshot) → Option StatusAnswer
pay_status_handler x id lookup =
    if str_eq id ""
    then some not_seen_answer
    else (if not (validate_payment_identifier_for_lookup x id)
        then some not_seen_answer
        else answer_lookup lookup)

-- The route over the coordinator that it asks.
unfoldable pub pay_status : Sdk → Platform → Env → String → Coordinator → Option StatusAnswer
unfolding pay_status_handler
pay_status x p env id c =
    pay_status_handler x id (some (get_status_by_payment_identifier p env id c))
