-- ===== src/Client/Session/Tests.antt =====
-- payment-id-session.ts: a session of one payment, saved and read.
use x402_worker_template.Prelude.{[], arith, String, some, none, ◌≡◌, refl, str_eq, if◌then◌else◌}
use x402_worker_template.Js.{Platform, get}
use x402_worker_template.Js.Text.{utf16_length}
use x402_worker_template.Client.Session.{
  potentially_submitted, PendingMainnetPaymentSession, ParsedDate, at, not_a_date, session_value,
  save_pending_mainnet_payment_session, is_stale, ReadOptions, is_refused,
  read_pending_mainnet_payment_session, valid_pending_session, session_of,
}
use x402_worker_template.Client.Session.Laws.{read-save}
use x402_worker_template.Client.Session.Reads.{IsOutcome, read-IsOutcome}

abbrev pub session : PendingMainnetPaymentSession
session = record {
  payment_identifier = "pay_0123456789abcdef";
  query_value = "hello";
  route_path = "/v1/example";
  created_at = "2026-01-01T00:00:00.000Z";
  state = potentially_submitted;
}

abbrev pub json : String
json =
    "{\"version\":1,\"paymentIdentifier\":\"pay_0123456789abcdef\",\"queryValue\":\"hello\",\"routePath\":\"/v1/example\",\"createdAt\":\"2026-01-01T00:00:00.000Z\",\"state\":\"potentially-submitted\"}"

-- The platform, on this one session.
abbrev pub platform : Platform
platform = record {
  digest = λ s. [];
  parse = λ raw. if str_eq raw json then some (session_value session) else none;
  stringify = λ v. json;
}

abbrev pub parse_date : String → ParsedDate
parse_date s = if str_eq s "2026-01-01T00:00:00.000Z" then at 1767225600000 else not_a_date

-- An hour later, on the route of the payment.
abbrev pub options : ReadOptions
options = record {
  now = 1767229200000;
  expected_route_path = "/v1/example";
  expected_query_value = "hello";
}

read-save_example :
    read_pending_mainnet_payment_session platform parse_date options
      (save_pending_mainnet_payment_session platform session)
    ≡ (some session, save_pending_mainnet_payment_session platform session)
unfolding is_refused is_stale utf16_length
read-save_example = read-save platform parse_date options session refl refl (omega arith) refl

-- The day after, it is gone.
too_late :
    read_pending_mainnet_payment_session platform parse_date
      (record options { now = 1767312000001 })
      (save_pending_mainnet_payment_session platform session)
    ≡ (none, none)
unfolding read_pending_mainnet_payment_session save_pending_mainnet_payment_session
    valid_pending_session session_of session_value get is_refused is_stale utf16_length
too_late = refl

read-IsOutcome_example :
    IsOutcome platform parse_date options
      (some json)
      (read_pending_mainnet_payment_session platform parse_date options (some json))
read-IsOutcome_example = read-IsOutcome platform parse_date options (some json)
