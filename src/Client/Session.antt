-- ===== src/Client/Session.antt =====
-- src/mainnet/browser/payment-id-session.ts: the payment that the browser session remembers while
-- its outcome is open. The session storage is what stands under the one key that is used.
pub mod Laws
pub mod Reads
pub mod Resumable
pub mod Tests
use x402_worker_template.Prelude.{
  ℕ, ◌+◌, ◌*◌, String, Bool, true, false, not, ◌&&◌, ◌||◌, Option, none, some, leb, ltb, str_eq,
  if◌then◌else◌,
}
use x402_worker_template.Js.{
  Value, number, text, object, instance_of, Fields, end, field, get, Platform,
}
use x402_worker_template.Js.Text.{utf16_length, shorten}

pub data SessionState : Type 0 where
  submitted potentially_submitted : SessionState

-- The version is always 1.
pub record PendingMainnetPaymentSession : Type 0 where
  pub payment_identifier : String
  pub query_value : String
  pub route_path : String
  pub created_at : String
  pub state : SessionState

abbrev session_max_age_ms : ℕ
session_max_age_ms = 24 * 60 * 60 * 1000

-- `Date.parse`: NaN, or milliseconds before or from the epoch on.
pub data ParsedDate : Type 0 where
  not_a_date : ParsedDate
  before_epoch : ℕ → ParsedDate
  at : ℕ → ParsedDate

-- What is under the key.
abbrev pub Storage : Type 0
Storage = Option String

abbrev state_text : SessionState → String
state_text submitted = "submitted"
state_text potentially_submitted = "potentially-submitted"

unfoldable pub session_value : PendingMainnetPaymentSession → Value
session_value s = object (
    field "version" (number "1") (
      field "paymentIdentifier" (text s.payment_identifier) (
        field "queryValue" (text s.query_value) (
          field "routePath" (text s.route_path) (
            field "createdAt" (text s.created_at)
              (field "state" (text (state_text s.state)) end))))))

unfoldable pub save_pending_mainnet_payment_session :
    Platform → PendingMainnetPaymentSession → Storage
unfolding session_value
save_pending_mainnet_payment_session p s = some (p.stringify (session_value s))

abbrev pub clear_pending_mainnet_payment_session : Storage
clear_pending_mainnet_payment_session = none

abbrev is_one : Value → Bool
is_one (number n) = str_eq n "1"
is_one v = false

abbrev read_state : Value → Option SessionState
read_state (text s) =
    if str_eq s "submitted"
    then some submitted
    else (if str_eq s "potentially-submitted" then some potentially_submitted else none)
read_state v = none

-- The four texts, once all are texts.
abbrev with_texts :
    Value → Value → Value → Value → Option SessionState → Option PendingMainnetPaymentSession
with_texts (text id) (text query) (text route) (text created) (some state) =
    if leb 16 (utf16_length id)
    then some (record {
      payment_identifier = id;
      query_value = query;
      route_path = route;
      created_at = created;
      state = state;
    })
    else none
with_texts _ _ _ _ _ = none

unfoldable pub session_of : Fields → Option PendingMainnetPaymentSession
unfolding get utf16_length
session_of fs =
    if is_one (get "version" fs)
    then with_texts (get "paymentIdentifier" fs) (get "queryValue" fs) (get "routePath" fs)
        (get "createdAt" fs) (read_state (get "state" fs))
    else none

-- `isValidPendingSession`, with the session that a valid value is.
unfoldable pub valid_pending_session : Value → Option PendingMainnetPaymentSession
unfolding session_of
valid_pending_session (object fs) = session_of fs
valid_pending_session (instance_of fs) = session_of fs
valid_pending_session v = none

-- `Number.isNaN(createdAtMs) || now - createdAtMs > MAINNET_SESSION_MAX_AGE_MS`.
unfoldable pub is_stale : ParsedDate → ℕ → Bool
is_stale not_a_date now = true
is_stale (before_epoch n) now = ltb session_max_age_ms (now + n)
is_stale (at n) now = ltb (n + session_max_age_ms) now

-- `expected && actual !== expected`, where no expectation is the empty text.
abbrev differs : String → String → Bool
differs expected actual = not (str_eq expected "") && not (str_eq actual expected)

pub record ReadOptions : Type 0 where
  pub now : ℕ
  pub expected_route_path : String
  pub expected_query_value : String

-- Whether a session that has the form is refused all the same.
unfoldable pub is_refused :
    (String → ParsedDate) → ReadOptions → PendingMainnetPaymentSession → Bool
unfolding is_stale
is_refused parse_date o s =
    is_stale (parse_date s.created_at) o.now
    || differs o.expected_route_path s.route_path
    || differs o.expected_query_value s.query_value

-- What is read, and the storage behind it.
abbrev accept :
    (String → ParsedDate)
    → ReadOptions
    → String
    → Option PendingMainnetPaymentSession
    → Option PendingMainnetPaymentSession × Storage
accept parse_date o raw none = (none, clear_pending_mainnet_payment_session)
accept parse_date o raw (some s) =
    if is_refused parse_date o s
    then (none, clear_pending_mainnet_payment_session)
    else (some s, some raw)

abbrev or_none : {A B : Type 0} → (A → Option B) → Option A → Option B
or_none f none = none
or_none f (some a) = f a

unfoldable pub read_pending_mainnet_payment_session :
    Platform
    → (String → ParsedDate)
    → ReadOptions
    → Storage
    → Option PendingMainnetPaymentSession × Storage
unfolding valid_pending_session is_refused
read_pending_mainnet_payment_session p parse_date o none = (none, none)
read_pending_mainnet_payment_session p parse_date o (some raw) =
    if str_eq raw ""
    then (none, some raw)
    else accept parse_date o raw (or_none valid_pending_session (p.parse raw))

shorten_payment_identifier : String → String
unfolding shorten
shorten_payment_identifier = shorten 12 6 4
