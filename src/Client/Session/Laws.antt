-- ===== src/Client/Session/Laws.antt =====
-- payment-id-session.ts: what is saved is read again, and what is read may be resumed.
use x402_worker_template.Prelude.{◌≤◌, String, true, false, some, ◌≡◌, refl, arith, str_eq, leb}
use x402_worker_template.Js.{text, get, Platform}
use x402_worker_template.Js.Text.{utf16_length}
use x402_worker_template.Client.Session.{
  SessionState, submitted, potentially_submitted, state_text, read_state,
  PendingMainnetPaymentSession, ParsedDate, session_value, save_pending_mainnet_payment_session,
  session_of, valid_pending_session, ReadOptions, is_refused, read_pending_mainnet_payment_session,
}

read_state-state_text : (t : SessionState) → read_state (text (state_text t)) ≡ some t
read_state-state_text submitted = refl
read_state-state_text potentially_submitted = refl

-- The value that is saved is valid, and is the session.
valid_pending_session-session_value :
    (s : PendingMainnetPaymentSession)
    → 16 ≤ utf16_length s.payment_identifier
    → valid_pending_session (session_value s) ≡ some s
unfolding valid_pending_session session_of session_value get
valid_pending_session-session_value s long =
    let enough : leb 16 (utf16_length s.payment_identifier) ≡ true = ground arith in
    rw (read_state-state_text s.state, enough) refl

-- A session with an identifier of at least 16 code units that was saved is read back, and stays
-- stored, as long as it is no older than 24 hours and the route and query that are expected, if
-- any, are its own. The hypothesis on the platform is that the JSON text of the saved value
-- parses to that value and is not empty.
pub read-save :
    (p : Platform) (parse_date : String → ParsedDate) (o : ReadOptions)
    (s : PendingMainnetPaymentSession)
    → p.parse (p.stringify (session_value s)) ≡ some (session_value s)
    → str_eq (p.stringify (session_value s)) "" ≡ false
    → 16 ≤ utf16_length s.payment_identifier
    → is_refused parse_date o s ≡ false
    → read_pending_mainnet_payment_session p parse_date o (save_pending_mainnet_payment_session p s)
      ≡ (some s, save_pending_mainnet_payment_session p s)
unfolding read_pending_mainnet_payment_session save_pending_mainnet_payment_session
read-save p parse_date o s parses filled long fresh =
    rw (filled, parses, valid_pending_session-session_value s long, fresh) refl
