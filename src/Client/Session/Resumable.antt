-- ===== src/Client/Session/Resumable.antt =====
-- payment-id-session.ts: which session a stored text holds, and that it may be resumed.
use x402_worker_template.Prelude.{
  ℕ, ◌+◌, ◌≤◌, String, true, false, ap, Option, some, ◌≡◌, ◌⊎◌, inl, inr, refl, arith, str_eq,
  str_eq_iff, Bool-cases,
}
use x402_worker_template.Js.{Value, number, text, Fields, get, as_object, Platform}
use x402_worker_template.Js.Text.{utf16_length}
use x402_worker_template.Client.Session.{
  SessionState, submitted, potentially_submitted, read_state, is_one, with_texts, differs, is_stale,
  not_a_date, before_epoch, at, PendingMainnetPaymentSession, ParsedDate, ReadOptions,
}

-- No older than 24 hours; a text that is no date is not.
pub data IsRecent (now : ℕ) : ParsedDate → Type 0 where
  since : (n : ℕ) → now ≤ n + 86400000 → IsRecent now (at n)
  since_before : (n : ℕ) → now + n ≤ 86400000 → IsRecent now (before_epoch n)

-- The state, as it is written.
pub data IsWritten : Value → SessionState → Type 0 where
  written_submitted : IsWritten (text "submitted") submitted
  written_potentially : IsWritten (text "potentially-submitted") potentially_submitted

-- What is expected, if anything is.
abbrev pub IsExpected : String → String → Type 0
IsExpected expected actual = (expected ≡ "") ⊎ (actual ≡ expected)

-- The session that a stored text holds, and that it may be resumed.
pub record IsResumable (p : Platform) (parse_date : String → ParsedDate) (o : ReadOptions)
    (raw : String) (s : PendingMainnetPaymentSession) : Type 0 where
  pub filled : str_eq raw "" ≡ false
  pub value : Value
  pub fields : Fields
  pub parsed : p.parse raw ≡ some value
  pub with_fields : as_object value ≡ some fields
  pub version : get "version" fields ≡ number "1"
  pub identifier : get "paymentIdentifier" fields ≡ text s.payment_identifier
  pub query : get "queryValue" fields ≡ text s.query_value
  pub route : get "routePath" fields ≡ text s.route_path
  pub created : get "createdAt" fields ≡ text s.created_at
  pub state : IsWritten (get "state" fields) s.state
  pub long : 16 ≤ utf16_length s.payment_identifier
  pub recent : IsRecent o.now (parse_date s.created_at)
  pub expected_route : IsExpected o.expected_route_path s.route_path
  pub expected_query : IsExpected o.expected_query_value s.query_value

pub read_state-IsWritten : (v : Value) (t : SessionState) → read_state v ≡ some t → IsWritten v t
read_state-IsWritten (text s) t h = elim (Bool-cases (str_eq s "submitted")) [
  | inl e ↦
      let named : s ≡ "submitted" = (str_eq_iff s "submitted").0 e in
      let out : submitted ≡ t = ground arith in rw (named, ← out) written_submitted
  | inr e ↦ elim (Bool-cases (str_eq s "potentially-submitted")) [
    | inl f ↦
        let named : s ≡ "potentially-submitted" = (str_eq_iff s "potentially-submitted").0 f in
        let out : potentially_submitted ≡ t = ground arith in rw (named, ← out) written_potentially
    | inr f ↦ ground arith
  ]
]
read_state-IsWritten v t h = cc

pub IsWritten-read_state : (v : Value) (t : SessionState) → IsWritten v t → read_state v ≡ some t
IsWritten-read_state _ _ written_submitted = refl
IsWritten-read_state _ _ written_potentially = refl

pub is_one-number : (v : Value) → is_one v ≡ true → v ≡ number "1"
is_one-number (number n) h = ap number ((str_eq_iff n "1").0 h)
is_one-number v h = cc

pub with_texts-parts :
    (a b c d : Value) (t : Option SessionState) (s : PendingMainnetPaymentSession)
    → with_texts a b c d t ≡ some s
    → (a ≡ text s.payment_identifier)
      × (b ≡ text s.query_value)
      × (c ≡ text s.route_path)
      × (d ≡ text s.created_at)
      × (t ≡ some s.state)
      × (16 ≤ utf16_length s.payment_identifier)
with_texts-parts (text id) (text q) (text r) (text c) (some t) s h = ground arith
with_texts-parts a b c d t s h = cc

pub not_differs :
    (expected actual : String) → differs expected actual ≡ false → IsExpected expected actual
not_differs expected actual h = ground (arith, str_eq_iff expected "", str_eq_iff actual expected)

pub IsExpected-differs :
    (expected actual : String) → IsExpected expected actual → differs expected actual ≡ false
IsExpected-differs expected actual (inl e) = rw e refl
IsExpected-differs expected actual (inr e) =
    let same : str_eq actual expected ≡ true = (str_eq_iff actual expected).1 e in ground arith

pub is_stale-IsRecent : (d : ParsedDate) (now : ℕ) → is_stale d now ≡ false → IsRecent now d
unfolding is_stale
is_stale-IsRecent not_a_date now h = cc
is_stale-IsRecent (before_epoch n) now h = since_before n (ground arith)
is_stale-IsRecent (at n) now h = since n (ground arith)

pub IsRecent-is_stale : (d : ParsedDate) (now : ℕ) → IsRecent now d → is_stale d now ≡ false
unfolding is_stale
IsRecent-is_stale _ now (since n h) = ground arith
IsRecent-is_stale _ now (since_before n h) = ground arith
