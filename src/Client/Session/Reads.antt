-- ===== src/Client/Session/Reads.antt =====
-- payment-id-session.ts: a read resumes the session that may be resumed, and no other.
use x402_worker_template.Prelude.{
  String, true, false, ap, ◌∙◌, Option, some, none, ◌≡◌, inl, inr, refl, arith, str_eq, str_eq_iff,
  leb, Bool-cases, Option-cases,
}
use x402_worker_template.Js.{
  Value, undefined, number, array, object, instance_of, Fields, end, get, as_object, Platform,
}
use x402_worker_template.Js.Text.{utf16_length}
use x402_worker_template.Client.Session.{
  read_state, is_one, PendingMainnetPaymentSession, ParsedDate, Storage, session_of,
  valid_pending_session, ReadOptions, is_refused, read_pending_mainnet_payment_session,
}
use x402_worker_template.Client.Session.Resumable.{
  IsRecent, IsExpected, IsResumable, read_state-IsWritten, IsWritten-read_state, is_one-number,
  with_texts-parts, not_differs, IsExpected-differs, is_stale-IsRecent, IsRecent-is_stale,
}

module _ (p : Platform) (parse_date : String → ParsedDate) (o : ReadOptions) where
  -- A session that is not refused is recent and the expected one.
  unrefused :
      (s : PendingMainnetPaymentSession)
      → is_refused parse_date o s ≡ false
      → IsRecent o.now (parse_date s.created_at)
        × IsExpected o.expected_route_path s.route_path
        × IsExpected o.expected_query_value s.query_value
  unfolding is_refused
  unrefused s h = (
    is_stale-IsRecent (parse_date s.created_at) o.now (ground arith),
    not_differs o.expected_route_path s.route_path (ground arith),
    not_differs o.expected_query_value s.query_value (ground arith),
  )

  session_of-IsResumable :
      (raw : String) (v : Value) (fs : Fields) (s : PendingMainnetPaymentSession)
      → str_eq raw "" ≡ false
      → p.parse raw ≡ some v
      → as_object v ≡ some fs
      → session_of fs ≡ some s
      → is_refused parse_date o s ≡ false
      → IsResumable p parse_date o raw s
  unfolding session_of
  session_of-IsResumable raw v fs s f e a h r =
      let one : is_one (get "version" fs) ≡ true = ground arith in
      let (identifier, query, route, created, state, long) =
        with_texts-parts (get "paymentIdentifier" fs) (get "queryValue" fs) (get "routePath" fs)
          (get "createdAt" fs) (read_state (get "state" fs)) s (rw (one, session_of) at h) in
      let (recent, expected_route, expected_query) = unrefused s r in
      record {
        filled = f;
        value = v;
        fields = fs;
        parsed = e;
        with_fields = a;
        version = is_one-number (get "version" fs) one;
        identifier = identifier;
        query = query;
        route = route;
        created = created;
        state = read_state-IsWritten (get "state" fs) s.state state;
        long = long;
        recent = recent;
        expected_route = expected_route;
        expected_query = expected_query;
      }

  valid-IsResumable :
      (raw : String) (v : Value) (s : PendingMainnetPaymentSession)
      → str_eq raw "" ≡ false
      → p.parse raw ≡ some v
      → valid_pending_session v ≡ some s
      → is_refused parse_date o s ≡ false
      → IsResumable p parse_date o raw s
  unfolding valid_pending_session
  valid-IsResumable raw (object fs) s f e h r =
      session_of-IsResumable raw (object fs) fs s f e refl h r
  valid-IsResumable raw (instance_of fs) s f e h r =
      session_of-IsResumable raw (instance_of fs) fs s f e refl h r
  valid-IsResumable raw v s f e h r = cc

  fields-valid :
      (v : Value) (fs : Fields) (s : PendingMainnetPaymentSession)
      → as_object v ≡ some fs
      → get "version" fs ≡ number "1"
      → session_of fs ≡ some s
      → valid_pending_session v ≡ some s
  unfolding valid_pending_session get
  fields-valid (object gs) fs s a n h = let same : gs ≡ fs = ground arith in rw same h
  fields-valid (instance_of gs) fs s a n h = let same : gs ≡ fs = ground arith in rw same h
  fields-valid (array items) fs s a n h =
      let same : end ≡ fs = ground arith in
      let nothing : undefined ≡ number "1" = ap (get "version") same ∙ n in cc
  fields-valid v fs s a n h = cc

  IsResumable-session_of :
      (raw : String) (s : PendingMainnetPaymentSession) (i : IsResumable p parse_date o raw s)
      → session_of i.fields ≡ some s
  unfolding session_of
  IsResumable-session_of raw s i =
      let enough : leb 16 (utf16_length s.payment_identifier) ≡ true =
        let long = i.long in ground arith in
      rw
        (
          i.version,
          i.identifier,
          i.query,
          i.route,
          i.created,
          IsWritten-read_state (get "state" i.fields) s.state i.state,
          enough,
        )
        refl

  IsResumable-unrefused :
      (raw : String) (s : PendingMainnetPaymentSession)
      → IsResumable p parse_date o raw s
      → is_refused parse_date o s ≡ false
  unfolding is_refused
  IsResumable-unrefused raw s i =
      rw
        (
          IsRecent-is_stale (parse_date s.created_at) o.now i.recent,
          IsExpected-differs o.expected_route_path s.route_path i.expected_route,
          IsExpected-differs o.expected_query_value s.query_value i.expected_query,
        )
        refl

  -- A session that may be resumed is.
  read-resumes :
      (raw : String) (s : PendingMainnetPaymentSession)
      → IsResumable p parse_date o raw s
      → read_pending_mainnet_payment_session p parse_date o (some raw) ≡ (some s, some raw)
  unfolding read_pending_mainnet_payment_session
  read-resumes raw s i =
      let valid : valid_pending_session i.value ≡ some s =
        fields-valid i.value i.fields s i.with_fields i.version (IsResumable-session_of raw s i) in
      rw (i.filled, i.parsed, valid, IsResumable-unrefused raw s i) refl

  -- A storage without a session that may be resumed.
  abbrev pub NoneIn : Storage → Type 0
  NoneIn before =
      (raw : String) (s : PendingMainnetPaymentSession)
      → before ≡ some raw
      → ¬ IsResumable p parse_date o raw s

  not_read-NoneIn :
      (before : Storage)
      → read_pending_mainnet_payment_session p parse_date o before ≡ (none, none)
      → NoneIn before
  not_read-NoneIn before h raw s e i =
      let read = read-resumes raw s i in
      let same = ap (read_pending_mainnet_payment_session p parse_date o) e in cc

-- What a read answers, and what it leaves under the key.
pub data IsOutcome (p : Platform) (parse_date : String → ParsedDate) (o : ReadOptions)
    (before : Storage) : Option PendingMainnetPaymentSession × Storage → Type 0 where
  resumed :
      (raw : String) (s : PendingMainnetPaymentSession)
      → before ≡ some raw
      → IsResumable p parse_date o raw s
      → IsOutcome p parse_date o before (some s, before)
  cleared : NoneIn p parse_date o before → IsOutcome p parse_date o before (none, none)
  empty_text : before ≡ some "" → IsOutcome p parse_date o before (none, before)

-- Every read of the session storage resumes exactly the session that may be resumed: the text under
-- the key is the JSON of an object of version 1 with the session's texts and state, its identifier
-- has at least 16 code units, it is no older than 24 hours, and its route and query are those that
-- are expected, if any are. The storage then stays as it was. Where the text holds no such session,
-- there is none, and the storage is cleared (an empty text stays).
pub read-IsOutcome :
    (p : Platform) (parse_date : String → ParsedDate) (o : ReadOptions) (before : Storage)
    → IsOutcome p parse_date o before (read_pending_mainnet_payment_session p parse_date o before)
unfolding read_pending_mainnet_payment_session
read-IsOutcome p parse_date o none = cleared (not_read-NoneIn p parse_date o none refl)
read-IsOutcome p parse_date o (some raw) = elim (Bool-cases (str_eq raw "")) [
  | inl e ↦ rw e (empty_text (ap some ((str_eq_iff raw "").0 e)))
  | inr e ↦ elim (Option-cases (p.parse raw)) [
    | inl n ↦ rw (e, n) (cleared (not_read-NoneIn p parse_date o (some raw) (rw (e, n) refl)))
    | inr (v, n) ↦ elim (Option-cases (valid_pending_session v)) [
      | inl w ↦
          rw (e, n, w) (cleared (not_read-NoneIn p parse_date o (some raw) (rw (e, n, w) refl)))
      | inr (s, w) ↦ elim (Bool-cases (is_refused parse_date o s)) [
        | inl r ↦
            rw (e, n, w, r)
              (cleared (not_read-NoneIn p parse_date o (some raw) (rw (e, n, w, r) refl)))
        | inr r ↦
            rw (e, n, w, r) (resumed raw s refl (valid-IsResumable p parse_date o raw v s e n w r))
      ]
    ]
  ]
]
