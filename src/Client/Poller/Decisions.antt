-- ===== src/Client/Poller/Decisions.antt =====
-- pay-status-client.ts and pay-status-poller.ts: what one pass of the loop decides, and why.
use x402_worker_template.Prelude.{
  ℕ, suc, String, true, false, none, some, ◌≡◌, ◌≢◌, ◌∙◌, refl, sym, ap, arith, inl, inr, subst,
  Bool-cases, str_eq, str_eq_iff,
}
use x402_worker_template.Js.{
  Value, undefined, text, array, object, instance_of, Fields, end, get, as_object,
}
use x402_worker_template.Client.Poller.{
  responded, PaymentStatusFetchResult, ok, bad, fulfilled, failed_definitive, expired, uncertain,
  cancelled, malformed, with_state, fetch_payment_status, Fetched, StatusPollResult, decide_state,
  poll_round, Round, decide,
}

-- A response whose JSON is an object with a text as its state.
pub record IsStatus (f : Fetched) (s : String) (body : Fields) : Type 0 where
  status : ℕ
  value : Value
  answered : f ≡ responded status (some value)
  with_body : as_object value ≡ some body
  state : get "state" body ≡ text s

-- What a pass that is the `n`th to start (from 0) ends the loop with, and why.
pub data IsDecision (r : Round) (n : ℕ) : StatusPollResult → Type 0 where
  on_abort : r.aborted ≡ true → IsDecision r n (cancelled n)
  on_malformed :
      (reason : String)
      → r.aborted ≡ false
      → ((s : String) (body : Fields) → ¬ IsStatus r.fetched s body)
      → IsDecision r n (malformed reason (suc n))
  on_fulfilled :
      (body : Fields)
      → r.aborted ≡ false
      → IsStatus r.fetched "fulfilled" body
      → IsDecision r n (fulfilled body (suc n))
  on_failed_definitive :
      (body : Fields)
      → r.aborted ≡ false
      → IsStatus r.fetched "failed-definitive" body
      → IsDecision r n (failed_definitive body (suc n))
  on_expired :
      (body : Fields)
      → r.aborted ≡ false
      → IsStatus r.fetched "expired" body
      → IsDecision r n (expired body (suc n))
  on_uncertain :
      (body : Fields)
      → r.aborted ≡ false
      → IsStatus r.fetched "uncertain" body
      → IsDecision r n (uncertain body (suc n))

-- A pass after which the loop goes on: its lookup answers with another state.
pub record IsUndecided (r : Round) : Type 0 where
  state : String
  body : Fields
  unaborted : r.aborted ≡ false
  status : IsStatus r.fetched state body
  unfulfilled : state ≢ "fulfilled"
  unfailed : state ≢ "failed-definitive"
  unexpired : state ≢ "expired"
  certain : state ≢ "uncertain"

state_read :
    (status : ℕ) (value : Value) (fs : Fields) (v : Value) (n : ℕ) (s : String) (body : Fields)
    → as_object value ≡ some fs
    → get "state" fs ≡ v
    → with_state status fs v ≡ ok n s body
    → IsStatus (responded status (some value)) s body
state_read status value fs (text t) n s body a e h =
    let same : fs ≡ body = ground arith in
    let named : t ≡ s = ground arith in
    record {
      status = status;
      value = value;
      answered = refl;
      with_body = a ∙ ap some same;
      state = ap (get "state") (sym same) ∙ e ∙ ap text named;
    }
state_read status value fs v n s body a e h = cc

fetched-ok :
    (f : Fetched) (n : ℕ) (s : String) (body : Fields)
    → fetch_payment_status f ≡ ok n s body
    → IsStatus f s body
unfolding fetch_payment_status
fetched-ok Fetched.failed n s body h = cc
fetched-ok (responded status none) n s body h = cc
fetched-ok (responded status (some (object fs))) n s body h =
    state_read status (object fs) fs (get "state" fs) n s body refl refl h
fetched-ok (responded status (some (instance_of fs))) n s body h =
    state_read status (instance_of fs) fs (get "state" fs) n s body refl refl h
fetched-ok (responded status (some v)) n s body h = cc

fetched_value :
    (status : ℕ) (value : Value) (s : String) (body : Fields)
    → as_object value ≡ some body
    → get "state" body ≡ text s
    → fetch_payment_status (responded status (some value)) ≡ ok status s body
unfolding fetch_payment_status get
fetched_value status (object fs) s body a e =
    let same : fs ≡ body = ground arith in rw (same, e) refl
fetched_value status (instance_of fs) s body a e =
    let same : fs ≡ body = ground arith in rw (same, e) refl
fetched_value status (array items) s body a e =
    let same : end ≡ body = ground arith in
    let nothing : undefined ≡ text s = ap (get "state") same ∙ e in cc
fetched_value status v s body a e = cc

fetched-bad :
    (f : Fetched) (reason s : String) (body : Fields)
    → fetch_payment_status f ≡ bad reason
    → ¬ IsStatus f s body
fetched-bad f reason s body h i =
    let good : fetch_payment_status f ≡ ok i.status s body =
      rw i.answered (fetched_value i.status i.value s body i.with_body i.state) in
    cc

module _ (r : Round) (n : ℕ) (s : String) (body : Fields) (a : r.aborted ≡ false)
    (i : IsStatus r.fetched s body) where
  named : (t : String) → str_eq s t ≡ true → IsStatus r.fetched t body
  named t e = subst (λ x. IsStatus r.fetched x body) ((str_eq_iff s t).0 e) i

  -- A state that ends the loop ends it with the result of its name.
  state-IsDecision :
      (q : StatusPollResult) → decide_state s body (suc n) ≡ some q → IsDecision r n q
  unfolding decide_state
  state-IsDecision q h = elim (Bool-cases (str_eq s "fulfilled")) [
    | inl e ↦
        let out : fulfilled body (suc n) ≡ q = ground arith in
        subst (IsDecision r n) out (on_fulfilled body a (named "fulfilled" e))
    | inr e ↦ elim (Bool-cases (str_eq s "failed-definitive")) [
      | inl f ↦
          let out : failed_definitive body (suc n) ≡ q = ground arith in
          subst (IsDecision r n) out (on_failed_definitive body a (named "failed-definitive" f))
      | inr f ↦ elim (Bool-cases (str_eq s "expired")) [
        | inl g ↦
            let out : expired body (suc n) ≡ q = ground arith in
            subst (IsDecision r n) out (on_expired body a (named "expired" g))
        | inr g ↦ elim (Bool-cases (str_eq s "uncertain")) [
          | inl k ↦
              let out : uncertain body (suc n) ≡ q = ground arith in
              subst (IsDecision r n) out (on_uncertain body a (named "uncertain" k))
          | inr k ↦ ground arith
        ]
      ]
    ]
  ]

  -- A state that does not is none of the four.
  other_state :
      (t : String) (q : StatusPollResult)
      → decide_state s body (suc n) ≡ none
      → decide_state t body (suc n) ≡ some q
      → s ≢ t
  other_state t q h g e = let same = ap (λ x. decide_state x body (suc n)) e in cc

  state-IsUndecided : decide_state s body (suc n) ≡ none → IsUndecided r
  unfolding decide_state
  state-IsUndecided h = record {
    state = s;
    body = body;
    unaborted = a;
    status = i;
    unfulfilled = other_state "fulfilled" _ h refl;
    unfailed = other_state "failed-definitive" _ h refl;
    unexpired = other_state "expired" _ h refl;
    certain = other_state "uncertain" _ h refl;
  }

module _ (r : Round) (n : ℕ) (a : r.aborted ≡ false) where
  fetched-IsDecision :
      (f : PaymentStatusFetchResult) (q : StatusPollResult)
      → fetch_payment_status r.fetched ≡ f
      → (poll_round r.fetched (suc n)).1 ≡ some q
      → IsDecision r n q
  unfolding poll_round
  fetched-IsDecision (ok status s body) q e h =
      state-IsDecision r n s body a (fetched-ok r.fetched status s body e) q
        (rw (e, poll_round) at h)
  fetched-IsDecision (bad reason) q e h =
      let out : malformed reason (suc n) ≡ q = ground (arith, rw (e, poll_round) at h) in
      subst (IsDecision r n) out
        (on_malformed reason a (λ s body. fetched-bad r.fetched reason s body e))

  fetched-IsUndecided :
      (f : PaymentStatusFetchResult)
      → fetch_payment_status r.fetched ≡ f
      → (poll_round r.fetched (suc n)).1 ≡ none
      → IsUndecided r
  unfolding poll_round
  fetched-IsUndecided (ok status s body) e h =
      state-IsUndecided r n s body a (fetched-ok r.fetched status s body e)
        (rw (e, poll_round) at h)
  fetched-IsUndecided (bad reason) e h = cc (rw (e, poll_round) at h)

pub decide-IsDecision :
    (r : Round) (n : ℕ) (q : StatusPollResult) → decide r n ≡ some q → IsDecision r n q
unfolding decide
decide-IsDecision r n q h = elim (Bool-cases r.aborted) [
  | inl a ↦ let out : cancelled n ≡ q = ground arith in subst (IsDecision r n) out (on_abort a)
  | inr a ↦ fetched-IsDecision r n a (fetch_payment_status r.fetched) q refl (rw (a, decide) at h)
]

pub decide-IsUndecided : (r : Round) (n : ℕ) → decide r n ≡ none → IsUndecided r
unfolding decide
decide-IsUndecided r n h = elim (Bool-cases r.aborted) [
  | inl a ↦ ground arith
  | inr a ↦ fetched-IsUndecided r n a (fetch_payment_status r.fetched) refl (rw (a, decide) at h)
]
