-- ===== src/Client/Executor/Laws.antt =====
-- mainnet-payment-executor.ts: what an attempt sends, and what its result says of it.
use x402_worker_template.Prelude.{
  ℕ, length, ◌+◌, ◌≤◌, ◌<◌, String, List, [], ◌∷◌, true, false, Option, none, some, ◌||◌, ◌≡◌, ◌⊎◌,
  refl, ap, arith, inl, inr, Bool-cases, leb, ltb, str_eq_iff,
}
use x402_worker_template.Js.{Value, text, Fields, get, is_truthy}
use x402_worker_template.Policy.{mainnet_network}
use x402_worker_template.Authorization.{PaymentPayload}
use x402_worker_template.Client.Web.{
  Web, Headers, Delivery, lost, delivered, Signing, refused, signed,
}
use x402_worker_template.Client.Settlement.{
  MainnetSafeSettlementView, SettlementCheck, is_mainnet, validate_mainnet_settlement_metadata,
}
use x402_worker_template.Client.Terms.{MainnetValidatedTerms}
use x402_worker_template.Client.Executor.{
  SubmissionMode, normal, response_loss, FailureStatus, failure, potentially_submitted, Counts,
  MainnetPaymentExecutionResult, succeeded, failed, PaidRequest, body_or_null, submit_paid_request,
  settled, received, submit, sign, execute_mainnet_payment_attempt,
}

-- A settlement that reports success, on Base mainnet if it names a network.
pub record IsSettled (s : Fields) : Type 0 where
  success : is_truthy (get "success" s) ≡ true
  network : (is_truthy (get "network" s) ≡ false) ⊎ (get "network" s ≡ text mainnet_network)

is_mainnet_sound : (v : Value) → is_mainnet v ≡ true → v ≡ text mainnet_network
is_mainnet_sound (text s) h = ap text ((str_eq_iff s mainnet_network).0 h)
is_mainnet_sound v h = ground arith

validate-IsSettled :
    (s : Fields) (view : MainnetSafeSettlementView)
    → validate_mainnet_settlement_metadata (some s) ≡ SettlementCheck.ok view
    → IsSettled s
unfolding validate_mainnet_settlement_metadata
validate-IsSettled s view h = ground (arith, is_mainnet_sound (get "network" s))

module _ (web : Web) where
  -- What an attempt for an identifier, with the URL of its terms, sends and says: nothing was sent
  -- and the result says so; or one request was sent, and the result counts it.
  pub data IsAttempt (url id : String) (mode : SubmissionMode) (fetch : PaidRequest → Delivery)
      : List PaidRequest × MainnetPaymentExecutionResult → Type 0 where
    nothing_sent :
        (reason : String) (c : Counts)
        → c.payment_identifier ≡ id
        → c.payment_bearing_request_count ≡ 0
        → IsAttempt url id mode fetch ([], failed failure reason false c)
    sent :
        (r : PaidRequest) (status : FailureStatus) (reason : String) (c : Counts)
        → r.url ≡ url
        → c.payment_identifier ≡ id
        → c.payment_bearing_request_count ≡ 1
        → IsAttempt url id mode fetch (r ∷ [], failed status reason true c)
    paid :
        (r : PaidRequest) (payload : PaymentPayload) (view : MainnetSafeSettlementView) (c : Counts)
        (status : ℕ) (body : Option Value) (headers : Headers) (s : Fields)
        → r.url ≡ url
        → c.payment_identifier ≡ id
        → c.payment_bearing_request_count ≡ 1
        → mode ≡ normal
        → fetch r ≡ delivered status body headers
        → 200 ≤ status
        → status < 300
        → web.process_payment_result payload headers status ≡ some (some s)
        → IsSettled s
        → IsAttempt url id mode fetch (r ∷ [], succeeded (body_or_null web body) view c)

  settled-IsAttempt :
      (url id : String) (mode : SubmissionMode) (fetch : PaidRequest → Delivery) (signings : ℕ)
      (r : PaidRequest) (payload : PaymentPayload) (status : ℕ) (body : Option Value)
      (headers : Headers) (o : Option (Option Fields))
      → r.url ≡ url
      → mode ≡ normal
      → fetch r ≡ delivered status body headers
      → 200 ≤ status
      → status < 300
      → web.process_payment_result payload headers status ≡ o
      → IsAttempt url id mode fetch (r ∷ [], settled web (body_or_null web body) id signings o)
  unfolding settled
  settled-IsAttempt url id mode fetch signings r payload status body headers none u n f low high e =
      sent r potentially_submitted _ _ u refl refl
  settled-IsAttempt url id mode fetch signings r payload status body headers (some o) u n f low high
        e =
      by_check o (validate_mainnet_settlement_metadata o) refl e
    where
      by_check :
          (o : Option Fields) (check : SettlementCheck)
          → validate_mainnet_settlement_metadata o ≡ check
          → web.process_payment_result payload headers status ≡ some o
          → IsAttempt url id mode fetch
              (r ∷ [], settled web (body_or_null web body) id signings (some o))
      by_check o (SettlementCheck.bad reason) g e =
          rw (g, settled) (sent r failure reason _ u refl refl)
      by_check (some s) (SettlementCheck.ok view) g e =
          rw (g, settled)
            (paid r payload _ _ status body headers s u refl refl n f low high e
              (validate-IsSettled s view g))
      by_check none (SettlementCheck.ok view) g e =
          sent r failure "Settlement metadata is missing or invalid." _ u refl refl

  received-IsAttempt :
      (url id : String) (mode : SubmissionMode) (fetch : PaidRequest → Delivery) (signings : ℕ)
      (r : PaidRequest) (payload : PaymentPayload) (d : Delivery)
      → r.url ≡ url
      → submit_paid_request web fetch r mode ≡ d
      → IsAttempt url id mode fetch (r ∷ [], received web payload id signings d)
  unfolding received
  received-IsAttempt url id mode fetch signings r payload lost u e =
      sent r potentially_submitted _ _ u refl refl
  received-IsAttempt url id response_loss fetch signings r payload (delivered status body headers) u
        e =
      cc e
  received-IsAttempt url id normal fetch signings r payload (delivered status body headers) u e =
      elim (Bool-cases (ltb status 200 || leb 300 status)) [
        | inl h ↦ rw h (sent r potentially_submitted _ _ u refl refl)
        | inr h ↦ rw h (
            settled-IsAttempt url id normal fetch signings r payload status body headers
              (web.process_payment_result payload headers status) u refl e (ground arith)
              (ground arith) refl)
      ]

  submit-IsAttempt :
      (url id : String) (mode : SubmissionMode) (fetch : PaidRequest → Delivery) (before : ℕ)
      (s : Signing)
      → IsAttempt url id mode fetch (submit web url mode fetch id before s)
  unfolding submit
  submit-IsAttempt url id mode fetch before (refused error calls) = nothing_sent _ _ refl refl
  submit-IsAttempt url id mode fetch before (signed payload calls) =
      received-IsAttempt url id mode fetch (before + calls) _ payload _ refl refl

  -- Whatever the signing client, the network and the server do, an attempt sends at most one
  -- request that bears a payment, to the URL of its terms, and its result names the identifier
  -- and counts the requests that were sent. Where it reports that nothing was submitted, nothing
  -- was sent. Where it reports a success, the server answered with a status from 200 to 299 and
  -- a settlement that succeeded, on Base mainnet if it names a network.
  pub execute-IsAttempt :
      (seller : String) (terms : MainnetValidatedTerms) (mode : SubmissionMode)
      (fetch : PaidRequest → Delivery) (id : String) (before : ℕ)
      → IsAttempt terms.request_url id mode fetch
          (execute_mainnet_payment_attempt web seller terms mode fetch id before)
  unfolding execute_mainnet_payment_attempt
  execute-IsAttempt seller terms mode fetch id before =
      submit-IsAttempt terms.request_url id mode fetch before (sign web seller terms id)

-- An attempt sends one request at most.
pub length-IsAttempt :
    {web : Web} {url id : String} {mode : SubmissionMode} {fetch : PaidRequest → Delivery}
    {out : List PaidRequest × MainnetPaymentExecutionResult}
    → IsAttempt web url id mode fetch out
    → length out.0 ≤ 1
unfolding length
length-IsAttempt (nothing_sent reason c i n) = omega arith
length-IsAttempt (sent r status reason c u i n) = omega arith
length-IsAttempt (paid r p v c status b h s u i n m g l k e t) = omega arith
