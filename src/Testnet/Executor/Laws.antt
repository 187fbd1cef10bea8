-- ===== src/Testnet/Executor/Laws.antt =====
-- pay-executor.ts: what is sent for a quote, and when.
use x402_worker_template.Prelude.{
  ℕ, ◌≤◌, ◌<◌, String, true, false, ◌||◌, Option, none, some, List, [], ◌∷◌, ◌≡◌, ◌⊎◌, refl, arith,
  inl, inr, Bool-cases, leb, ltb,
}
use x402_worker_template.Js.{Value, text, Fields, get, is_truthy}
use x402_worker_template.Authorization.{PaymentPayload}
use x402_worker_template.Policy.Laws.{is_text_sound}
use x402_worker_template.Client.Sanitize.{SafeBrowserError}
use x402_worker_template.Client.Web.{Headers}
use x402_worker_template.Client.Executor.{PaidRequest}
use x402_worker_template.Testnet.Config.{PayPublicConfig, base_sepolia}
use x402_worker_template.Testnet.Settlement.{
  SafeSettlementView, SettlementCheck, validate_settlement_metadata,
}
use x402_worker_template.Testnet.Quote.{
  PaymentQuote, Readiness, ready, not_ready, assert_quote_ready_for_signing, mark_quote_consumed,
}
use x402_worker_template.Testnet.Quote.Laws.{MaySign, assert_quote-MaySign}
use x402_worker_template.Testnet.Executor.{
  Response, lost, opaque_redirect, delivered, Signed, refused, signed, Processed, failed, processed,
  Wallet, PaymentStatus, failure, potentially_submitted, PaymentExecutionResult, succeeded, stopped,
  body_or_null, after_processing, after_response, after_signing, after_preflight,
  execute_bound_payment,
}

-- A settlement that reports success, on Base Sepolia if it names a network.
pub record IsSettled (s : Fields) : Type 0 where
  success : is_truthy (get "success" s) ≡ true
  network : (is_truthy (get "network" s) ≡ false) ⊎ (get "network" s ≡ text base_sepolia)

validate-IsSettled :
    (s : Fields) (view : SafeSettlementView)
    → validate_settlement_metadata (some s) ≡ SettlementCheck.ok view
    → IsSettled s
unfolding validate_settlement_metadata
validate-IsSettled s view h = ground (arith, is_text_sound (get "network" s) base_sepolia)

-- What a payment of a quote sends and says.
pub data IsBound (w : Wallet) (q : PaymentQuote) (account : String) (chain_id : ℕ)
    (config : PayPublicConfig) : List PaidRequest × PaymentExecutionResult → Type 0 where
  nothing_sent :
      (status : PaymentStatus) (reason : String) (e : SafeBrowserError) (signatures : ℕ)
      → IsBound w q account chain_id config ([], stopped status reason e 0 signatures false)
  sent :
      (r : PaidRequest) (status : PaymentStatus) (reason : String) (e : SafeBrowserError)
      → MaySign q account chain_id config
      → r.url ≡ q.request_url
      → IsBound w q account chain_id config (r ∷ [], stopped status reason e 1 1 true)
  paid :
      (r : PaidRequest) (payload : PaymentPayload) (view : SafeSettlementView) (status : ℕ)
      (body : Option Value) (headers : Headers) (s : Fields)
      → MaySign q account chain_id config
      → r.url ≡ q.request_url
      → w.fetch r ≡ delivered status body headers
      → 200 ≤ status
      → status < 300
      → w.process_payment_result payload headers status ≡ processed false (some s)
      → IsSettled s
      → IsBound w q account chain_id config (r ∷ [], succeeded (body_or_null body) view 1 1)

module _ (w : Wallet) (q : PaymentQuote) (account : String) (chain_id : ℕ)
    (config : PayPublicConfig) (may : MaySign q account chain_id config) where
  after_processing-IsBound :
      (r : PaidRequest) (payload : PaymentPayload) (status : ℕ) (body : Option Value)
      (headers : Headers) (p : Processed)
      → r.url ≡ q.request_url
      → w.fetch r ≡ delivered status body headers
      → 200 ≤ status
      → status < 300
      → w.process_payment_result payload headers status ≡ p
      → IsBound w q account chain_id config (r ∷ [], after_processing (body_or_null body) p)
  unfolding after_processing
  after_processing-IsBound r payload status body headers (failed error) u f low high e =
      sent r potentially_submitted _ _ may u
  after_processing-IsBound r payload status body headers (processed true s) u f low high e =
      sent r potentially_submitted _ _ may u
  after_processing-IsBound r payload status body headers (processed false none) u f low high e =
      sent r failure "Settlement metadata is missing or invalid." _ may u
  after_processing-IsBound r payload status body headers (processed false (some s)) u f low high e =
      by_check (validate_settlement_metadata (some s)) refl
    where
      by_check :
          (check : SettlementCheck)
          → validate_settlement_metadata (some s) ≡ check
          → IsBound w q account chain_id config
              (r ∷ [], after_processing (body_or_null body) (processed false (some s)))
      by_check (SettlementCheck.bad reason) g =
          rw (g, after_processing) (sent r failure reason _ may u)
      by_check (SettlementCheck.ok view) g =
          rw (g, after_processing)
            (paid r payload _ status body headers s may u f low high e
              (validate-IsSettled s view g))

  after_response-IsBound :
      (r : PaidRequest) (payload : PaymentPayload) (a : Response)
      → r.url ≡ q.request_url
      → w.fetch r ≡ a
      → IsBound w q account chain_id config (r ∷ [], after_response w payload a)
  unfolding after_response
  after_response-IsBound r payload (lost error) u f = sent r potentially_submitted _ _ may u
  after_response-IsBound r payload opaque_redirect u f = sent r potentially_submitted _ _ may u
  after_response-IsBound r payload (delivered status body headers) u f =
      elim (Bool-cases (ltb status 200 || leb 300 status)) [
        | inl h ↦ rw h (sent r potentially_submitted _ _ may u)
        | inr h ↦ rw h (
            after_processing-IsBound r payload status body headers
              (w.process_payment_result payload headers status) u f (ground arith) (ground arith)
              refl)
      ]

  after_signing-IsBound :
      (s : Signed) → IsBound w q account chain_id config (after_signing w (mark_quote_consumed q) s)
  unfolding after_signing
  after_signing-IsBound (refused error) = nothing_sent _ _ _ 1
  after_signing-IsBound (signed payload) = after_response-IsBound _ payload _ refl refl

-- Whatever the wallet, the network and the server do, a payment of a quote sends at most one
-- request that bears a payment, to the URL of the quote, and only if the quote may be signed: it
-- is unused, of the connected account and chain and of the current configuration, with one
-- option and a requirement that has the policy's terms. The result counts the requests. Where it
-- reports a success, the server answered with a status from 200 to 299 and a settlement that
-- succeeded, on Base Sepolia if it names a network.
pub execute_bound_payment-IsBound :
    (w : Wallet) (q : PaymentQuote) (account : String) (chain_id : ℕ) (config : PayPublicConfig)
    → IsBound w q account chain_id config (execute_bound_payment w q account chain_id config)
unfolding execute_bound_payment
execute_bound_payment-IsBound w q account chain_id config =
    by_preflight (assert_quote_ready_for_signing q account chain_id config) refl
  where
    by_preflight :
        (e : Readiness)
        → assert_quote_ready_for_signing q account chain_id config ≡ e
        → IsBound w q account chain_id config (after_preflight w q e)
    by_preflight (not_ready reason) h = nothing_sent failure reason _ 0
    by_preflight ready h =
        after_signing-IsBound w q account chain_id config
          (assert_quote-MaySign q account chain_id config h)
          (w.create_payment_payload (mark_quote_consumed q).payment_required)
