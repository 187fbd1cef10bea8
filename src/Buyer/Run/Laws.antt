-- ===== src/Buyer/Run/Laws.antt =====
-- buyer-run.ts: when a request is sent, and what a failure tells of it.
use x402_worker_template.Prelude.{
  ℕ, zero, suc, ◌+◌, ◌≤◌, Bool, true, false, ◌||◌, List, [], ◌∷◌, ◌≡◌, refl, ap, arith, inl, inr,
  length, Bool-cases,
}
use x402_worker_template.Client.Sanitize.{Thrown, includes}
use x402_worker_template.Buyer.Guards.{BuyerGuardResult, ok, refused, evaluate_buyer_guards}
use x402_worker_template.Buyer.Guards.Laws.{IsAllowed, evaluate_buyer_guards-IsAllowed}
use x402_worker_template.Buyer.Diagnostics.{
  BuyerStage, initial_unpaid_request, extract_raw_message, infer_stage_from_error,
  payment_bearing_request_likely_sent, SafeBuyerDiagnostic,
}
use x402_worker_template.Buyer.Run.{
  Environment, BodyText, read, unread, Response, FetchRequest, Wrapped, call, returns, throws,
  Account, address, bad_key, World, BuyerSuccess, Attempt, succeeded, broke, stage_of,
  read_response, run_wrapped, config_of, with_account, guarded, attempt_payment, redaction_of,
  BuyerRunResult, paid, failed, report_of, run_buyer_payment,
}

-- The stage after a number of calls.
reached : ℕ → BuyerStage
reached zero = initial_unpaid_request
reached (suc n) = stage_of n

reached-sent : (n : ℕ) → 2 ≤ n → payment_bearing_request_likely_sent (reached n) ≡ true
unfolding reached payment_bearing_request_likely_sent
reached-sent zero h = absurd (omega arith)
reached-sent (suc zero) h = absurd (omega arith)
reached-sent (suc (suc n)) h = refl

stage_in : Attempt → BuyerStage → BuyerStage
stage_in (broke t s) d = s
stage_in (succeeded x) d = d

broke_inj : (t u : Thrown) (r s : BuyerStage) → broke t r ≡ broke u s → r ≡ s
unfolding stage_in
broke_inj t u r s h = ap (λ a. stage_in a r) h

read_response-sent :
    (w : World) (r : Response) (b : BodyText) (t : Thrown) (s : BuyerStage)
    → read_response w r b ≡ broke t s
    → payment_bearing_request_likely_sent s ≡ true
unfolding read_response payment_bearing_request_likely_sent
read_response-sent w r (unread u) t s h = rw (← (broke_inj u t _ s h)) refl
read_response-sent w r (read x) t s h = cc h

-- Where a second request was sent, the stage that is reached is one behind it.
run_wrapped-sent :
    (w : World) (x : Wrapped) (n : ℕ) (t : Thrown) (s : BuyerStage)
    → (run_wrapped w n (reached n) x).1 ≡ broke t s
    → 2 ≤ n + length (run_wrapped w n (reached n) x).0
    → payment_bearing_request_likely_sent s ≡ true
unfolding run_wrapped length reached
run_wrapped-sent w (returns r) n t s h l = read_response-sent w r r.body t s h
run_wrapped-sent w (throws u) n t s h l =
    rw (← (broke_inj u t (reached n) s h)) (reached-sent n (omega arith))
run_wrapped-sent w (call request next) n t s h l =
    run_wrapped-sent w (next (w.fetch request)) (suc n) t s h (omega arith)

-- The two texts that put a failure before the payment, whatever was sent.
abbrev pub is_misleading : Thrown → Bool
is_misleading t =
    includes "Failed to parse payment requirements" (extract_raw_message t)
    || includes "Failed to create payment payload" (extract_raw_message t)

infer-sent :
    (t : Thrown) (s : BuyerStage)
    → is_misleading t ≡ false
    → payment_bearing_request_likely_sent s ≡ true
    → payment_bearing_request_likely_sent (infer_stage_from_error t s) ≡ true
unfolding infer_stage_from_error payment_bearing_request_likely_sent
infer-sent t s m h = ground arith

-- What the result says, for the requests behind the first one.
pub data IsTold (w : World) (e : Environment) (later : List FetchRequest)
    : BuyerRunResult → Type 0 where
  unpaid : (r : BuyerRunResult) → later ≡ [] → IsTold w e later r
  settled : (s : BuyerSuccess) → IsTold w e later (paid s)
  misled :
      (r : BuyerRunResult) (t : Thrown) (s : BuyerStage)
      → (attempt_payment w e).1 ≡ broke t s
      → is_misleading t ≡ true
      → IsTold w e later r
  told : (d : SafeBuyerDiagnostic) → d.likely_sent ≡ true → IsTold w e later (failed d)

two :
    (xs : List FetchRequest) (a b : FetchRequest) (rest : List FetchRequest)
    → xs ≡ a ∷ (b ∷ rest)
    → 2 ≤ length xs
unfolding length
two xs a b rest h = rw h (omega arith)

account-sent :
    (w : World) (e : Environment) (a : Account) (t : Thrown) (s : BuyerStage)
    → (with_account w e a).1 ≡ broke t s
    → 2 ≤ length (with_account w e a).0
    → payment_bearing_request_likely_sent s ≡ true
unfolding length reached
account-sent w e (bad_key u) t s h l = absurd (omega arith)
account-sent w e (address a) t s h l = run_wrapped-sent w _ 0 t s h (omega arith)

attempt-sent :
    (w : World) (e : Environment) (g : BuyerGuardResult) (t : Thrown) (s : BuyerStage)
    → (guarded w e g).1 ≡ broke t s
    → 2 ≤ length (guarded w e g).0
    → payment_bearing_request_likely_sent s ≡ true
unfolding length
attempt-sent w e (refused reason) t s h l = absurd (omega arith)
attempt-sent w e ok t s h l = account-sent w e _ t s h l

guards_passed :
    (w : World) (e : Environment) (g : BuyerGuardResult) (r : FetchRequest) (rs : List FetchRequest)
    → (guarded w e g).0 ≡ r ∷ rs
    → g ≡ ok
guards_passed w e ok r rs h = refl
guards_passed w e (refused reason) r rs h = cc h

-- If the command sends a request at all, its environment is allowed: the URL is the paid route with
-- one value, without credentials or a fragment, on the local server or over https: on the configured
-- origin under workers.dev; the key and the payee are hexadecimal of the right length; payments are
-- switched on and the network is Base Sepolia. And if it sends a second request and then fails, it
-- reports that a payment was likely sent, unless the error has one of the two texts that are taken
-- for an earlier failure.
pub run_buyer_payment-IsTold :
    (w : World) (e : Environment) (first : FetchRequest) (later : List FetchRequest)
    → (run_buyer_payment w e).0 ≡ first ∷ later
    → IsAllowed w.parse_url (config_of e) × IsTold w e later (run_buyer_payment w e).1
unfolding run_buyer_payment attempt_payment
run_buyer_payment-IsTold w e first later h = (
  evaluate_buyer_guards-IsAllowed w.parse_url (config_of e)
      (guards_passed w e (evaluate_buyer_guards w.parse_url (config_of e)) first later h),
  by_later later h,
)
  where
    by_attempt :
        (next : FetchRequest) (rest : List FetchRequest) (a : Attempt)
        → (attempt_payment w e).0 ≡ first ∷ (next ∷ rest)
        → (attempt_payment w e).1 ≡ a
        → IsTold w e (next ∷ rest) (report_of (redaction_of w e) a)
    by_attempt next rest (succeeded s) g f = settled s
    by_attempt next rest (broke t s) g f = elim (Bool-cases (is_misleading t)) [
      | inl m ↦ misled _ t s f m
      | inr m ↦ told _ (
          infer-sent t s m
            (attempt-sent w e _ t s f (two (attempt_payment w e).0 first next rest g)))
    ]

    by_later :
        (later : List FetchRequest)
        → (attempt_payment w e).0 ≡ first ∷ later
        → IsTold w e later (report_of (redaction_of w e) (attempt_payment w e).1)
    by_later [] g = unpaid _ refl
    by_later (next ∷ rest) g = by_attempt next rest _ g refl
