-- ===== src/Buyer/Preflight/Laws.antt =====
-- buyer-preflight.ts: what a report without a failure has seen.
use x402_worker_template.Prelude.{
  ℕ, ◌≤◌, String, Bool, true, false, Option, none, some, List, [], ◌∷◌, ◌≡◌, refl, ap, subst, arith,
  inl, inr, Bool-cases, leb, nat_eq, str_eq, if◌then◌else◌,
}
use x402_worker_template.Js.Text.{trim}
use x402_worker_template.Client.Sanitize.{Thrown}
use x402_worker_template.Policy.{PaymentRequirements}
use x402_worker_template.Testnet.Policy.{
  matches_base_sepolia_payment_terms, PaymentTermsValidationResult,
  validate_base_sepolia_payment_requirements,
}
use x402_worker_template.Buyer.Guards.{
  BuyerGuardResult, ok, refused, or_empty, evaluate_buyer_guards,
}
use x402_worker_template.Buyer.Guards.Laws.{IsAllowed, evaluate_buyer_guards-IsAllowed}
use x402_worker_template.Buyer.Redaction.{RedactionContext}
use x402_worker_template.Buyer.Run.{
  Environment, Response, FetchRequest, FetchAnswer, response, rejected, Account, address, bad_key,
  config_of,
}
use x402_worker_template.Buyer.Preflight.{
  pass, fail, PreflightStageResult, Answer, gives, throws, World, tested, minimum_units,
  payment_payload_prerequisites, client_stages, balance_stages, decimals_stages, chain_stages,
  account_stages, terms_stages, decoded_stages, response_stages, guard_stages, header_of,
  any_failed, redaction_context_from_env, run_buyer_preflight,
}

-- A test that is no failure.
tested_passed :
    (stage detail : String) (b : Bool) (rest : List PreflightStageResult)
    → any_failed (tested stage b detail ∷ rest) ≡ false
    → (b ≡ true) × (any_failed rest ≡ false)
unfolding any_failed
tested_passed stage detail true rest h = (refl, h)
tested_passed stage detail false rest h = cc h

is_enough : (m b : ℕ) → leb m b ≡ true → m ≤ b
is_enough m b h = ground arith

is_chain_id : (n : ℕ) {a : Answer ℕ} → nat_eq n 84532 ≡ true → a ≡ gives n → a ≡ gives 84532
is_chain_id n same e = let n_is : n ≡ 84532 = ground arith in rw (← n_is) e

-- The payment that could be made.
pub record IsPayable (w : World) (e : Environment) (account : String) : Type 0 where
  decimals : ℕ
  balance : ℕ
  chain : w.get_chain_id ≡ gives 84532
  read_decimals : w.read_decimals ≡ gives decimals
  read_balance : w.read_balance_of account ≡ gives balance
  enough : minimum_units decimals ≤ balance
  client : w.construct_client (trim (or_empty e.expected_pay_to_address)) ≡ none

pub record IsOffer (w : World) (e : Environment) (r : Response) : Type 0 where
  requirement : PaymentRequirements
  status : r.status ≡ 402
  decoded : w.decode_payment_required_header (header_of r) ≡ gives (requirement ∷ [])
  matching :
      matches_base_sepolia_payment_terms requirement (trim (or_empty e.expected_pay_to_address))
      ≡ true

module _ (w : World) (context : RedactionContext) (e : Environment) where
  client-none : (t : Option Thrown) → any_failed (client_stages w context e t) ≡ false → t ≡ none
  unfolding client_stages any_failed
  client-none none h = refl
  client-none (some t) h = cc h

  balance-IsPayable :
      (account : String) (d : ℕ) (b : Answer ℕ)
      → w.get_chain_id ≡ gives 84532
      → w.read_decimals ≡ gives d
      → w.read_balance_of account ≡ b
      → any_failed (balance_stages w context e d b) ≡ false
      → IsPayable w e account
  unfolding balance_stages any_failed
  balance-IsPayable account d (throws t) c x y h = cc h
  balance-IsPayable account d (gives b) c x y h =
      let (enough, rest) =
        tested_passed _ _ (leb (minimum_units d) b)
          (client_stages w context e
            (w.construct_client (trim (or_empty e.expected_pay_to_address))))
          h in
      record {
        decimals = d;
        balance = b;
        chain = c;
        read_decimals = x;
        read_balance = y;
        enough = is_enough (minimum_units d) b enough;
        client = client-none _ rest;
      }

  decimals-IsPayable :
      (account : String) (d : Answer ℕ)
      → w.get_chain_id ≡ gives 84532
      → w.read_decimals ≡ d
      → any_failed (decimals_stages w context e account d) ≡ false
      → IsPayable w e account
  unfolding decimals_stages any_failed
  decimals-IsPayable account (throws t) c x h = cc h
  decimals-IsPayable account (gives d) c x h = balance-IsPayable account d _ c x refl h

  chain-IsPayable :
      (account : String) (n : Answer ℕ)
      → w.get_chain_id ≡ n
      → any_failed (chain_stages w context e account n) ≡ false
      → IsPayable w e account
  unfolding chain_stages any_failed
  chain-IsPayable account (throws t) c h = cc h
  chain-IsPayable account (gives n) c h =
      let (same, rest) =
        tested_passed _ _ (nat_eq n 84532) (decimals_stages w context e account w.read_decimals)
          h in
      decimals-IsPayable account _ (is_chain_id n same c) refl rest

  account-IsPayable :
      (a : Account)
      → w.private_key_to_account (trim (or_empty e.evm_private_key)) ≡ a
      → any_failed (account_stages w context e a) ≡ false
      → (account : String) × (w.private_key_to_account (trim (or_empty e.evm_private_key))
          ≡ address account)
        × IsPayable w e account
  unfolding account_stages any_failed
  account-IsPayable (bad_key t) x h = cc h
  account-IsPayable (address a) x h = (a, x, chain-IsPayable a _ refl h)

  terms-IsPayable :
      (v : PaymentTermsValidationResult)
      → any_failed (terms_stages w context e v) ≡ false
      → (r : PaymentRequirements) × (v ≡ PaymentTermsValidationResult.ok r)
        × (account : String) × (w.private_key_to_account (trim (or_empty e.evm_private_key))
            ≡ address account)
        × IsPayable w e account
  unfolding terms_stages any_failed
  terms-IsPayable (PaymentTermsValidationResult.bad reason) h = cc h
  terms-IsPayable (PaymentTermsValidationResult.ok r) h =
      let (prerequisites, rest) =
        tested_passed _ _ (payment_payload_prerequisites r)
          (account_stages w context e
            (w.private_key_to_account (trim (or_empty e.evm_private_key))))
          h in
      let (account, made, payable) = account-IsPayable _ refl rest in
      (r, refl, account, made, payable)

requirement_or : PaymentRequirements → PaymentTermsValidationResult → PaymentRequirements
requirement_or d (PaymentTermsValidationResult.ok r) = r
requirement_or d (PaymentTermsValidationResult.bad reason) = d

is_status : (n : ℕ) → nat_eq n 402 ≡ true → n ≡ 402
is_status n h = ground arith

no_failure : (b : Bool) → (if b then fail else pass) ≡ pass → b ≡ false
no_failure true h = cc h
no_failure false h = refl

one_matches :
    (rs : List PaymentRequirements) (pay_to : String) (r : PaymentRequirements)
    → validate_base_sepolia_payment_requirements rs pay_to ≡ PaymentTermsValidationResult.ok r
    → (rs ≡ r ∷ []) × (matches_base_sepolia_payment_terms r pay_to ≡ true)
unfolding validate_base_sepolia_payment_requirements requirement_or
one_matches [] pay_to r h = cc h
one_matches (q ∷ []) pay_to r h = elim (Bool-cases (matches_base_sepolia_payment_terms q pay_to)) [
  | inl m ↦
      let same : q ≡ r = validated q r (rw m at h) in
      (
        ap (λ x. x ∷ []) same,
        subst (λ x. matches_base_sepolia_payment_terms x pay_to ≡ true) same m,
      )
  | inr m ↦ cc (rw m at h)
]
  where
    validated :
        (a b : PaymentRequirements)
        → PaymentTermsValidationResult.ok a ≡ PaymentTermsValidationResult.ok b
        → a ≡ b
    validated a b e = ap (requirement_or a) e
one_matches (q ∷ p ∷ rs) pay_to r h = cc h

-- What a preflight without a failure has seen, with the one request that it sends.
pub record IsReady (w : World) (e : Environment) (sent : List FetchRequest) : Type 0 where
  allowed : IsAllowed w.parse_url (config_of e)
  request : FetchRequest
  one : sent ≡ request ∷ []
  unpaid : request.payment_signature ≡ none
  answer : Response
  answered : w.fetch request ≡ response answer
  offer : IsOffer w e answer
  account : String
  made : w.private_key_to_account (trim (or_empty e.evm_private_key)) ≡ address account
  payable : IsPayable w e account

record IsAnswered (w : World) (e : Environment) (a : FetchAnswer) : Type 0 where
  answer : Response
  answered : a ≡ response answer
  offer : IsOffer w e answer
  account : String
  made : w.private_key_to_account (trim (or_empty e.evm_private_key)) ≡ address account
  payable : IsPayable w e account

module _ (w : World) (context : RedactionContext) (e : Environment) where
  decoded-IsAnswered :
      (r : Response) (d : Answer (List PaymentRequirements))
      → r.status ≡ 402
      → w.decode_payment_required_header (header_of r) ≡ d
      → any_failed (decoded_stages w context e d) ≡ false
      → IsAnswered w e (response r)
  unfolding decoded_stages any_failed
  decoded-IsAnswered r (throws t) s x h = cc h
  decoded-IsAnswered r (gives rs) s x h =
      let (q, valid, account, made, payable) = terms-IsPayable w context e _ h in
      let (single, matching) = one_matches rs (trim (or_empty e.expected_pay_to_address)) q valid in
      record {
        answer = r;
        answered = refl;
        offer = record {
          requirement = q;
          status = s;
          decoded = rw single at x;
          matching = matching;
        };
        account = account;
        made = made;
        payable = payable;
      }

  response-IsAnswered :
      (a : FetchAnswer) → any_failed (response_stages w context e a) ≡ false → IsAnswered w e a
  unfolding response_stages any_failed
  response-IsAnswered (rejected t) h = cc h
  response-IsAnswered (response r) h = elim (Bool-cases (nat_eq r.status 402)) [
    | inl s ↦ elim (Bool-cases (str_eq (header_of r) "")) [
      | inl empty ↦ cc (rw (s, empty) at h)
      | inr there ↦ decoded-IsAnswered r _ (is_status r.status s) refl (rw (s, there) at h)
    ]
    | inr s ↦ cc (rw s at h)
  ]

  guard-IsReady :
      (g : BuyerGuardResult)
      → evaluate_buyer_guards w.parse_url (config_of e) ≡ g
      → any_failed (guard_stages w context e g).1 ≡ false
      → IsReady w e (guard_stages w context e g).0
  unfolding guard_stages any_failed
  guard-IsReady (refused reason) x h = cc h
  guard-IsReady ok x h =
      let seen : IsAnswered w e (w.fetch _) = response-IsAnswered _ h in
      record {
        allowed = evaluate_buyer_guards-IsAllowed w.parse_url (config_of e) x;
        request = record { url = or_empty e.api_url; payment_signature = none };
        one = refl;
        unpaid = refl;
        answer = seen.answer;
        answered = seen.answered;
        offer = seen.offer;
        account = seen.account;
        made = seen.made;
        payable = seen.payable;
      }

-- Where the preflight passes, everything was there that a payment needs: the environment is
-- allowed, the one request that was sent bears no payment and was answered 402 with one option that
-- has the policy's terms for the expected payee, the key makes an account, the RPC is that of Base
-- Sepolia, the account's balance is at least what the command asks for at the token's decimals, and
-- the x402 client could be made.
pub run_buyer_preflight-IsReady :
    (w : World) (initial e : Environment)
    → (run_buyer_preflight w initial e).1.overall ≡ pass
    → IsReady w e (run_buyer_preflight w initial e).0
unfolding run_buyer_preflight
run_buyer_preflight-IsReady w initial e h =
    guard-IsReady w (redaction_context_from_env initial) e _ refl (no_failure _ h)
