-- ===== src/Facilitator/Client/Laws.antt =====
-- proof-facilitator-client.mainnet.ts: what a response of the adapter rests on.
use x402_worker_template.Prelude.{
  ℕ, String, true, false, Option, none, some, List, [], ◌∷◌, ◌≡◌, ◌⊎◌, refl, sym, ◌∙◌, subst, arith,
  inl, inr, nat_eq, Bool-cases, length,
}
use x402_worker_template.Js.{Value, null, Fields, has_key, as_object}
use x402_worker_template.Js.Url.{Url}
use x402_worker_template.Authorization.{PaymentPayload}
use x402_worker_template.Policy.{PaymentRequirements}
use x402_worker_template.Facilitator.Errors.{
  Thrown, adapter, aborted, type_error, unknown, Result, ok, threw,
}
use x402_worker_template.Facilitator.Errors.Laws.{ok_inj}
use x402_worker_template.Facilitator.Responses.{
  parse_verify_response_json, parse_settle_response_json,
}
use x402_worker_template.Facilitator.Http.{
  Operation, body_of, method_of, verify, settle, operation_path, Platform, Request, Response, Fetch,
  is_ok, is_json_content_type, read_facilitator_json,
}
use x402_worker_template.Facilitator.Http.Body.{ResponseBody, read_bounded_response_body}
use x402_worker_template.Facilitator.Http.Laws.{
  IsFixed, IsFrom, IsExchange, lost, received, execute-IsExchange, Holds,
  read_facilitator_json-Holds,
}
use x402_worker_template.Facilitator.Client.{
  Outcome, answered, failed, refused, parsed_with, outcome_of, parsed_error, error_body,
  try_parse_error_body, failure_of, refused_if, response_with, verify_payment, settle_payment,
}

-- A response that an answer may be read from, or a refusal.
data Shows {A : Type 0} (parse : Value → Result A) (key : String) (p : Platform) (a : Response)
    : Outcome A → Type 0 where
  shows_failure : (t : Thrown) → Shows parse key p a (failed t)
  shows_answer :
      (v : Value) (x : A)
      → is_ok a.status ≡ true
      → is_json_content_type a.content_type ≡ true
      → Holds p a.content v
      → parse v ≡ ok x
      → Shows parse key p a (answered x)
  shows_refusal :
      (v : Value) (fs : Fields)
      → is_ok a.status ≡ false
      → Holds p a.content v
      → as_object v ≡ some fs
      → has_key key fs ≡ true
      → Shows parse key p a (refused a.status v)

-- What the body of an error gives: nothing that matters, or JSON.
error_body-Holds :
    (p : Platform) (b : ResponseBody) (bytes : Result (List ℕ)) (v : Value)
    → read_bounded_response_body p.limits b ≡ bytes
    → error_body p bytes ≡ ok v
    → (v ≡ null) ⊎ Holds p b v
error_body-Holds p b (threw (adapter e)) v g h = inl (ok_inj v null (sym h))
error_body-Holds p b (threw aborted) v g h = cc h
error_body-Holds p b (threw type_error) v g h = cc h
error_body-Holds p b (threw unknown) v g h = cc h
error_body-Holds p b (ok bytes) v g h = elim (Bool-cases (nat_eq (length bytes) 0)) [
  | inl e ↦ inl (ok_inj v null (sym (rw e at h)))
  | inr e ↦ inr (by_json (p.parse_bytes bytes) refl (rw e at h))
]
  where
    by_json : (o : Option Value) → p.parse_bytes bytes ≡ o → parsed_error o ≡ ok v → Holds p b v
    by_json none f k = cc k
    by_json (some w) f k = record {
      bytes = bytes;
      read = g;
      json = subst (λ x. p.parse_bytes bytes ≡ some x) (ok_inj w v k) f;
    }

module _ {A : Type 0} (parse : Value → Result A) (key message : String) (p : Platform) where
  answer-Shows :
      (a : Response) (v : Result Value)
      → is_ok a.status ≡ true
      → read_facilitator_json p a ≡ v
      → Shows parse key p a (parsed_with parse v)
  answer-Shows a (threw t) e h = shows_failure t
  answer-Shows a (ok v) e h = by_parse (parse v) refl
    where
      by_parse : (r : Result A) → parse v ≡ r → Shows parse key p a (outcome_of r)
      by_parse (threw t) f = shows_failure t
      by_parse (ok x) f =
          let (json, holds) = read_facilitator_json-Holds p a v h in shows_answer v x e json holds f

  refusal-Shows :
      (a : Response) (v : Value) (o : Option Fields)
      → is_ok a.status ≡ false
      → (v ≡ null) ⊎ Holds p a.content v
      → as_object v ≡ o
      → Shows parse key p a (refused_if key message a.status v o)
  refusal-Shows a v none e h f = shows_failure _
  refusal-Shows a v (some fs) e (inl n) f = cc (rw n at f)
  refusal-Shows a v (some fs) e (inr h) f = elim (Bool-cases (has_key key fs)) [
    | inl k ↦ rw k (shows_refusal v fs e h f k)
    | inr k ↦ rw k (shows_failure _)
  ]

  failure-Shows :
      (a : Response) (v : Result Value)
      → is_ok a.status ≡ false
      → try_parse_error_body p a.content ≡ v
      → Shows parse key p a (failure_of key message a.status v)
  unfolding try_parse_error_body
  failure-Shows a (threw t) e h = shows_failure t
  failure-Shows a (ok v) e h =
      refusal-Shows a v (as_object v) e (error_body-Holds p a.content _ v refl h) refl

  response_with-Shows :
      (a : Response) → Shows parse key p a (response_with parse key message p (ok a))
  response_with-Shows a = elim (Bool-cases (is_ok a.status)) [
    | inl e ↦ rw e (answer-Shows a _ e refl)
    | inr e ↦ rw e (failure-Shows a _ e refl)
  ]

-- What an operation that posts a payment sends and gives.
pub data IsPosted {A : Type 0} (parse : Value → Result A) (key : String) (p : Platform)
    (fetch : Fetch) (operation : Operation) (payload : PaymentPayload)
    (requirements : PaymentRequirements) : List Request × Outcome A → Type 0 where
  unsent : (t : Thrown) → IsPosted parse key p fetch operation payload requirements ([], failed t)
  broken :
      (r : Request) (t : Thrown)
      → IsPosted parse key p fetch operation payload requirements (r ∷ [], failed t)
  answer :
      (r : Request) (u : Url) (a : Response) (v : Value) (x : A)
      → IsFixed u (operation_path operation)
      → r ≡ record {
        url = u.href;
        method = "POST";
        body = some (p.stringify_request payload requirements);
      }
      → fetch r ≡ ok a
      → IsFrom p (operation_path operation) a
      → is_ok a.status ≡ true
      → is_json_content_type a.content_type ≡ true
      → Holds p a.content v
      → parse v ≡ ok x
      → IsPosted parse key p fetch operation payload requirements (r ∷ [], answered x)
  refusal :
      (r : Request) (u : Url) (a : Response) (v : Value) (fs : Fields)
      → IsFixed u (operation_path operation)
      → r ≡ record {
        url = u.href;
        method = "POST";
        body = some (p.stringify_request payload requirements);
      }
      → fetch r ≡ ok a
      → IsFrom p (operation_path operation) a
      → is_ok a.status ≡ false
      → Holds p a.content v
      → as_object v ≡ some fs
      → has_key key fs ≡ true
      → IsPosted parse key p fetch operation payload requirements (r ∷ [], refused a.status v)

module _ {A : Type 0} (parse : Value → Result A) (key message : String) (p : Platform)
    (fetch : Fetch) (operation : Operation) (payload : PaymentPayload)
    (requirements : PaymentRequirements) where
  shown-IsPosted :
      (r : Request) (u : Url) (a : Response) (o : Outcome A)
      → IsFixed u (operation_path operation)
      → r ≡ record {
        url = u.href;
        method = "POST";
        body = some (p.stringify_request payload requirements);
      }
      → fetch r ≡ ok a
      → IsFrom p (operation_path operation) a
      → Shows parse key p a o
      → IsPosted parse key p fetch operation payload requirements (r ∷ [], o)
  shown-IsPosted r u a _ f e g from (shows_failure t) = broken r t
  shown-IsPosted r u a _ f e g from (shows_answer v x s j h k) = answer r u a v x f e g from s j h k
  shown-IsPosted r u a _ f e g from (shows_refusal v fs s h o k) =
      refusal r u a v fs f e g from s h o k

  exchanged-IsPosted :
      (out : List Request × Result Response)
      → method_of operation ≡ "POST"
      → body_of p operation (some payload) (some requirements)
        ≡ ok (some (p.stringify_request payload requirements))
      → IsExchange p fetch operation (some payload) (some requirements) out
      → IsPosted parse key p fetch operation payload requirements
          (out.0, response_with parse key message p out.1)
  exchanged-IsPosted _ m b (IsExchange.unsent t) = unsent t
  exchanged-IsPosted _ m b (lost r t) = broken r t
  exchanged-IsPosted _ m b (received r u a f e n c g from) =
      let body : r.body ≡ some (p.stringify_request payload requirements) =
        ok_inj _ _ (sym c ∙ b) in
      shown-IsPosted r u a _ f (ground (arith, e, n, m, body)) g from
        (response_with-Shows parse key message p a)

-- Whatever the network and the facilitator do, `verify` and `settle` send at most one request. A
-- response is given, or a `VerifyError` or `SettleError` thrown, only if that request is a POST of
-- the payload and the requirements to the fixed URL of the operation, and the network's response to
-- it is from that URL, or unnamed and no redirect. A response has a status from 200 to 299, the
-- content type of JSON, and a body within the limit that is JSON of the operation's shape. An error
-- has another status, which it reports with the JSON of the body, an object with the property
-- `isValid` or `success`.
pub verify_and_settle-IsPosted :
    (p : Platform) (fetch : Fetch) (payload : PaymentPayload) (requirements : PaymentRequirements)
    → IsPosted parse_verify_response_json "isValid" p fetch verify payload requirements
        (verify_payment p fetch payload requirements)
      × IsPosted parse_settle_response_json "success" p fetch settle payload requirements
          (settle_payment p fetch payload requirements)
unfolding verify_payment settle_payment
verify_and_settle-IsPosted p fetch payload requirements = (
  exchanged-IsPosted parse_verify_response_json "isValid" "Facilitator verify request failed." p
      fetch verify payload requirements _ refl refl
      (execute-IsExchange p fetch verify (some payload) (some requirements)),
  exchanged-IsPosted parse_settle_response_json "success" "Facilitator settle request failed." p
      fetch settle payload requirements _ refl refl
      (execute-IsExchange p fetch settle (some payload) (some requirements)),
)
