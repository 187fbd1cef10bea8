-- ===== src/Facilitator/Http/Laws.antt =====
-- proof-facilitator-http.mainnet.ts: where a request goes, and which response is let through.
use x402_worker_template.Prelude.{
  ℕ, String, true, false, Option, none, some, List, [], ◌∷◌, ◌≡◌, ◌⊎◌, refl, ap, subst, arith, inl,
  inr, str_eq, str_eq_iff, Bool-cases,
}
use x402_worker_template.Js.Url.{Url}
use x402_worker_template.Authorization.{PaymentPayload}
use x402_worker_template.Policy.{PaymentRequirements}
use x402_worker_template.Facilitator.Errors.{AdapterError, Thrown, Result, ok, threw}
use x402_worker_template.Facilitator.Errors.Laws.{ok_inj}
use x402_worker_template.Facilitator.Http.{
  facilitator_origin, Operation, operation_path, assert_fixed_proof_facilitator_url, Platform,
  or_ok, fixed, build_fixed_proof_facilitator_url, Request, Response, is_redirect, Fetch, body_of,
  method_of, or_response, with_response_url, check_response, send,
  execute_proof_facilitator_request, is_json_content_type, parsed_bytes, json_of,
  read_facilitator_json,
}
use x402_worker_template.Facilitator.Http.Body.{ResponseBody, read_bounded_response_body}
use x402_worker_template.Js.{Value}

-- The one URL of an operation.
pub record IsFixed (u : Url) (path : String) : Type 0 where
  origin : u.origin ≡ facilitator_origin
  protocol : u.protocol ≡ "https:"
  username : u.username ≡ ""
  password : u.password ≡ ""
  port : (u.port ≡ "") ⊎ (u.port ≡ "443")
  pathname : u.pathname ≡ path
  search : u.search ≡ ""
  hash : u.hash ≡ ""

checked_url-IsFixed :
    (u : Url) (path : String) → assert_fixed_proof_facilitator_url u path ≡ none → IsFixed u path
unfolding assert_fixed_proof_facilitator_url
checked_url-IsFixed u path h = record {
  origin = ground (arith, str_eq_iff u.origin facilitator_origin);
  protocol = ground (arith, str_eq_iff u.protocol "https:");
  username = ground (arith, str_eq_iff u.username "");
  password = ground (arith, str_eq_iff u.password "");
  port = ground (arith, str_eq_iff u.port "", str_eq_iff u.port "443");
  pathname = ground (arith, str_eq_iff u.pathname path);
  search = ground (arith, str_eq_iff u.search "");
  hash = ground (arith, str_eq_iff u.hash "");
}

by_check :
    (path : String) (u v : Url) (a : Option AdapterError)
    → assert_fixed_proof_facilitator_url v path ≡ a
    → or_ok a v ≡ ok u
    → IsFixed u path
by_check path u v none g f =
    subst (λ w. IsFixed w path) (ok_inj v u f) (checked_url-IsFixed v path g)
by_check path u v (some e) g f = cc f

build-IsFixed :
    (p : Platform) (path : String) (u : Url)
    → build_fixed_proof_facilitator_url p path ≡ ok u
    → IsFixed u path
unfolding build_fixed_proof_facilitator_url
build-IsFixed p path u h = by_url (p.resolve_url path facilitator_origin) h
  where
    by_url : (o : Option Url) → fixed path o ≡ ok u → IsFixed u path
    by_url none e = cc e
    by_url (some v) e = by_check path u v (assert_fixed_proof_facilitator_url v path) refl e

-- A response comes from that URL, or from an unnamed one and is no redirect.
pub data IsFrom (p : Platform) (path : String) (r : Response) : Type 0 where
  unnamed : r.url ≡ "" → is_redirect r.status ≡ false → IsFrom p path r
  named : (u : Url) → p.parse_url r.url ≡ some u → IsFixed u path → IsFrom p path r

named_response :
    (p : Platform) (path : String) (o : Option Url) (r q : Response)
    → p.parse_url r.url ≡ o
    → with_response_url path o r ≡ ok q
    → (r ≡ q) × IsFrom p path r
named_response p path none r q e h = cc h
named_response p path (some u) r q e h =
    by_answer (assert_fixed_proof_facilitator_url u path) refl h
  where
    by_answer :
        (a : Option AdapterError)
        → assert_fixed_proof_facilitator_url u path ≡ a
        → or_response a r ≡ ok q
        → (r ≡ q) × IsFrom p path r
    by_answer none g f = (ok_inj r q f, named u e (checked_url-IsFixed u path g))
    by_answer (some err) g f = cc f

check_response-IsFrom :
    (p : Platform) (path : String) (a : Result Response) (q : Response)
    → check_response p path a ≡ ok q
    → (a ≡ ok q) × IsFrom p path q
unfolding check_response
check_response-IsFrom p path (threw t) q h = cc h
check_response-IsFrom p path (ok r) q h = elim (Bool-cases (str_eq r.url "")) [
  | inl empty ↦ elim (Bool-cases (is_redirect r.status)) [
    | inl e ↦ cc (rw (empty, e) at h)
    | inr e ↦
        let same : r ≡ q = ok_inj r q (rw (empty, e) at h) in
        (ap ok same, subst (IsFrom p path) same (unnamed (ground (arith, str_eq_iff r.url "")) e))
  ]
  | inr some_url ↦
      let (same, from) = named_response p path (p.parse_url r.url) r q refl (rw some_url at h) in
      (ap ok same, subst (IsFrom p path) same from)
]

-- What is sent, and the response that is let through.
pub data IsExchange (p : Platform) (fetch : Fetch) (operation : Operation)
    (payload : Option PaymentPayload) (requirements : Option PaymentRequirements)
    : List Request × Result Response → Type 0 where
  unsent : (t : Thrown) → IsExchange p fetch operation payload requirements ([], threw t)
  lost :
      (r : Request) (t : Thrown)
      → IsExchange p fetch operation payload requirements (r ∷ [], threw t)
  received :
      (r : Request) (u : Url) (a : Response)
      → IsFixed u (operation_path operation)
      → r.url ≡ u.href
      → r.method ≡ method_of operation
      → body_of p operation payload requirements ≡ ok r.body
      → fetch r ≡ ok a
      → IsFrom p (operation_path operation) a
      → IsExchange p fetch operation payload requirements (r ∷ [], ok a)

pub execute-IsExchange :
    (p : Platform) (fetch : Fetch) (operation : Operation) (payload : Option PaymentPayload)
    (requirements : Option PaymentRequirements)
    → IsExchange p fetch operation payload requirements
        (execute_proof_facilitator_request p fetch operation payload requirements)
unfolding execute_proof_facilitator_request
execute-IsExchange p fetch operation payload requirements =
    by_request (build_fixed_proof_facilitator_url p (operation_path operation))
      (body_of p operation payload requirements) refl refl
  where
    by_response :
        (r : Request) (u : Url) (a : Result Response)
        → IsFixed u (operation_path operation)
        → r.url ≡ u.href
        → r.method ≡ method_of operation
        → body_of p operation payload requirements ≡ ok r.body
        → check_response p (operation_path operation) (fetch r) ≡ a
        → IsExchange p fetch operation payload requirements (r ∷ [], a)
    by_response r u (threw t) f e m b c = lost r t
    by_response r u (ok a) f e m b c =
        let (same, from) = check_response-IsFrom p (operation_path operation) (fetch r) a c in
        received r u a f e m b same from

    by_request :
        (u : Result Url) (body : Result (Option String))
        → build_fixed_proof_facilitator_url p (operation_path operation) ≡ u
        → body_of p operation payload requirements ≡ body
        → IsExchange p fetch operation payload requirements (send p fetch operation u body)
    by_request (threw t) body e b = unsent t
    by_request (ok u) (threw t) e b = unsent t
    by_request (ok u) (ok body) e b =
        by_response _ u _ (build-IsFixed p (operation_path operation) u e) refl refl b refl

-- The JSON that a body holds within the limit.
pub record Holds (p : Platform) (b : ResponseBody) (v : Value) : Type 0 where
  pub bytes : List ℕ
  pub read : read_bounded_response_body p.limits b ≡ ok bytes
  pub json : p.parse_bytes bytes ≡ some v

json_of-Holds :
    (p : Platform) (b : ResponseBody) (bytes : Result (List ℕ)) (v : Value)
    → read_bounded_response_body p.limits b ≡ bytes
    → json_of p bytes ≡ ok v
    → Holds p b v
json_of-Holds p b (threw t) v e h = cc h
json_of-Holds p b (ok bytes) v e h = by_json (p.parse_bytes bytes) refl h
  where
    by_json : (o : Option Value) → p.parse_bytes bytes ≡ o → parsed_bytes o ≡ ok v → Holds p b v
    by_json none f g = cc g
    by_json (some w) f g = record {
      bytes = bytes;
      read = e;
      json = subst (λ x. p.parse_bytes bytes ≡ some x) (ok_inj w v g) f;
    }

pub read_facilitator_json-Holds :
    (p : Platform) (r : Response) (v : Value)
    → read_facilitator_json p r ≡ ok v
    → (is_json_content_type r.content_type ≡ true) × Holds p r.content v
unfolding read_facilitator_json
read_facilitator_json-Holds p r v h = elim (Bool-cases (is_redirect r.status)) [
  | inl e ↦ cc (rw e at h)
  | inr e ↦ elim (Bool-cases (is_json_content_type r.content_type)) [
    | inl j ↦ (j, json_of-Holds p r.content _ v refl (rw (e, j) at h))
    | inr j ↦ cc (rw (e, j) at h)
  ]
]
