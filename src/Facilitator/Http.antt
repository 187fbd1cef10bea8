-- ===== src/Facilitator/Http.antt =====
-- src/mainnet/proof-facilitator-http.mainnet.ts and proof-facilitator-candidate.mainnet.ts: one
-- request to the facilitator, at a fixed URL, and its response.
pub mod Body
pub mod Laws
use Prim.Native.String.{◌++◌}
use x402_worker_template.Prelude.{
  ℕ, String, Char, code, Bool, true, false, not, ◌&&◌, ◌||◌, Option, none, some, List, [], ◌∷◌, leb,
  ltb, nat_eq, str_eq, is_some, if◌then◌else◌,
}
use x402_worker_template.Js.{Value}
use x402_worker_template.Js.Text.{trim, to_lower_case}
use x402_worker_template.Js.Url.{Url}
use x402_worker_template.Authorization.{PaymentPayload}
use x402_worker_template.Policy.{PaymentRequirements}
use x402_worker_template.Facilitator.Errors.{
  Category, invalid_origin, invalid_path, redirect, content_type, invalid_json, internal,
  AdapterError, Thrown, type_error, Result, ok, threw, error, throws,
  to_safe_facilitator_transport_error,
}
use x402_worker_template.Facilitator.Http.Body.{Limits, ResponseBody, read_bounded_response_body}

abbrev pub facilitator_origin : String
facilitator_origin = "https://facilitator.payai.network"

pub data Operation : Type 0 where
  supported verify settle : Operation

-- `OPERATION_PATH`.
abbrev pub operation_path : Operation → String
operation_path supported = "/supported"
operation_path verify = "/verify"
operation_path settle = "/settle"

-- The first check that fails throws.
unfoldable pub assert_fixed_proof_facilitator_url : Url → String → Option AdapterError
assert_fixed_proof_facilitator_url url expected_path =
    if not (str_eq url.origin facilitator_origin)
    then some (error "Facilitator origin must match the reviewed proof candidate." invalid_origin)
    else (if not (str_eq url.protocol "https:")
        then some (error "Facilitator requests must use HTTPS." invalid_origin)
        else (if not (str_eq url.username "") || not (str_eq url.password "")
            then some (error "Facilitator URL credentials are not permitted." invalid_origin)
            else (if not (str_eq url.port "") && not (str_eq url.port "443")
                then some
                    (error "Facilitator URL port must remain the HTTPS default." invalid_origin)
                else (if not (str_eq url.pathname expected_path)
                    then some (
                        error "Facilitator path must match the reviewed proof candidate endpoint."
                          invalid_path)
                    else (if not (str_eq url.search "")
                        then some (
                            error "Facilitator URL query parameters are not permitted."
                              invalid_path)
                        else (if not (str_eq url.hash "")
                            then some
                                (error "Facilitator URL fragments are not permitted." invalid_path)
                            else none))))))

-- What the adapter takes from the platform: `new URL(path, base)` and `new URL(text)`, which may
-- throw a `TypeError`, `JSON.stringify` of the body of a request, and the reading of a text of bytes
-- as JSON, which may throw.
pub record Platform : Type 0 where
  pub resolve_url : String → String → Option Url
  pub parse_url : String → Option Url
  pub stringify_request : PaymentPayload → PaymentRequirements → String
  pub parse_bytes : List ℕ → Option Value
  pub limits : Limits

abbrev or_ok : Option AdapterError → Url → Result Url
or_ok none u = ok u
or_ok (some e) u = threw (Thrown.adapter e)

abbrev fixed : String → Option Url → Result Url
fixed path none = threw type_error
fixed path (some u) = or_ok (assert_fixed_proof_facilitator_url u path) u

unfoldable pub build_fixed_proof_facilitator_url : Platform → String → Result Url
unfolding assert_fixed_proof_facilitator_url
build_fixed_proof_facilitator_url p path = fixed path (p.resolve_url path facilitator_origin)

-- `split(";")[0]`.
before_semicolon : String → String
before_semicolon String.[] = ""
before_semicolon (String.◌∷◌ c s) =
    let rest = before_semicolon s in if nat_eq (code c) 59 then "" else String.◌∷◌ c rest

unfoldable pub is_json_content_type : Option String → Bool
unfolding before_semicolon trim to_lower_case
is_json_content_type none = false
is_json_content_type (some t) =
    if str_eq t ""
    then false
    else str_eq (to_lower_case (trim (before_semicolon t))) "application/json"

-- A request, whose redirects are refused. The signal of the timeout is the platform's.
pub record Request : Type 0 where
  pub url : String
  pub method : String
  pub body : Option String

-- A response: `url` is empty where the platform does not tell it.
pub record Response : Type 0 where
  pub url : String
  pub status : ℕ
  pub content_type : Option String
  pub content : ResponseBody

abbrev pub is_redirect : ℕ → Bool
is_redirect status = leb 300 status && ltb status 400

-- `response.ok`.
abbrev pub is_ok : ℕ → Bool
is_ok status = leb 200 status && ltb status 300

abbrev pub Fetch : Type 0
Fetch = Request → Result Response

-- The payload and the requirements of a request, `none` if the adapter has none.
abbrev pub body_of :
    Platform
    → Operation
    → Option PaymentPayload
    → Option PaymentRequirements
    → Result (Option String)
body_of p supported none none = ok none
body_of p supported payload requirements =
    throws "Facilitator supported request must not include payment payload." internal
body_of p operation (some payload) (some requirements) =
    ok (some (p.stringify_request payload requirements))
body_of p operation payload requirements =
    throws "Facilitator payment request payload is missing." internal

abbrev pub method_of : Operation → String
method_of supported = "GET"
method_of operation = "POST"

-- What is thrown inside the `try` is made safe.
abbrev safe {ℓ} : {A : Type ℓ} → Thrown → Result A
safe t = threw (Thrown.adapter (to_safe_facilitator_transport_error t internal))

abbrev or_response : Option AdapterError → Response → Result Response
or_response none r = ok r
or_response (some e) r = safe (Thrown.adapter e)

abbrev with_response_url : String → Option Url → Response → Result Response
with_response_url path none r = safe type_error
with_response_url path (some u) r = or_response (assert_fixed_proof_facilitator_url u path) r

check_response : Platform → String → Result Response → Result Response
unfolding assert_fixed_proof_facilitator_url to_safe_facilitator_transport_error
check_response p path (threw t) = safe t
check_response p path (ok r) =
    if not (str_eq r.url "")
    then with_response_url path (p.parse_url r.url) r
    else (if is_redirect r.status
        then safe
            (Thrown.adapter (error "Facilitator redirect responses are not permitted." redirect))
        else ok r)

-- The requests that are sent, and the response.
abbrev send :
    Platform
    → Fetch
    → Operation
    → Result Url
    → Result (Option String)
    → List Request × Result Response
send p fetch operation (threw t) body = ([], threw t)
send p fetch operation (ok url) (threw t) = ([], threw t)
send p fetch operation (ok url) (ok body) =
    let r : Request = record { url = url.href; method = method_of operation; body = body } in
    (r ∷ [], check_response p (operation_path operation) (fetch r))

unfoldable pub execute_proof_facilitator_request :
    Platform
    → Fetch
    → Operation
    → Option PaymentPayload
    → Option PaymentRequirements
    → List Request × Result Response
unfolding build_fixed_proof_facilitator_url check_response
execute_proof_facilitator_request p fetch operation payload requirements =
    send p fetch operation (build_fixed_proof_facilitator_url p (operation_path operation))
      (body_of p operation payload requirements)

-- `JSON.parse` of the decoded bytes.
abbrev parsed_bytes : Option Value → Result Value
parsed_bytes none = throws "Facilitator response JSON is invalid." invalid_json
parsed_bytes (some v) = ok v

abbrev json_of : Platform → Result (List ℕ) → Result Value
json_of p (threw t) = threw t
json_of p (ok bytes) = parsed_bytes (p.parse_bytes bytes)

-- `readValidatedFacilitatorJsonResponse`, up to the parser of the operation.
unfoldable pub read_facilitator_json : Platform → Response → Result Value
unfolding is_json_content_type read_bounded_response_body
read_facilitator_json p r =
    if is_redirect r.status
    then throws "Facilitator redirect responses are not permitted." redirect
    else (if not (is_json_content_type r.content_type)
        then throws "Facilitator response must use application/json." content_type
        else json_of p (read_bounded_response_body p.limits r.content))
