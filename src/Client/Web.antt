-- ===== src/Client/Web.antt =====
-- What the pages take from the browser and from the x402 packages: URLs, responses, the decoding of
-- headers, the signing client. None of it is code of the repository.
use x402_worker_template.Prelude.{
  ℕ, String, Option, none, some, List, [], ◌∷◌, str_eq, if◌then◌else◌,
}
use x402_worker_template.Js.{Value, Fields}
use x402_worker_template.Policy.{PaymentRequirements}
use x402_worker_template.Authorization.{PaymentPayload}
use x402_worker_template.Sdk.{PaymentRequired}
use x402_worker_template.Client.Sanitize.{Thrown}

-- A parsed URL: what the pages read and write of it, and the rest.
pub record Url : Type 0 where
  pub origin : String
  pub pathname : String
  pub search_params : List (String × String)
  pub rest : String

-- `searchParams.get`: the first value of the key.
unfoldable pub param : String → List (String × String) → Option String
param key [] = none
param key ((k, v) ∷ ps) = if str_eq k key then some v else param key ps

-- The headers of a response, as `headers.get` reads them.
abbrev pub Headers : Type 0
Headers = String → Option String

-- The answer to a request without a payment. A fetch may throw an `Error` with its message, or
-- another value.
pub data Answer : Type 0 where
  thrown : Option String → Answer
  answered : ℕ → Headers → Answer

-- What becomes of a request that bears a payment: nothing comes back, or a status, a body that may
-- not be JSON, and headers.
pub data Delivery : Type 0 where
  lost : Delivery
  delivered : ℕ → Option Value → Headers → Delivery

-- What the signing client does: it throws or it has a payload, after a number of calls of the
-- signer.
pub data Signing : Type 0 where
  refused : Thrown → ℕ → Signing
  signed : PaymentPayload → ℕ → Signing

abbrev PaymentPolicy : Type 0
PaymentPolicy = List PaymentRequirements → List PaymentRequirements

abbrev Selector : Type 0
Selector = List PaymentRequirements → Option PaymentRequirements

-- `none` is a thrown error. `create_payment_payload` is that of a client with a selector and a
-- policy; `process_payment_result` gives the settlement response, if there is one.
pub record Web : Type 0 where
  pub parse_url : String → Option Url
  pub write_url : Url → String
  pub decode_payment_required_header : String → Option PaymentRequired
  pub append_payment_identifier : Value → String → Value
  pub create_payment_payload : Selector → PaymentPolicy → PaymentRequired → Signing
  pub encode_payment_signature_header : PaymentPayload → String
  pub process_payment_result : PaymentPayload → Headers → ℕ → Option (Option Fields)
