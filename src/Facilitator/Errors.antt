-- ===== src/Facilitator/Errors.antt =====
-- src/mainnet/proof-facilitator-errors.mainnet.ts: the errors of the facilitator's adapter, and what
-- becomes of any other error behind it.
pub mod Laws
use x402_worker_template.Prelude.{String}

pub data Category : Type 0 where
  invalid_origin invalid_path redirect timeout network http_status content_type : Category
  oversized_body invalid_json schema internal : Category

pub record AdapterError : Type 0 where
  message : String
  pub category : Category

-- What may be thrown: an adapter error, a `DOMException` named "AbortError", a `TypeError`, or
-- anything else.
pub data Thrown : Type 0 where
  adapter : AdapterError → Thrown
  aborted type_error unknown : Thrown

-- A value, or what was thrown in its place.
pub data Result {ℓ} (A : Type ℓ) : Type ℓ where
  ok : A → Result A
  threw : Thrown → Result A

abbrev pub error : String → Category → AdapterError
error message category = record { message = message; category = category }

abbrev pub throws {ℓ} : {A : Type ℓ} → String → Category → Result A
throws message category = threw (adapter (error message category))

unfoldable pub to_safe_facilitator_transport_error : Thrown → Category → AdapterError
to_safe_facilitator_transport_error (adapter e) fallback = e
to_safe_facilitator_transport_error aborted fallback =
    error "Facilitator request timed out." timeout
to_safe_facilitator_transport_error type_error fallback =
    error "Facilitator network request failed." network
to_safe_facilitator_transport_error unknown fallback = error "Facilitator request failed." fallback
