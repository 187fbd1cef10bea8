-- ===== src/Sdk.antt =====
-- The calls of @x402/core and @x402/extensions that the mainnet path makes: code outside the
-- repository, and so a parameter of every definition that calls it.
use x402_worker_template.Prelude.{String, Bool, Option, List}
use x402_worker_template.Js.{Value}
use x402_worker_template.Receipt.{SettleResponse}
use x402_worker_template.Policy.{PaymentRequirements}
use x402_worker_template.Authorization.{PaymentPayload}

-- `PaymentRequired`: the accepted requirements, the declared extensions, and the whole object.
pub record PaymentRequired : Type 0 where
  pub accepts : List PaymentRequirements
  pub extensions : Value
  pub json : Value

-- `{ valid, errors?, invalidReason? }`.
pub data Check : Type 0 where
  valid : Check
  invalid : Option String → Check

-- `none` is a thrown error.
pub record Sdk : Type 0 where
  pub decode_payment_signature_header : String → Option PaymentPayload
  pub encode_payment_required_header : PaymentRequired → String
  pub encode_payment_response_header : SettleResponse → String
  pub find_matching_requirements :
      List PaymentRequirements → PaymentPayload → Option PaymentRequirements
  pub validate_extensions : PaymentRequired → PaymentPayload → Check
  pub is_payment_identifier_required : Value → Bool
  pub validate_payment_identifier_requirement : PaymentPayload → Bool → Check
  pub is_valid_payment_id : String → Bool
  pub extract_payment_identifier : PaymentPayload → Bool → Option String
