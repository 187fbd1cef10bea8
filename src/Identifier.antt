-- ===== src/Identifier.antt =====
-- src/mainnet/idempotency/payment-identifier-validation.ts, payment-identifier-workerd-safe.ts and
-- payment-identifier.ts: the identifier that the buyer chooses for one payment.
use x402_worker_template.Prelude.{
  String, Bool, true, not, Option, none, some, str_eq, if◌then◌else◌,
}
use x402_worker_template.Js.{
  Value, undefined, boolean, text, Fields, get, as_object, is_truthy, property,
}
use x402_worker_template.Authorization.{PaymentPayload}
use x402_worker_template.Sdk.{Sdk, PaymentRequired, valid, invalid}

data Validation : Type 0 where
  accepted : Validation
  refused : String → Validation

abbrev invalid_format : String
invalid_format =
    "Invalid payment ID format. ID must be 16-128 characters and contain only alphanumeric characters, hyphens, and underscores."

validate_id : Sdk → Value → Validation
validate_id x undefined = accepted
validate_id x (text id) = if x.is_valid_payment_id id then accepted else refused invalid_format
validate_id x v = refused "Extension info 'id' must be a string if provided"

validate_info : Sdk → Fields → Validation
unfolding validate_id
validate_info x info = elim (get "required" info) [
  | boolean b ↦ validate_id x (get "id" info)
  | _ ↦ refused "Extension info must have a 'required' boolean property"
]

validate_extension_object : Sdk → Fields → Validation
unfolding validate_info
validate_extension_object x ext = elim (as_object (get "info" ext)) [
  | some info ↦ validate_info x info
  | none ↦ refused "Extension must have an 'info' property"
]

validate_payment_identifier_extension : Sdk → Value → Validation
unfolding validate_extension_object
validate_payment_identifier_extension x extension = elim (as_object extension) [
  | some ext ↦ validate_extension_object x ext
  | none ↦ refused "Extension must be an object"
]

abbrev extracted_id : Sdk → PaymentPayload → Validation → Option String × Validation
extracted_id x p accepted = (x.extract_payment_identifier p true, accepted)
extracted_id x p (refused e) = (none, refused e)

-- A payload without the extension has no identifier, and is not malformed.
extract_payment_identifier_without_schema_compile :
    Sdk → PaymentPayload → Option String × Validation
unfolding validate_payment_identifier_extension
extract_payment_identifier_without_schema_compile x p =
    let extension = property "payment-identifier" p.extensions in
    if not (is_truthy extension)
    then (none, accepted)
    else extracted_id x p (validate_payment_identifier_extension x extension)

pub data IdentifierResult : Type 0 where
  ok : String → IdentifierResult
  bad : String → IdentifierResult

abbrev reason_or : Option String → String → String
reason_or none d = d
reason_or (some r) d = r

abbrev identified : Option String × Validation → IdentifierResult
identified (id, refused e) = bad e
identified (none, accepted) = bad "Payment identifier is missing."
identified (some id, accepted) =
    if str_eq id "" then bad "Payment identifier is missing." else ok id

pub validate_payment_identifier_before_reservation :
    Sdk → PaymentRequired → PaymentPayload → IdentifierResult
unfolding extract_payment_identifier_without_schema_compile
validate_payment_identifier_before_reservation x required p =
    if not (x.is_payment_identifier_required (property "payment-identifier" required.extensions))
    then bad "Payment identifier extension must be required."
    else elim (x.validate_payment_identifier_requirement p true) [
      | invalid reason ↦ bad (reason_or reason "Payment identifier is required.")
      | valid ↦ identified (extract_payment_identifier_without_schema_compile x p)
    ]

unfoldable pub validate_payment_identifier_for_lookup : Sdk → String → Bool
validate_payment_identifier_for_lookup x id = x.is_valid_payment_id id

pub data Declared : Type 0 where
  ok : Declared
  bad : String → Declared

-- `declaredExtensions?.["payment-identifier"]` is required.
unfoldable pub validate_required_payment_identifier_declaration : Sdk → Value → Declared
validate_required_payment_identifier_declaration x declared =
    if not (x.is_payment_identifier_required (property "payment-identifier" declared))
    then bad "Server must declare payment identifier as required."
    else ok
