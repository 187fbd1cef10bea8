-- ===== src/Facilitator/Responses.antt =====
-- src/mainnet/proof-facilitator-response-validation.mainnet.ts: the shapes that the facilitator's
-- responses must have. A property that is `undefined` in a result is `none`.
pub mod Supported
pub mod Laws
pub mod Tests
use x402_worker_template.Prelude.{
  String, Bool, true, false, not, Option, none, some, List, [], ◌∷◌, if◌then◌else◌,
}
use x402_worker_template.Js.{
  Value, undefined, null, not_finite, boolean, number, text, array, object, Items, nil, cons,
  Fields, end, field, get,
}
use x402_worker_template.Facilitator.Errors.{schema, Result, ok, throws}

-- `typeof`.
abbrev is_boolean : Value → Bool
is_boolean (boolean b) = true
is_boolean v = false

abbrev is_string : Value → Bool
is_string (text s) = true
is_string v = false

abbrev is_number : Value → Bool
is_number (number n) = true
is_number not_finite = true
is_number v = false

-- Where only a plain object is taken, its properties.
abbrev is_plain_object : Value → Bool
is_plain_object (object fs) = true
is_plain_object v = false

-- The values that may stand for an absent property, next to those that pass a test.
abbrev optional : (Value → Bool) → Value → Bool
optional test undefined = true
optional test null = true
optional test v = test v

abbrev is_optional_string_record : Value → Bool
is_optional_string_record = optional is_plain_object

-- What is read of a value whose test has passed.
abbrev the_boolean : Value → Bool
the_boolean (boolean b) = b
the_boolean v = false

abbrev the_string : Value → String
the_string (text s) = s
the_string v = ""

-- `value ?? undefined`.
abbrev or_undefined : Value → Option String
or_undefined (text s) = some s
or_undefined v = none

abbrev object_or_undefined : Value → Option Fields
object_or_undefined (object fs) = some fs
object_or_undefined v = none

pub record VerifyResponse : Type 0 where
  pub is_valid : Bool
  pub invalid_reason : Option String
  pub invalid_message : Option String
  pub payer : Option String
  pub extensions : Option Fields
  pub extra : Option Fields

pub record SettleResponse : Type 0 where
  pub success : Bool
  pub error_reason : Option String
  pub error_message : Option String
  pub payer : Option String
  pub transaction : String
  pub network : String
  pub amount : Option String
  pub extensions : Option Fields
  pub extra : Option Fields

-- The first check that fails throws; the fallthrough is its last argument.
abbrev check {ℓ} : {A : Type ℓ} → Bool → String → Result A → Result A
check test message rest = if not test then throws message schema else rest

verify_of : Fields → Result VerifyResponse
unfolding get
verify_of fs =
    check (is_boolean (get "isValid" fs)) "Facilitator verify response isValid must be a boolean." (
      check (optional is_string (get "invalidReason" fs))
        "Facilitator verify response invalidReason must be a string."
        (check (optional is_string (get "invalidMessage" fs))
          "Facilitator verify response invalidMessage must be a string."
          (check (optional is_string (get "payer" fs))
            "Facilitator verify response payer must be a string."
            (check (is_optional_string_record (get "extensions" fs))
              "Facilitator verify response extensions must be an object."
              (check (is_optional_string_record (get "extra" fs))
                "Facilitator verify response extra must be an object."
                (ok (record {
                  is_valid = the_boolean (get "isValid" fs);
                  invalid_reason = or_undefined (get "invalidReason" fs);
                  invalid_message = or_undefined (get "invalidMessage" fs);
                  payer = or_undefined (get "payer" fs);
                  extensions = object_or_undefined (get "extensions" fs);
                  extra = object_or_undefined (get "extra" fs);
                })))))))

unfoldable pub parse_verify_response_json : Value → Result VerifyResponse
unfolding verify_of
parse_verify_response_json (object fs) = verify_of fs
parse_verify_response_json v = throws "Facilitator verify response must be an object." schema

-- The last three checks.
settle_rest : Fields → Result SettleResponse
unfolding get
settle_rest fs =
    check (optional is_string (get "amount" fs))
      "Facilitator settle response amount must be a string."
      (check (is_optional_string_record (get "extensions" fs))
        "Facilitator settle response extensions must be an object."
        (check (is_optional_string_record (get "extra" fs))
          "Facilitator settle response extra must be an object."
          (ok (record {
            success = the_boolean (get "success" fs);
            error_reason = or_undefined (get "errorReason" fs);
            error_message = or_undefined (get "errorMessage" fs);
            payer = or_undefined (get "payer" fs);
            transaction = the_string (get "transaction" fs);
            network = the_string (get "network" fs);
            amount = or_undefined (get "amount" fs);
            extensions = object_or_undefined (get "extensions" fs);
            extra = object_or_undefined (get "extra" fs);
          }))))

settle_of : Fields → Result SettleResponse
unfolding get settle_rest
settle_of fs =
    check (is_boolean (get "success" fs)) "Facilitator settle response success must be a boolean." (
      check (optional is_string (get "errorReason" fs))
        "Facilitator settle response errorReason must be a string."
        (check (optional is_string (get "errorMessage" fs))
          "Facilitator settle response errorMessage must be a string."
          (check (optional is_string (get "payer" fs))
            "Facilitator settle response payer must be a string."
            (check (is_string (get "transaction" fs))
              "Facilitator settle response transaction must be a string."
              (check (is_string (get "network" fs))
                "Facilitator settle response network must be a string." (settle_rest fs))))))

unfoldable pub parse_settle_response_json : Value → Result SettleResponse
unfolding settle_of
parse_settle_response_json (object fs) = settle_of fs
parse_settle_response_json v = throws "Facilitator settle response must be an object." schema
