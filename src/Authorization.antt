-- ===== src/Authorization.antt =====
-- src/mainnet/idempotency/eip3009-authorization.ts: the structure of the signed EIP-3009 transfer
-- authorization, and that it pays what the matched requirement asks.
pub mod Laws
pub mod Tests
use x402_worker_template.Prelude.{
  ℕ, ◌+◌, ◌*◌, ◌-◌, String, Char, code, Bool, true, false, not, ◌&&◌, ◌||◌, Option, none, some, leb,
  str_eq, if◌then◌else◌,
}
use x402_worker_template.Js.{
  Value, undefined, null, boolean, number, text, object, instance_of, other, Fields, end, get,
  has_key,
}
use x402_worker_template.Js.Text.{is_digit, is_hex_digit, is_hex_of, one_or_more, after_0x}
use x402_worker_template.Policy.{PaymentRequirements, mainnet_network, normalize_address}

-- `PaymentPayload` of @x402/core: the parts that are read.
pub record PaymentPayload : Type 0 where
  pub payload : Value
  accepted_asset : String
  pub extensions : Value

pub record Authorization : Type 0 where
  pub from : String
  pub to : String
  pub value : String
  pub valid_after : String
  pub valid_before : String
  pub nonce : String
  pub signature : String

-- `threw` is the TypeError of `in` on a value that is not an object.
pub data StructuralResult : Type 0 where
  ok : Authorization → StructuralResult
  bad : String → StructuralResult
  threw : StructuralResult

-- `BigInt(value)` of a text of decimal digits.
big_int_from : ℕ → String → ℕ
big_int_from acc String.[] = acc
big_int_from acc (String.◌∷◌ c s) = big_int_from (acc * 10 + (code c - b'0')) s

big_int : String → ℕ
unfolding big_int_from
big_int = big_int_from 0

-- /^\d+$/; a natural number is not negative.
is_canonical_non_negative_integer_string : String → Bool
unfolding one_or_more is_digit
is_canonical_non_negative_integer_string = one_or_more is_digit

-- `readStringField`, and "" for null: both fail the test that follows.
read_string_field : Fields → String → String
read_string_field fs key = elim (get key fs) [ text s ↦ s | _ ↦ "" ]

unfoldable pub authorization_of : Fields → Fields → Authorization
unfolding read_string_field
authorization_of a payload = record {
  from = read_string_field a "from";
  to = read_string_field a "to";
  value = read_string_field a "value";
  valid_after = read_string_field a "validAfter";
  valid_before = read_string_field a "validBefore";
  nonce = read_string_field a "nonce";
  signature = read_string_field payload "signature";
}

-- The fields have the form that they must have.
shape_error : Authorization → Option String
unfolding is_canonical_non_negative_integer_string
shape_error a =
    if not (is_hex_of 40 a.from)
    then some "Authorization from address is invalid."
    else (if not (is_hex_of 40 a.to)
        then some "Authorization to address is invalid."
        else (if not (is_canonical_non_negative_integer_string a.value)
            then some "Authorization value is invalid."
            else (if not (is_canonical_non_negative_integer_string a.valid_after)
                then some "Authorization validAfter is invalid."
                else (if not (is_canonical_non_negative_integer_string a.valid_before)
                    then some "Authorization validBefore is invalid."
                    else (if not (is_hex_of 64 a.nonce)
                        then some "Authorization nonce must be a bytes32 hex value."
                        else (if not (after_0x (one_or_more is_hex_digit) a.signature)
                            then some "Authorization signature is missing or malformed."
                            else none))))))

-- The authorization is for this server's terms.
terms_error : PaymentPayload → PaymentRequirements → Authorization → Option String
terms_error p m a =
    if leb (big_int a.valid_before) (big_int a.valid_after)
    then some "Authorization validBefore must be later than validAfter."
    else (if not (str_eq m.network mainnet_network)
        then some "Matched requirement network is not Base mainnet."
        else (if not (str_eq (normalize_address a.to) (normalize_address m.pay_to))
            then some "Authorization to address does not match server payTo."
            else (if not (str_eq a.value m.amount)
                then some "Authorization value does not match server amount."
                else (if not (str_eq p.accepted_asset "")
                      && not
                          (str_eq (normalize_address p.accepted_asset) (normalize_address m.asset))
                    then some "Accepted asset does not match server verifying contract."
                    else none))))

abbrev or_authorized : Option String → StructuralResult → StructuralResult
or_authorized (some reason) r = bad reason
or_authorized none r = r

check_authorization : PaymentPayload → PaymentRequirements → Authorization → StructuralResult
check_authorization p m a = or_authorized (shape_error a) (or_authorized (terms_error p m a) (ok a))

validate_payload : PaymentPayload → PaymentRequirements → Fields → Value → StructuralResult
validate_payload p m payload (object a) = check_authorization p m (authorization_of a payload)
validate_payload p m payload v = bad "Authorization object is missing."

abbrev no_authorization_data : StructuralResult
no_authorization_data = bad "Payment payload must contain EIP-3009 authorization data."

-- A payload that is a text, a number or true throws; a falsy payload skips the first test.
pub validate_eip3009_authorization_structure :
    PaymentPayload → PaymentRequirements → StructuralResult
unfolding validate_payload
validate_eip3009_authorization_structure p m = elim p.payload [
  | object fs ↦
      if has_key "permit2Authorization" fs
      then bad "Permit2 transfer method is not accepted on mainnet."
      else validate_payload p m fs (get "authorization" fs)
  | instance_of fs ↦
      if has_key "permit2Authorization" fs
      then bad "Permit2 transfer method is not accepted on mainnet."
      else no_authorization_data
  | boolean b ↦ if b then threw else no_authorization_data
  | number n ↦ if str_eq n "0" then no_authorization_data else threw
  | text s ↦ if str_eq s "" then no_authorization_data else threw
  | other kind ↦ if str_eq kind "function" then no_authorization_data else threw
  | _ ↦ no_authorization_data
]
