-- ===== src/Authorization/Tests.antt =====
-- The structural check on a concrete payment payload.
use x402_worker_template.Prelude.{◌≡◌, refl}
use x402_worker_template.Js.{undefined, text, object, Fields, field, end, get, has_key}
use x402_worker_template.Js.Text.{is_hex_of, to_lower_case}
use x402_worker_template.Policy.{
  PaymentRequirements, normalize_address, build_mainnet_example_requirement,
}
use x402_worker_template.Policy.Tests.{seller}
use x402_worker_template.Authorization.{
  PaymentPayload, Authorization, ok, read_string_field, authorization_of, big_int, big_int_from,
  is_canonical_non_negative_integer_string, shape_error, terms_error, check_authorization,
  validate_payload, validate_eip3009_authorization_structure,
}
use x402_worker_template.Authorization.Laws.{
  IsReadFrom, IsAuthorized, validate_eip3009-IsAuthorized,
}

abbrev pub authorization : Authorization
authorization = record {
  from = "0x1111111111111111111111111111111111111111";
  to = "0x00000000000000000000000000000000000000aA";
  value = "1000";
  valid_after = "99";
  valid_before = "100";
  nonce = "0x2222222222222222222222222222222222222222222222222222222222222222";
  signature = "0xabcdef";
}

abbrev fields : Fields
fields = field "signature" (text authorization.signature) (
    field "authorization"
      (object (
        field "from" (text authorization.from) (
          field "to" (text authorization.to) (
            field "value" (text authorization.value) (
              field "validAfter" (text authorization.valid_after) (
                field "validBefore" (text authorization.valid_before)
                  (field "nonce" (text authorization.nonce) end)))))))
      end)

abbrev pub payload : PaymentPayload
payload = record { payload = object fields; accepted_asset = ""; extensions = undefined }

abbrev requirement : PaymentRequirements
requirement = build_mainnet_example_requirement seller

accepts : validate_eip3009_authorization_structure payload requirement ≡ ok authorization
unfolding validate_eip3009_authorization_structure validate_payload check_authorization shape_error
    terms_error authorization_of read_string_field get has_key big_int big_int_from
    is_canonical_non_negative_integer_string build_mainnet_example_requirement is_hex_of
    to_lower_case normalize_address
accepts = refl

validate_eip3009-IsAuthorized_example :
    IsReadFrom payload authorization × IsAuthorized payload requirement authorization
validate_eip3009-IsAuthorized_example =
    validate_eip3009-IsAuthorized payload requirement authorization accepts
