-- ===== src/Facilitator/Responses/Supported.antt =====
-- parseSupportedResponseJson: what the facilitator supports.
use x402_worker_template.Prelude.{String, Option, none, some, List, [], ◌∷◌}
use x402_worker_template.Js.{Value, text, array, object, Items, nil, cons, Fields, end, field, get}
use x402_worker_template.Facilitator.Errors.{schema, Result, ok, throws}
use x402_worker_template.Facilitator.Responses.{
  is_string, is_number, is_optional_string_record, the_string, object_or_undefined, check,
}

-- `x402Version` is a number.
pub record SupportedKind : Type 0 where
  x402_version : Value
  scheme : String
  network : String
  extra : Option Fields

pub record SupportedResponse : Type 0 where
  kinds : List SupportedKind
  extensions : List String
  signers : Fields

kind_of : Value → Result SupportedKind
unfolding get
kind_of (object fs) =
    check (is_number (get "x402Version" fs))
      "Facilitator supported kind x402Version must be a number."
      (check (is_string (get "scheme" fs)) "Facilitator supported kind scheme must be a string." (
        check (is_string (get "network" fs)) "Facilitator supported kind network must be a string."
          (check (is_optional_string_record (get "extra" fs))
            "Facilitator supported kind extra must be an object."
            (ok (record {
              x402_version = get "x402Version" fs;
              scheme = the_string (get "scheme" fs);
              network = the_string (get "network" fs);
              extra = object_or_undefined (get "extra" fs);
            })))))
kind_of v = throws "Facilitator supported kind must be an object." schema

abbrev push {ℓ} : {A : Type ℓ} → Result A → Result (List A) → Result (List A)
push (Result.threw e) rest = Result.threw e
push (ok x) (Result.threw e) = Result.threw e
push (ok x) (ok xs) = ok (x ∷ xs)

-- `map` of an array whose callback may throw.
kinds_of : Items → Result (List SupportedKind)
unfolding kind_of
kinds_of nil = ok []
kinds_of (cons v items) = push (kind_of v) (kinds_of items)

string_of : Value → Result String
string_of (text s) = ok s
string_of v = throws "Facilitator supported extensions must be strings." schema

strings_of : Items → Result (List String)
unfolding string_of
strings_of nil = ok []
strings_of (cons v items) = push (string_of v) (strings_of items)

extensions_of : Value → Result (List String)
unfolding strings_of
extensions_of (array items) = strings_of items
extensions_of v = ok []

-- The two loops over the signers; `none` is no error.
address_error : Items → Option String
address_error nil = none
address_error (cons (text s) items) = address_error items
address_error (cons v items) = some "Facilitator supported signer entries must be strings."

abbrev or_error : Option String → Option String → Option String
or_error none other = other
or_error (some m) other = some m

signer_error : Fields → Option String
unfolding address_error
signer_error end = none
signer_error (field key (array addresses) fs) = or_error (address_error addresses) (signer_error fs)
signer_error (field key v fs) = some "Facilitator supported signers must map to string arrays."

abbrev signers_of : Value → Fields
signers_of (object fs) = fs
signers_of v = end

abbrev checked_signers : Option String → Fields → Result Fields
checked_signers none fs = ok fs
checked_signers (some message) fs = throws message schema

abbrev supported_with :
    Result (List SupportedKind) → Result (List String) → Result Fields → Result SupportedResponse
supported_with (Result.threw e) extensions signers = Result.threw e
supported_with (ok kinds) (Result.threw e) signers = Result.threw e
supported_with (ok kinds) (ok extensions) (Result.threw e) = Result.threw e
supported_with (ok kinds) (ok extensions) (ok signers) =
    ok (record { kinds = kinds; extensions = extensions; signers = signers })

abbrev supported_of : Fields → Value → Result SupportedResponse
supported_of fs (array items) =
    let signers = signers_of (get "signers" fs) in
    supported_with (kinds_of items) (extensions_of (get "extensions" fs))
      (checked_signers (signer_error signers) signers)
supported_of fs v = throws "Facilitator supported response kinds must be an array." schema

unfoldable pub parse_supported_response_json : Value → Result SupportedResponse
unfolding get kinds_of extensions_of signer_error
parse_supported_response_json (object fs) = supported_of fs (get "kinds" fs)
parse_supported_response_json v = throws "Facilitator supported response must be an object." schema
