-- ===== src/Buyer/Guards.antt =====
-- src/buyer-guards.ts: what the command line's payment refuses before it makes a signer.
pub mod Laws
use x402_worker_template.Prelude.{
  String, Bool, true, not, ◌&&◌, ◌||◌, Option, none, some, List, [], ◌∷◌, leb, ltb, nat_eq, str_eq,
  if◌then◌else◌,
}
use x402_worker_template.Js.Text.{utf16_length, is_hex_of, trim, to_lower_case}
use x402_worker_template.Js.Url.{Url}
use x402_worker_template.Testnet.Config.{base_sepolia}

pub record BuyerGuardConfig : Type 0 where
  pub api_url : Option String
  pub evm_private_key : Option String
  pub allow_testnet_payment : Bool
  pub expected_pay_to_address : Option String
  pub network : String
  pub expected_remote_api_origin : Option String

-- `{ ok: true }`, or the reason.
pub data BuyerGuardResult : Type 0 where
  ok : BuyerGuardResult
  refused : String → BuyerGuardResult

abbrev pub or_empty : Option String → String
or_empty none = ""
or_empty (some s) = s

unfoldable pub parse_bool_flag : Option String → Bool
unfolding trim to_lower_case
parse_bool_flag v = str_eq (to_lower_case (trim (or_empty v))) "true"

-- `!value || !value.trim()`.
abbrev is_blank : Option String → Bool
is_blank none = true
is_blank (some s) = str_eq s "" || str_eq (trim s) ""

unfoldable pub validate_private_key_format : Option String → BuyerGuardResult
unfolding is_hex_of trim
validate_private_key_format v =
    if is_blank v
    then refused "EVM_PRIVATE_KEY is absent. Refusing to construct a signer."
    else (if not (is_hex_of 64 (trim (or_empty v)))
        then refused "EVM_PRIVATE_KEY must be a 0x-prefixed 64-character hexadecimal string."
        else ok)

unfoldable pub validate_expected_pay_to_address : Option String → BuyerGuardResult
unfolding is_hex_of trim
validate_expected_pay_to_address v =
    if is_blank v
    then refused "EXPECTED_PAY_TO_ADDRESS is required."
    else (if not (is_hex_of 40 (trim (or_empty v)))
        then refused
            "EXPECTED_PAY_TO_ADDRESS must be a 0x-prefixed 40-character hexadecimal address."
        else ok)

-- The one value of the one query parameter.
abbrev value_error : String → BuyerGuardResult
value_error v =
    if not (str_eq v (trim v)) || nat_eq (utf16_length v) 0 || ltb 256 (utf16_length v)
    then refused "API_URL value query parameter is invalid."
    else ok

-- With one key there is one value: `getAll` of it is that of the one entry.
abbrev query_error : List (String × String) → BuyerGuardResult
query_error ((key, v) ∷ []) =
    if not (str_eq key "value")
    then refused "API_URL must include exactly one value query parameter."
    else value_error v
query_error params = refused "API_URL must include exactly one value query parameter."

validate_paid_route_path_and_query : Url → BuyerGuardResult
unfolding trim utf16_length
validate_paid_route_path_and_query url =
    if not (str_eq url.pathname "/v1/example")
    then refused "API_URL pathname must be /v1/example."
    else query_error url.search_params

-- `endsWith`.
unfoldable pub ends_with : String → String → Bool
ends_with w String.[] = str_eq w ""
ends_with w (String.◌∷◌ c s) = let rest = ends_with w s in str_eq w (String.◌∷◌ c s) || rest

origin_error : Url → BuyerGuardResult
unfolding ends_with
origin_error url =
    if not (str_eq url.protocol "https:")
    then refused "EXPECTED_REMOTE_API_ORIGIN must use https:."
    else (if not (str_eq url.username "") || not (str_eq url.password "")
        then refused "EXPECTED_REMOTE_API_ORIGIN must not contain credentials."
        else (if not (str_eq url.pathname "/") && not (str_eq url.pathname "")
            then refused "EXPECTED_REMOTE_API_ORIGIN must not include a path."
            else (if not (str_eq url.search "") || not (str_eq url.hash "")
                then refused "EXPECTED_REMOTE_API_ORIGIN must not include query or fragment."
                else (if not (ends_with ".workers.dev" url.hostname)
                    then refused "EXPECTED_REMOTE_API_ORIGIN hostname must end with .workers.dev."
                    else ok))))

abbrev origin_of : Option Url → BuyerGuardResult
origin_of none = refused "EXPECTED_REMOTE_API_ORIGIN must be a valid URL."
origin_of (some url) = origin_error url

abbrev is_local : Url → Bool
is_local url =
    str_eq url.protocol "http:"
    && (str_eq url.hostname "localhost" || str_eq url.hostname "127.0.0.1")
    && str_eq url.port "8787"

-- The guard that comes next, if this one passes.
abbrev then_guard : BuyerGuardResult → BuyerGuardResult → BuyerGuardResult
then_guard ok next = next
then_guard (refused reason) next = refused reason

-- `parse_url` is `new URL`: `none` is a thrown error.
module _ (parse_url : String → Option Url) where
  unfoldable pub validate_expected_remote_api_origin : Option String → BuyerGuardResult
  unfolding origin_error trim
  validate_expected_remote_api_origin v =
      if is_blank v then ok else origin_of (parse_url (trim (or_empty v)))

  -- The last checks of a remote URL, against the configured one, whose text was parsed before.
  abbrev same_origin : Url → Option Url → BuyerGuardResult
  same_origin url none = refused "EXPECTED_REMOTE_API_ORIGIN must be a valid URL."
  same_origin url (some configured) =
      if not (str_eq url.origin configured.origin)
      then refused "API_URL origin must exactly match EXPECTED_REMOTE_API_ORIGIN."
      else (if not (ends_with ".workers.dev" url.hostname)
          then refused "Remote API_URL hostname must end with .workers.dev."
          else ok)

  validate_remote : Url → String → BuyerGuardResult
  unfolding validate_expected_remote_api_origin ends_with
  validate_remote url remote_origin =
      if str_eq remote_origin ""
      then refused
          "API_URL must target localhost or 127.0.0.1 unless EXPECTED_REMOTE_API_ORIGIN is configured."
      else then_guard (validate_expected_remote_api_origin (some remote_origin)) (
          if not (str_eq url.protocol "https:")
          then refused "Remote API_URL must use https:."
          else same_origin url (parse_url remote_origin))

  abbrev validate_parsed : String → Option Url → BuyerGuardResult
  validate_parsed remote_origin none = refused "API_URL must be a valid URL."
  validate_parsed remote_origin (some url) =
      if not (str_eq url.username "") || not (str_eq url.password "")
      then refused "API_URL must not contain embedded credentials."
      else (if not (str_eq url.hash "")
          then refused "API_URL must not contain a fragment."
          else then_guard (validate_paid_route_path_and_query url)
              (if is_local url then ok else validate_remote url remote_origin))

  unfoldable pub validate_api_url : Option String → Option String → BuyerGuardResult
  unfolding validate_remote validate_paid_route_path_and_query trim
  validate_api_url v expected =
      if is_blank v
      then refused "API_URL is required."
      else validate_parsed (trim (or_empty expected)) (parse_url (trim (or_empty v)))

  unfoldable pub evaluate_buyer_guards : BuyerGuardConfig → BuyerGuardResult
  unfolding validate_expected_remote_api_origin validate_api_url validate_private_key_format
      validate_expected_pay_to_address
  evaluate_buyer_guards c =
      then_guard (validate_expected_remote_api_origin c.expected_remote_api_origin) (
        then_guard (validate_api_url c.api_url c.expected_remote_api_origin) (
          then_guard (validate_private_key_format c.evm_private_key) (
            then_guard (validate_expected_pay_to_address c.expected_pay_to_address) (
              if not c.allow_testnet_payment
              then refused "Payments are refused unless ALLOW_TESTNET_PAYMENT=true."
              else (if not (str_eq c.network base_sepolia)
                  then refused "Phase 1 buyer supports only eip155:84532."
                  else ok)))))
