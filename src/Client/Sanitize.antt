-- ===== src/Client/Sanitize.antt =====
-- src/browser/sanitize-error.ts: what the pages show of an error, or of any text they did not write.
pub mod Tests
use Prim.Native.String.{◌++◌}
use x402_worker_template.Prelude.{
  ℕ, zero, suc, ◌+◌, ◌-◌, String, Char, code, Bool, true, false, not, ◌&&◌, ◌||◌, Option, none,
  some, List, [], ◌∷◌, leb, ltb, nat_eq, str_eq, if◌then◌else◌,
}
use x402_worker_template.Js.{Value, undefined, number, text}
use x402_worker_template.Js.Text.{is_hex_digit, trim, to_lower_case}

-- The class \w.
abbrev pub is_word : Char → Bool
is_word c =
    (leb b'0' (code c) && leb (code c) b'9')
    || (leb b'a' (code c) && leb (code c) b'z')
    || (leb b'A' (code c) && leb (code c) b'Z')
    || nat_eq (code c) b'_'

-- `slice(0, n)` in UTF-16 code units. A pair of units that the cut would part is left out.
unfoldable pub take_units : ℕ → String → String
take_units n String.[] = ""
take_units n (String.◌∷◌ c s) =
    let size = if ltb (code c) 65536 then 1 else 2 in
    let rest = take_units (n - size) s in if leb size n then String.◌∷◌ c rest else ""

-- Whether a text starts with another.
unfoldable pub starts_with : String → String → Bool
starts_with String.[] s = true
starts_with (String.◌∷◌ a w) String.[] = false
starts_with (String.◌∷◌ a w) (String.◌∷◌ b s) = nat_eq (code a) (code b) && starts_with w s

-- `s.includes(w)`.
unfoldable pub includes : String → String → Bool
unfolding starts_with
includes w String.[] = str_eq w ""
includes w (String.◌∷◌ c s) = starts_with w (String.◌∷◌ c s) || includes w s

-- How many hex digits a text starts with, and what a digit may not be followed by: they end at a
-- word boundary. `none` is a run that another word character follows.
unfoldable pub hex_run : ℕ → String → Option ℕ
unfolding is_hex_digit
hex_run n String.[] = some n
hex_run n (String.◌∷◌ c s) =
    let rest = hex_run (suc n) s in
    if is_hex_digit c then rest else (if is_word c then none else some n)

abbrev run_if : (ℕ → Bool) → Option ℕ → ℕ
run_if p none = 0
run_if p (some n) = if p n then n + 2 else 0

-- A regular expression, at a place in a text: whether a word character stands before the place, and
-- the text from there on, give the length of the match, 0 for none.
abbrev pub Pattern : Type 0
Pattern = Bool → String → ℕ

-- /\b0x[0-9a-fA-F]…\b/ with a test on the number of digits.
unfoldable pub hex_pattern : (ℕ → Bool) → Pattern
unfolding hex_run
hex_pattern p w String.[] = 0
hex_pattern p w (String.◌∷◌ a String.[]) = 0
hex_pattern p w (String.◌∷◌ a (String.◌∷◌ b s)) =
    if not w && nat_eq (code a) b'0' && nat_eq (code b) b'x' then run_if p (hex_run 0 s) else 0

unfoldable pub address_pattern : Pattern
unfolding hex_pattern
address_pattern = hex_pattern (nat_eq 40)

unfoldable pub private_key_pattern : Pattern
unfolding hex_pattern
private_key_pattern = hex_pattern (nat_eq 64)

unfoldable pub long_hex_pattern : Pattern
unfolding hex_pattern
long_hex_pattern = hex_pattern (leb 96)

abbrev length_if : ℕ → Bool → ℕ → ℕ
length_if n b other = if b then n else other

-- The words, whatever the case of their letters.
words_pattern : Pattern
unfolding starts_with to_lower_case
words_pattern w s =
    let t = to_lower_case s in
    length_if 16 (starts_with "payment-required" t) (
      length_if 17 (starts_with "payment-signature" t) (
        length_if 13 (starts_with "authorization" t) (
          length_if 10 (starts_with "typed data" t) (
            length_if 11 (starts_with "seed phrase" t)
              (length_if 8 (starts_with "mnemonic" t) 0)))))

-- `replace(pattern, "[redacted]")` of a global pattern; `skip` characters belong to the last match.
unfoldable pub redact_from : Pattern → Bool → ℕ → String → String
redact_from m w skip String.[] = ""
redact_from m w (suc skip) (String.◌∷◌ c s) = redact_from m (is_word c) skip s
redact_from m w zero (String.◌∷◌ c s) =
    let n = m w (String.◌∷◌ c s) in
    let rest = redact_from m (is_word c) (n - 1) s in
    if nat_eq n 0 then String.◌∷◌ c rest else "[redacted]" ++ rest

unfoldable pub redact : Pattern → String → String
unfolding redact_from
redact m = redact_from m false 0

abbrev pub or_text : String → String → String
or_text s d = if str_eq s "" then d else s

unfoldable pub sanitize_browser_string : String → String
unfolding take_units redact address_pattern private_key_pattern long_hex_pattern words_pattern trim
sanitize_browser_string value =
    let cut = take_units 240 value in
    let keyless = redact long_hex_pattern (redact private_key_pattern cut) in
    or_text (trim (redact words_pattern (redact address_pattern keyless)))
      "An unexpected browser error occurred."

-- What is thrown: an object with its message and with its properties `code`, `status`, `statusCode`
-- and `cause`, or a value that is no object, with its text.
pub data Thrown : Type 0 where
  plain : String → Thrown
  thrown : String → Value → Value → Value → Thrown → Thrown

-- A code that is a number or a text stands before the codes of the causes.
extract_error_code : Thrown → Value
extract_error_code (plain s) = undefined
extract_error_code (thrown message (number n) status status_code cause) = number n
extract_error_code (thrown message (text s) status status_code cause) = text s
extract_error_code (thrown message v status status_code cause) = extract_error_code cause

extract_http_status : Thrown → Value
extract_http_status (thrown message c (number n) status_code cause) = number n
extract_http_status (thrown message c status (number n) cause) = number n
extract_http_status t = undefined

abbrev extract_raw_message : Thrown → String
extract_raw_message (plain s) = s
extract_raw_message (thrown message c status status_code cause) = message

abbrev is_user_rejection : Value → Bool
is_user_rejection (number n) = str_eq n "4001"
is_user_rejection (text s) = str_eq s "4001" || str_eq s "ACTION_REJECTED"
is_user_rejection v = false

pub data ErrorCategory : Type 0 where
  provider viem x402 fetch settlement policy : ErrorCategory

classify_error_category : Thrown → ErrorCategory
unfolding includes to_lower_case
classify_error_category t =
    let message = to_lower_case (extract_raw_message t) in
    if includes "payment creation aborted" message || includes "x402" message
    then x402
    else (if includes "fetch" message || includes "network" message
        then fetch
        else (if includes "settlement" message || includes "payment-response" message
            then settlement
            else (if includes "typed data" message || includes "chain" message
                then viem
                else provider)))

pub record SafeBrowserError : Type 0 where
  category : ErrorCategory
  stage : String
  pub message : String
  pub user_rejected : Bool
  http_status : Value
  submission_may_have_begun : Bool

unfoldable pub sanitize_provider_error_message : Thrown → String
unfolding sanitize_browser_string
sanitize_provider_error_message t = sanitize_browser_string (extract_raw_message t)

-- `kind` is "rejected" or "failure".
pub record ProviderError : Type 0 where
  pub rejected : Bool
  pub message : String

unfoldable pub classify_provider_error : Thrown → ProviderError
unfolding extract_error_code sanitize_provider_error_message
classify_provider_error t =
    if is_user_rejection (extract_error_code t)
    then record { rejected = true; message = "Wallet request was rejected." }
    else record { rejected = false; message = sanitize_provider_error_message t }

unfoldable pub classify_browser_error : Thrown → String → Bool → SafeBrowserError
unfolding classify_error_category extract_error_code extract_http_status sanitize_browser_string
classify_browser_error t stage submission_started =
    let rejected = is_user_rejection (extract_error_code t) in
    record {
      category = classify_error_category t;
      stage = stage;
      message =
          if rejected
          then "Wallet request was rejected."
          else sanitize_browser_string (extract_raw_message t);
      user_rejected = rejected;
      http_status = extract_http_status t;
      submission_may_have_begun = submission_started;
    }

-- `sanitizeForDom` of a text.
unfoldable pub sanitize_for_dom : String → String
unfolding sanitize_browser_string
sanitize_for_dom = sanitize_browser_string
