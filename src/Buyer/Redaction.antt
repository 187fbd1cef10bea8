-- ===== src/Buyer/Redaction.antt =====
-- src/buyer-diagnostics.ts: what is taken out of the values and texts that the command line prints.
use Prim.Native.String.{◌++◌}
use x402_worker_template.Prelude.{
  ℕ, zero, suc, ◌-◌, String, len, Bool, false, ◌||◌, Option, none, some, List, [], ◌∷◌, nat_eq,
  str_eq, if◌then◌else◌,
}
use x402_worker_template.Js.{
  Value, undefined, null, not_finite, boolean, number, text, array, object, instance_of, other,
  Items, nil, cons, Fields, end, field,
}
use x402_worker_template.Js.Text.{to_lower_case}
use x402_worker_template.Client.Sanitize.{
  is_word, includes, starts_with, Pattern, address_pattern, private_key_pattern, long_hex_pattern,
}

-- `env_values` has the keys and the values of `envValues`, if there are any.
pub record RedactionContext : Type 0 where
  pub private_key : Option String
  pub buyer_address : Option String
  pub seller_address : Option String
  pub env_values : List (String × Option String)

abbrev pub no_context : RedactionContext
no_context = record {
  private_key = none;
  buyer_address = none;
  seller_address = none;
  env_values = [];
}

-- `split(needle).join("[REDACTED]")` of a needle that is not empty; `skip` characters belong to the
-- last match.
replace_from : String → ℕ → String → String
unfolding starts_with
replace_from needle skip String.[] = ""
replace_from needle (suc skip) (String.◌∷◌ c s) = replace_from needle skip s
replace_from needle zero (String.◌∷◌ c s) =
    let hit = starts_with needle (String.◌∷◌ c s) in
    let rest = replace_from needle (if hit then len needle - 1 else 0) s in
    if hit then "[REDACTED]" ++ rest else String.◌∷◌ c rest

-- Where the needle is empty the source leaves the text as it is.
replace_all : String → String → String
unfolding replace_from
replace_all needle s = if str_eq needle "" then s else replace_from needle 0 s

abbrev replace_some : Option String → String → String
replace_some none s = s
replace_some (some needle) s = replace_all needle s

-- An address, then its lower case.
abbrev replace_address : Option String → String → String
replace_address none s = s
replace_address (some a) s = replace_all (to_lower_case a) (replace_all a s)

replace_values : List (String × Option String) → String → String
unfolding replace_all
replace_values [] s = s
replace_values ((key, v) ∷ vs) s = replace_values vs (replace_some v s)

-- `replace(pattern, "[REDACTED]")` of a global pattern.
redact_from : Pattern → Bool → ℕ → String → String
redact_from m w skip String.[] = ""
redact_from m w (suc skip) (String.◌∷◌ c s) = redact_from m (is_word c) skip s
redact_from m w zero (String.◌∷◌ c s) =
    let n = m w (String.◌∷◌ c s) in
    let rest = redact_from m (is_word c) (n - 1) s in
    if nat_eq n 0 then String.◌∷◌ c rest else "[REDACTED]" ++ rest

abbrev redact : Pattern → String → String
redact m s = redact_from m false 0 s

value_of : String → List (String × Option String) → Option String
value_of key [] = none
value_of key ((k, v) ∷ vs) = if str_eq k key then v else value_of key vs

-- `collectRedactionAddresses`, with an address that is twice there taken out twice.
replace_addresses : RedactionContext → String → String
unfolding replace_all value_of to_lower_case
replace_addresses c s =
    replace_address (value_of "EXPECTED_PAY_TO_ADDRESS" c.env_values)
      (replace_address c.seller_address (replace_address c.buyer_address s))

unfoldable pub sanitize_buyer_string : String → RedactionContext → String
unfolding replace_values replace_addresses redact_from private_key_pattern long_hex_pattern
    address_pattern to_lower_case
sanitize_buyer_string s c =
    let keyless = replace_some c.private_key s in
    let named = replace_address c.seller_address (replace_address c.buyer_address keyless) in
    let valued = replace_values c.env_values named in
    let hexless = redact long_hex_pattern (redact private_key_pattern valued) in
    redact address_pattern (replace_addresses c hexless)

-- The words of the test on a key, whatever the case of its letters.
any_of : List String → String → Bool
unfolding includes
any_of [] s = false
any_of (w ∷ ws) s = includes w s || any_of ws s

abbrev sensitive_words : List String
sensitive_words =
    "authorization" ∷ "private" ∷ "secret" ∷ "signature" ∷ "seed" ∷ "mnemonic" ∷ "payment-signature"
    ∷ "payment-required" ∷ "x-payment" ∷ "cookie" ∷ "token" ∷ "apikey" ∷ "api_key" ∷ "api-key" ∷ []

is_sensitive_key : String → Bool
unfolding any_of to_lower_case
is_sensitive_key key = any_of sensitive_words (to_lower_case key)

has_value : String → List (String × Option String) → Bool
has_value key [] = false
has_value key ((k, v) ∷ vs) = str_eq k key || has_value key vs

unfoldable mutual
  unfolding sanitize_buyer_string is_sensitive_key has_value

  pub sanitize_buyer_value : RedactionContext → Value → Value
  sanitize_buyer_value c undefined = undefined
  sanitize_buyer_value c null = null
  sanitize_buyer_value c (text s) = text (sanitize_buyer_string s c)
  sanitize_buyer_value c (number n) = number n
  sanitize_buyer_value c not_finite = not_finite
  sanitize_buyer_value c (boolean b) = boolean b
  sanitize_buyer_value c (array items) = array (sanitize_items c items)
  sanitize_buyer_value c (object fs) = object (sanitize_fields c fs)
  sanitize_buyer_value c (instance_of fs) = object (sanitize_fields c fs)
  sanitize_buyer_value c (other s) = text "[OMITTED]"

  sanitize_items : RedactionContext → Items → Items
  sanitize_items c nil = nil
  sanitize_items c (cons v items) = cons (sanitize_buyer_value c v) (sanitize_items c items)

  sanitize_fields : RedactionContext → Fields → Fields
  sanitize_fields c end = end
  sanitize_fields c (field key v fs) =
      let kept = sanitize_buyer_value c v in
      field key
        (if is_sensitive_key key || has_value key c.env_values then text "[REDACTED]" else kept)
        (sanitize_fields c fs)
