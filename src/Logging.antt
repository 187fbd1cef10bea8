-- ===== src/Logging.antt =====
-- src/logging.ts: what is left of the fields that are logged. The writing to the console and the
-- making of request ids are the platform's.
pub mod Laws
pub mod Tests
use x402_worker_template.Prelude.{String, Bool, true, false, ◌||◌, List, [], ◌∷◌, if◌then◌else◌}
use x402_worker_template.Js.{
  Value, undefined, null, not_finite, boolean, number, text, array, object, instance_of, other,
  Items, nil, cons, Fields, end, field, get, Platform,
}
use x402_worker_template.Js.Text.{to_lower_case}
use x402_worker_template.Client.Sanitize.{includes}

pub data LogLevel : Type 0 where
  info warn error : LogLevel

abbrev level_name : LogLevel → String
level_name info = "info"
level_name warn = "warn"
level_name error = "error"

-- The alternatives of `REDACT_KEY_PATTERN`, whatever the case of their letters.
abbrev redact_key_words : List String
redact_key_words =
    "authorization" ∷ "private" ∷ "secret" ∷ "signature" ∷ "seed" ∷ "mnemonic" ∷ "token" ∷ "apikey"
    ∷ "api_key" ∷ "api-key" ∷ "payment-signature" ∷ "payment-required" ∷ "payment-identifier"
    ∷ "wallet" ∷ "nonce" ∷ "payload" ∷ []

has_word : List String → String → Bool
unfolding includes
has_word [] s = false
has_word (w ∷ ws) s = includes w s || has_word ws s

unfoldable pub should_redact_key : String → Bool
unfolding has_word to_lower_case
should_redact_key key = has_word redact_key_words (to_lower_case key)

abbrev pub redacted : Value
redacted = text "[REDACTED]"

-- The value of a field is only looked at where its key is let through, so that the key which
-- `redactValue` is given there is never one to redact.
unfoldable mutual
  unfolding should_redact_key

  pub redact_value : Value → Value
  redact_value undefined = undefined
  redact_value null = null
  redact_value not_finite = not_finite
  redact_value (boolean b) = boolean b
  redact_value (number n) = number n
  redact_value (text s) = text s
  redact_value (array items) = array (redact_items items)
  redact_value (object fs) = object (redact_fields fs)
  redact_value (instance_of fs) = object (redact_fields fs)
  redact_value (other s) = other s

  pub redact_items : Items → Items
  redact_items nil = nil
  redact_items (cons v items) = cons (redact_value v) (redact_items items)

  pub redact_fields : Fields → Fields
  redact_fields end = end
  redact_fields (field k v fs) =
      let kept = redact_value v in
      field k (if should_redact_key k then redacted else kept) (redact_fields fs)

abbrev pub allowed_log_field_keys : List String
allowed_log_field_keys =
    "requestId" ∷ "route" ∷ "method" ∷ "status" ∷ "durationMs" ∷ "upstreamStatus" ∷ "paymentOutcome"
    ∷ "code" ∷ "message" ∷ []

abbrev pub keep : String → Value → Fields → Fields
keep k undefined fs = fs
keep k v fs = field k v fs

unfoldable pub pick_fields : List String → Fields → Fields
unfolding get
pick_fields [] fs = end
pick_fields (k ∷ ks) fs = let rest = pick_fields ks fs in keep k (get k fs) rest

unfoldable pub safe_log_fields : Fields → Fields
unfolding pick_fields redact_fields
safe_log_fields fs = redact_fields (pick_fields allowed_log_field_keys fs)

-- The line that is written.
unfoldable pub log_structured : Platform → LogLevel → String → Fields → String
unfolding safe_log_fields
log_structured p level now fs =
    p.stringify (
      object (field "level" (text (level_name level)) (field "ts" (text now) (safe_log_fields fs))))
