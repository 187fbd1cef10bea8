-- ===== src/Logging/Tests.antt =====
-- A line with a field that is not logged, and a signature inside of one that is.
use Prim.Native.String.{◌++◌}
use x402_worker_template.Prelude.{String, ◌≡◌, refl, All, none, []}
use x402_worker_template.Js.{Value, text, object, Fields, end, field, get, Platform}
use x402_worker_template.Logging.{
  info, should_redact_key, redact_value, allowed_log_field_keys, safe_log_fields, log_structured,
}
use x402_worker_template.Logging.Laws.{
  same, objects, shown, hidden, same_end, Same, log_structured-hides,
}

abbrev detail : String → Fields
detail secret = field "step" (text "verify") (field "Payment-Signature" (text secret) end)

abbrev entry : String → Fields
entry secret =
    field "route" (text "/v1/example")
      (field "message" (object (detail secret)) (field "stack" (text secret) end))

-- The texts of a value, each after its key.
mutual
  texts : Value → String
  texts (text s) = s
  texts (object fs) = field_texts fs
  texts v = ""

  field_texts : Fields → String
  field_texts end = ""
  field_texts (field k v fs) = k ++ "=" ++ texts v ++ ";" ++ field_texts fs

abbrev printer : Platform
printer = record { digest = λ s. []; parse = λ s. none; stringify = texts }

details : Same (object (detail "0xabc")) (object (detail "0xdef"))
unfolding should_redact_key
details =
    objects _ _ (shown "step" _ _ _ _ (same _) (hidden "Payment-Signature" _ _ _ _ refl same_end))

redacts_the_signature :
    safe_log_fields (entry "0xabc")
    ≡ field "route" (text "/v1/example") (field "message" (object (detail "[REDACTED]")) end)
unfolding safe_log_fields
redacts_the_signature = refl

log_structured-hides_example :
    (log_structured printer info "now" (entry "0xabc")
      ≡ log_structured printer info "now" (entry "0xdef"))
    × All
        (λ k. get k (safe_log_fields (entry "0xabc")) ≡ redact_value (get k (entry "0xabc")))
        allowed_log_field_keys
unfolding get
log_structured-hides_example =
    log_structured-hides printer info "now" (entry "0xabc") (entry "0xdef")
      (same _, (same _, (same _, (same _, (same _, (same _, (same _, (same _, (details, tt)))))))))

prints_the_line :
    log_structured printer info "now" (entry "0xabc")
    ≡ "level=info;ts=now;route=/v1/example;message=step=verify;Payment-Signature=[REDACTED];;"
unfolding log_structured texts
prints_the_line = refl
