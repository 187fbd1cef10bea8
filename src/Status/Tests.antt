-- ===== src/Status/Tests.antt =====
-- The status of a fulfilled payment.
use x402_worker_template.Prelude.{◌≡◌, refl}
use x402_worker_template.Js.Text.{utf16_length, take_chars, drop_chars, char_count, shorten}
use x402_worker_template.Identifier.{validate_payment_identifier_for_lookup}
use x402_worker_template.Coordinator.Query.Status.{live_row}
use x402_worker_template.Coordinator.Query.Tests.{platform, coordinator, coordinator-Inv, env}
use x402_worker_template.Orchestrator.Handler.Tests.{sdk}
use x402_worker_template.Status.{shorten_transaction_ref, pay_status}
use x402_worker_template.Status.Laws.{Shows, pay_status-Shows}

shortens : shorten_transaction_ref "0x0123456789abcdef" ≡ "0x012345…abcdef"
unfolding shorten_transaction_ref shorten utf16_length take_chars drop_chars char_count
shortens = refl

pay_status-Shows_example :
    Shows platform
      (live_row "payment-1" 700 coordinator)
      (pay_status sdk platform env "payment-1" coordinator)
unfolding validate_payment_identifier_for_lookup
pay_status-Shows_example =
    pay_status-Shows sdk platform env "payment-1" coordinator coordinator-Inv refl refl
