-- ===== src/Client/Poller/Tests.antt =====
-- pay-status-poller.ts: loops of two lookups.
use x402_worker_template.Prelude.{ℕ, zero, suc, false, some, ◌≡◌, refl, String}
use x402_worker_template.Js.{text, object, end, field, get}
use x402_worker_template.Client.Poller.{
  Fetched, responded, fulfilled, decide_state, Round, poll_payment_status,
}
use x402_worker_template.Client.Poller.Laws.{Ends, poll_payment_status-Ends}

abbrev in_state : String → Fetched
in_state s = responded 200 (some (object (field "state" (text s) end)))

-- The payment is being settled at the first lookup and done at the second.
abbrev rounds : ℕ → Round
rounds zero = record { aborted = false; fetched = in_state "settling" }
rounds (suc n) = record { aborted = false; fetched = in_state "fulfilled" }

second_lookup : poll_payment_status 3 rounds ≡ fulfilled (field "state" (text "fulfilled") end) 2
unfolding poll_payment_status get decide_state
second_lookup = refl

poll_payment_status-Ends_example : Ends rounds 0 3 (poll_payment_status 3 rounds)
poll_payment_status-Ends_example = poll_payment_status-Ends 3 rounds
