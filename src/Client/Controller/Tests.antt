-- ===== src/Client/Controller/Tests.antt =====
-- mainnet-pay-controller.ts: one payment whose answer is lost, a reset, and a second payment.
use x402_worker_template.Prelude.{
  ℕ, ◌+◌, ◌≤◌, ◌⊎◌, is_some, true, String, false, none, some, List, [], ◌∷◌, ◌++◌, ◌≡◌, refl,
  length, take_out,
}
use x402_worker_template.Js.{text, object, end, field, get}
use x402_worker_template.Js.Text.{utf16_length}
use x402_worker_template.Policy.{
  validate_base_mainnet_payment_requirements, build_mainnet_example_requirement, normalize_address,
}
use x402_worker_template.Policy.Tests.{seller}
use x402_worker_template.Orchestrator.Handler.Tests.{sdk}
use x402_worker_template.Client.Web.{lost}
use x402_worker_template.Client.Session.{
  session_value, valid_pending_session, session_of, is_stale, is_refused,
  read_pending_mainnet_payment_session,
}
use x402_worker_template.Client.Session.Tests.{platform, parse_date, session, json, options}
use x402_worker_template.Client.Terms.Tests.{web, origin, fetch}
use x402_worker_template.Client.Terms.{load_and_validate_mainnet_terms}
use x402_worker_template.Client.Executor.{normal}
use x402_worker_template.Client.Poller.{responded, Round, poll_payment_status, decide_state}
use x402_worker_template.Client.State.{success, can_submit_mainnet_payment, can_load_mainnet_terms}
use x402_worker_template.Client.Controller.{Deps}
use x402_worker_template.Client.Controller.Page.{
  Event, load_clicked, load_answered, submit_clicked, submit_answered, poll_ended, reset_clicked,
  open_page, perform_all,
}
use x402_worker_template.Client.Controller.Once.{resets, open_page-sends_once, open_page-resumes}
use x402_worker_template.Client.Controller.Single.{open_calls}
use x402_worker_template.Client.Controller.Kept.{IsKept, open_page-keeps}

abbrev deps : Deps
deps = record {
  x = sdk;
  web = web;
  platform = platform;
  parse_date = parse_date;
  origin = origin;
  seller_address = seller;
  query_value = "hello";
  max_polls = 3;
}

abbrev now : ℕ
now = options.now

-- The first lookup finds the payment done, with its result.
abbrev done : ℕ → Round
done n = record {
  aborted = false;
  fetched = responded 200 (
      some (
        object (
          field "state" (text "fulfilled") (
            field "result"
              (object
                (field "contentType" (text "application/json") (field "body" (text "{}") end)))
              end))));
}

abbrev pay : String → List Event
pay id =
    load_clicked ∷ load_answered fetch ∷ submit_clicked normal id "2026-01-01T00:00:00.000Z" ∷ []

abbrev first : List Event
first = pay "pay_0123456789abcdef" ++ submit_answered 0 (λ r. lost) "2026-01-01T00:00:01.000Z" ∷ []

abbrev events : List Event
events = first ++ reset_clicked ∷ pay "pay_fedcba9876543210"

open_page-sends_once_example :
    length (perform_all deps events (open_page deps now none)).0 ≤ 1 + resets events
open_page-sends_once_example = open_page-sends_once deps now none events

-- The answer of the first payment is lost: its poller runs, and its session is stored.
open_page-keeps_example :
    let w = (perform_all deps first (open_page deps now none)).1 in
    ((1 ≤ resets first) ⊎ ((open_calls w ≡ 0) ⊎ (is_some w.controller.storage ≡ true)))
    × IsKept w.controller
open_page-keeps_example = open_page-keeps deps now none first

open_page-resumes_example :
    length (perform_all deps first (open_page deps now (some json))).0 ≤ resets first
unfolding read_pending_mainnet_payment_session valid_pending_session session_of session_value get
    is_refused is_stale utf16_length
open_page-resumes_example = open_page-resumes deps now (some json) first session refl

-- The reset aborts the first payment's poller, but its lookup is under way, and its answer ends the
-- second payment: the page shows a success, and the session of the second payment is forgotten.
late_answer :
    let c =
      (perform_all deps
        (events ++ poll_ended 0 done ∷ [])
        (open_page deps now none)).1.controller in
    (c.state.ui_state ≡ success) × (c.storage ≡ none)
unfolding perform_all take_out can_submit_mainnet_payment can_load_mainnet_terms open_page
    load_and_validate_mainnet_terms validate_base_mainnet_payment_requirements
    build_mainnet_example_requirement normalize_address poll_payment_status decide_state
late_answer = (refl, refl)
